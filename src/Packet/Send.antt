-- ===== src/Packet/Send.antt =====
-- net.go: `rawSendMsgPacket`, from a message to the bytes of a packet, and the label of the transport.
use mori.Prelude.{ℕ}
use mori.Prelude.{Bool, false, ◌&&◌, Option, none, some}
use mori.Prelude.{[], ◌∷◌, ◌++◌, ltb, leb, ◌==◌, if◌then◌else◌}
use mori.Prelude.{length}
use mori.Prelude.{Bytes, same}
use mori.Packet.Types.{compress_msg, has_crc_msg, PacketConfig, Address}
use mori.Packet.Acks.{encode}
use mori.Messages.Types.{compress_m}
use mori.Prelude.Assoc.{lookup}
use mori.Wire.Label.{add_label_header_to_packet}
use mori.Security.Payload.{seal_payload}
use mori.Msgpack.Append.{to_bytes}
use mori.Member.Types.{Node, Memberlist, node_of}

-- What only the sending needs. `lzw_compress` is what an LZW writer makes of its input.
pub record SendConfig : Type 0 where
  pub packet : PacketConfig
  pub require_node_names : Bool
  pub enable_compression : Bool
  pub gossip_verify_outgoing : Bool
  pub lzw_compress : Bytes → Option Bytes

-- `maxIncompressiblePacket`
abbrev max_incompressible_packet : ℕ
max_incompressible_packet = 22

-- `encryptionVersion`
unfoldable pub encryption_version : PacketConfig → ℕ
encryption_version cfg = if cfg.protocol_version == 1 then 0 else 1

-- `compressPayload`
unfoldable pub compress_payload : SendConfig → Bytes → Option Bytes
unfolding encode
compress_payload cfg inp = elim (cfg.lzw_compress inp) [
  | none ↦ none
  | some buf ↦ some (encode compress_msg (compress_m (record { algo = 0; buf = some buf })))
]

-- The compressed form, where it is smaller.
abbrev pub smaller_of : Bytes → Option Bytes → Bytes
smaller_of msg none = msg
smaller_of msg (some buf) = if ltb (length buf) (length msg) then buf else msg

unfoldable pub compressed : SendConfig → Bytes → Bytes
unfolding compress_payload
compressed cfg msg =
    if cfg.enable_compression && ltb max_incompressible_packet (length msg)
    then smaller_of msg (compress_payload cfg msg)
    else msg

-- The destination's node, if it is known, or none where the address has no host.
unfoldable pub destination : SendConfig → Address → Option Node → Memberlist → Option (Option Node)
unfolding lookup
destination cfg a (some node) m = some (some node)
destination cfg a none m = elim (cfg.packet.split_host a.addr) [
  | none ↦ none
  | some to_addr ↦ elim (lookup to_addr m.node_map) [
    | none ↦ some none
    | some state ↦ some (some (node_of state))
  ]
]

abbrev pub understands_crc : Option Node → Bool
understands_crc none = false
understands_crc (some node) = leb 5 node.vsn.pmax

unfoldable pub checksummed : SendConfig → Option Node → Bytes → Bytes
checksummed cfg node msg =
    if understands_crc node then has_crc_msg ∷ (to_bytes 4 (cfg.packet.crc32 msg) ++ msg) else msg

-- `nonce` is what the random generator fills in. A keyring with a key and no cipher panics.
unfoldable pub sealed : SendConfig → Bytes → Bytes → Option Bytes
unfolding seal_payload encryption_version
sealed cfg nonce msg = elim cfg.packet.keyring [
  | none ↦ some msg
  | some k ↦
      if ltb 0 (length k.keys) && cfg.gossip_verify_outgoing
      then elim k.aeads [
        | [] ↦ none
        | gcm ∷ gcms ↦
            some (seal_payload (encryption_version cfg.packet) gcm nonce msg cfg.packet.label [])
      ]
      else some msg
]

-- What is handed to the transport, or none for an error.
unfoldable pub raw_send_msg_packet :
    SendConfig → Address → Option Node → Bytes → Memberlist → Bytes → Option Bytes
unfolding same compressed destination checksummed sealed
raw_send_msg_packet cfg a node nonce m msg =
    if same a.name [] && cfg.require_node_names then none else elim (destination cfg a node m) [
      | none ↦ none
      | some to ↦ sealed cfg nonce (checksummed cfg to (compressed cfg msg))
    ]

-- `WriteToAddress` of the label's transport: the bytes of the packet.
unfoldable pub write_to_address : SendConfig → Option Bytes → Option Bytes
unfolding add_label_header_to_packet
write_to_address cfg none = none
write_to_address cfg (some buf) = add_label_header_to_packet buf cfg.packet.label
