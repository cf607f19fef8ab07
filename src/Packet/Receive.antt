-- ===== src/Packet/Receive.antt =====
-- net.go: the packet listener, from the bytes of a packet to the queues and the answers.
mod Answers
unfoldable pub use Answers.*
use mori.Prelude.{ℕ, zero, suc, ◌^◌}
use mori.Prelude.{Bool, true, false, not, ◌&&◌, ◌||◌, Option, none, some}
use mori.Prelude.{List, [], ◌∷◌, ltb, leb, ◌==◌, if◌then◌else◌}
use mori.Prelude.{length, take, drop}
use mori.Prelude.{Bytes, same}
use mori.Prelude.Int.{pos, ltb_ℤ}
use mori.Packet.Types.{
  ping_msg, indirect_ping_msg, ack_resp_msg, suspect_msg_type, alive_msg_type, dead_msg_type,
  compound_msg_type, user_msg, compress_msg, nack_resp_msg, has_crc_msg,
  max_packet_decompressed_bytes, PacketConfig, Arrival, Address, Handoff, PacketState,
}
use mori.Packet.Acks.{
  decode, encode_and_send_msg, next_seq_no, set_ack_handler, invoke_ack_handler,
  invoke_nack_handler,
}
use mori.Messages.Decode.{
  decode_ping, decode_indirect_ping, decode_ack, decode_nack, decode_compress,
}
use mori.Messages.Types.{Ping, IndirectPingReq, Compress, ping_m, ack_resp_m}
use mori.Wire.Label.{Unlabelled, unlabelled, label_error, remove_label_header_from_packet}
use mori.Wire.Compound.{decoded, decode_error, decode_compound_message}
use mori.Security.Payload.{Aead, Opened, opened, open_error, open_payload}
use mori.Msgpack.Append.{wrap_to}
use mori.Msgpack.Reader.{from_bytes}

-- `envelope`
pub record Envelope : Type 0 where
  pub in_compound : Bool
  pub in_compress : Bool

-- The zero value: a packet stands in no envelope.
abbrev pub no_envelope : Envelope
no_envelope = record { in_compound = false; in_compress = false }

-- `queue.Len() >= HandoffQueueDepth`
abbrev pub queue_full : PacketConfig → List Handoff → Bool
queue_full cfg q = not (ltb_ℤ (pos (length q)) cfg.handoff_queue_depth)

abbrev pub push_back : PacketConfig → Handoff → List Handoff → List Handoff
push_back cfg h q = if queue_full cfg q then q else h ∷ q

-- The message goes to the queue of its type, and the packet handler is notified, even of a full queue.
unfoldable pub queue_message : PacketConfig → Handoff → PacketState → PacketState
queue_message cfg h s =
    if h.msg_type == alive_msg_type
    then record s { high_priority = push_back cfg h s.high_priority; handoff_pending = true }
    else record s { low_priority = push_back cfg h s.low_priority; handoff_pending = true }

-- `decompressBuffer`
unfoldable pub decompress_buffer : PacketConfig → Compress → ℕ → Option Bytes
decompress_buffer cfg c limit =
    if not (c.algo == 0) then none else elim (cfg.lzw (elim c.buf [ none ↦ [] | some buf ↦ buf ])) [
      | none ↦ none
      | some out ↦ if ltb limit (length out) then none else some out
    ]

-- `decompressPayload`
unfoldable pub decompress_payload : PacketConfig → Bytes → Option Bytes
unfolding decode decode_compress decompress_buffer
decompress_payload cfg msg = elim (decode (decode_compress false) msg) [
  | none ↦ none
  | some c ↦ decompress_buffer cfg c max_packet_decompressed_bytes
]

-- How the parts of an envelope are handled.
abbrev pub Handler : Type 0
Handler = Bytes → PacketState → PacketState

abbrev pub handle_parts : Handler → List Bytes → PacketState → PacketState
handle_parts again [] s = s
handle_parts again (part ∷ parts) s = handle_parts again parts (again part s)

unfoldable pub handle_compound : Handler → Bytes → PacketState → PacketState
unfolding decode_compound_message
handle_compound again buf s = elim (decode_compound_message buf) [
  | decoded trunc parts ↦ handle_parts again parts s
  | decode_error ↦ s
]

unfoldable pub handle_compressed : PacketConfig → Handler → Bytes → PacketState → PacketState
unfolding decompress_payload
handle_compressed cfg again buf s = elim (decompress_payload cfg buf) [
  | none ↦ s
  | some payload ↦ again payload s
]

-- A message that is no envelope.
unfoldable pub handle_leaf : PacketConfig → Arrival → ℕ → Bytes → PacketState → PacketState
unfolding handle_ping handle_indirect_ping handle_ack handle_nack queue_message
handle_leaf cfg at msg_type buf s =
    if msg_type == ping_msg
    then handle_ping cfg at buf s
    else if msg_type == indirect_ping_msg
    then handle_indirect_ping cfg at buf s
    else if msg_type == ack_resp_msg
    then handle_ack at buf s
    else if msg_type == nack_resp_msg
    then handle_nack buf s
    else if msg_type == suspect_msg_type
        || msg_type == alive_msg_type
        || msg_type == dead_msg_type
        || msg_type == user_msg
    then queue_message cfg (record { msg_type = msg_type; buf = buf; from = at.from }) s
    else s

-- The body of `handleCommandIn`; `again` handles what an envelope holds.
unfoldable pub dispatch : PacketConfig → Arrival → (Envelope → Handler) → Envelope → Handler
unfolding handle_compound handle_compressed handle_leaf
dispatch cfg at again env [] s = s
dispatch cfg at again env (msg_type ∷ buf) s =
    if msg_type == compound_msg_type
    then (if env.in_compound
        then s
        else handle_compound (again (record env { in_compound = true })) buf s)
    else if msg_type == compress_msg
    then (if env.in_compress
        then s
        else handle_compressed cfg (again (record env { in_compress = true })) buf s)
    else handle_leaf cfg at msg_type buf s

-- `fuel` bounds the depth of the envelopes.
unfoldable pub handle_command_in : ℕ → PacketConfig → Arrival → Envelope → Handler
unfolding dispatch
handle_command_in zero cfg at env buf s = s
handle_command_in (suc fuel) cfg at env buf s =
    dispatch cfg at (handle_command_in fuel cfg at) env buf s

-- An envelope of each kind, and the message inside.
unfoldable pub handle_command : PacketConfig → Arrival → Handler
unfolding handle_command_in
handle_command cfg at buf s = handle_command_in 3 cfg at no_envelope buf s

-- `EncryptionEnabled`, with the ciphers.
unfoldable pub installed_aeads : PacketConfig → Option (List Aead)
installed_aeads cfg = elim cfg.keyring [
  | none ↦ none
  | some k ↦ if ltb 0 (length k.keys) then some k.aeads else none
]

-- What is handled of a packet that the ciphers open, or do not.
abbrev pub plaintext_of : PacketConfig → Bytes → Opened → Option Bytes
plaintext_of cfg buf (opened plain) = some plain
plaintext_of cfg buf open_error = if not cfg.gossip_verify_incoming then some buf else none

unfoldable pub decrypted : PacketConfig → Bytes → Bytes → Option (List Aead) → Option Bytes
unfolding open_payload
decrypted cfg label buf none = some buf
decrypted cfg label buf (some aeads) = plaintext_of cfg buf (open_payload aeads buf label)

-- The plaintext of a packet, or none if the packet is dropped.
unfoldable pub packet_plaintext : PacketConfig → Bytes → Bytes → Option Bytes
unfolding installed_aeads decrypted
packet_plaintext cfg label buf = decrypted cfg label buf (installed_aeads cfg)

-- The checksum, if there is one, and then the message.
unfoldable pub handle_checked : PacketConfig → Arrival → Bytes → PacketState → PacketState
unfolding handle_command
handle_checked cfg at buf s =
    if leb 5 (length buf) && (from_bytes 0 (take 1 buf) == has_crc_msg)
    then (if cfg.crc32 (drop 5 buf) == from_bytes 0 (take 4 (drop 1 buf))
        then handle_command cfg at (drop 5 buf) s
        else s)
    else handle_command cfg at buf s

unfoldable pub handle_plain : PacketConfig → Arrival → Option Bytes → PacketState → PacketState
unfolding handle_checked
handle_plain cfg at none s = s
handle_plain cfg at (some plain) s = handle_checked cfg at plain s

-- The packet behind its label.
unfoldable pub ingest_labelled : PacketConfig → Arrival → Bytes → Bytes → PacketState → PacketState
unfolding packet_plaintext handle_plain
ingest_labelled cfg at label buf s =
    if not (same cfg.label label) then s else handle_plain cfg at (packet_plaintext cfg label buf) s

unfoldable pub ingest_unlabelled : PacketConfig → Arrival → Unlabelled → PacketState → PacketState
unfolding ingest_labelled
ingest_unlabelled cfg at label_error s = s
ingest_unlabelled cfg at (unlabelled buf label) s =
    if cfg.skip_inbound_label_check
    then (if not (same label []) then s else ingest_labelled cfg at cfg.label buf s)
    else ingest_labelled cfg at label buf s

unfoldable pub ingest_packet : PacketConfig → Arrival → Bytes → PacketState → PacketState
unfolding remove_label_header_from_packet ingest_unlabelled
ingest_packet cfg at packet s = ingest_unlabelled cfg at (remove_label_header_from_packet packet) s
