-- ===== src/Packet/Receive/Answers.antt =====
-- net.go: the messages that are answered at once: pings, acks and nacks.
use mori.Prelude.{ℕ, ◌^◌}
use mori.Prelude.{Bool, false, not, ◌&&◌, ◌||◌, Option, none, some}
use mori.Prelude.{[], ◌∷◌, ltb, ◌==◌, if◌then◌else◌}
use mori.Prelude.{length}
use mori.Prelude.{Bytes, same}
use mori.Packet.Types.{ping_msg, ack_resp_msg, PacketConfig, Arrival, Address, PacketState}
use mori.Packet.Acks.{
  decode, encode_and_send_msg, next_seq_no, set_ack_handler, invoke_ack_handler,
  invoke_nack_handler,
}
use mori.Messages.Decode.{decode_ping, decode_indirect_ping, decode_ack, decode_nack}
use mori.Messages.Types.{Ping, IndirectPingReq, ping_m, ack_resp_m}
use mori.Msgpack.Append.{wrap_to}

-- Where an answer goes: to the source of the message, or to the sender of the packet.
unfoldable pub reply_addr : PacketConfig → Arrival → Option Bytes → ℕ → Bytes
reply_addr cfg at source_addr source_port = elim source_addr [
  | none ↦ at.from
  | some ip ↦
      if ltb 0 (length ip) && ltb 0 source_port
      then cfg.join_host_port (cfg.members.ip_string ip) source_port
      else at.from
]

-- Whether a name is given, and is not the local node's.
unfoldable pub not_for_us : PacketConfig → Bytes → Bool
unfolding same
not_for_us cfg node = not (same node []) && not (same node cfg.members.name)

unfoldable pub answer_ping : PacketConfig → Arrival → Ping → PacketState → PacketState
unfolding reply_addr not_for_us encode_and_send_msg
answer_ping cfg at p s =
    let payload : Option Bytes = elim at.ack_payload [
      | none ↦ none
      | some answer ↦ answer (length s.sent)
    ] in
    let a : Address = record {
      addr = reply_addr cfg at p.source_addr p.source_port;
      name = p.source_node;
    } in
    if not_for_us cfg p.node
    then s
    else encode_and_send_msg a ack_resp_msg
        (ack_resp_m (record { seq_no = p.seq_no; payload = payload })) s

unfoldable pub handle_ping : PacketConfig → Arrival → Bytes → PacketState → PacketState
unfolding decode decode_ping answer_ping
handle_ping cfg at buf s = elim (decode (decode_ping false) buf) [
  | none ↦ s
  | some p ↦ answer_ping cfg at p s
]

-- `net.IP.String` of an address that may be nil.
abbrev pub ip_text : PacketConfig → Option Bytes → Bytes
ip_text cfg none = cfg.members.ip_string []
ip_text cfg (some ip) = cfg.members.ip_string ip

-- The port of a message; the configured one where the message has none, and under protocol versions
-- below 2, whose messages carried none, whatever it has.
unfoldable pub port_or_default : PacketConfig → ℕ → ℕ
unfolding wrap_to
port_or_default cfg port =
    if ltb cfg.protocol_version 2 || port == 0 then wrap_to (2 ^ 16) cfg.bind_port else port

unfoldable pub relay_ping : PacketConfig → Arrival → IndirectPingReq → PacketState → PacketState
unfolding reply_addr port_or_default next_seq_no set_ack_handler encode_and_send_msg
relay_ping cfg at ind s =
    let (s1, local_seq_no) = next_seq_no s in
    let back : Address = record {
      addr = reply_addr cfg at ind.source_addr ind.source_port;
      name = ind.source_node;
    } in
    let ping : Ping = record {
      seq_no = local_seq_no;
      node = ind.node;
      source_addr = some s1.advertise_addr;
      source_port = s1.advertise_port;
      source_node = cfg.members.name;
    } in
    let to : Address = record {
      addr = cfg.join_host_port (ip_text cfg ind.target) (port_or_default cfg ind.port);
      name = ind.node;
    } in
    let s2 =
      encode_and_send_msg to ping_msg (ping_m ping)
        (set_ack_handler local_seq_no ind.seq_no back s1) in
    if ind.nack
    then record s2 {
      waiting_nacks =
          record { relay = local_seq_no; seq_no = ind.seq_no; to = back } ∷ s2.waiting_nacks;
    }
    else s2

unfoldable pub handle_indirect_ping : PacketConfig → Arrival → Bytes → PacketState → PacketState
unfolding decode decode_indirect_ping relay_ping
handle_indirect_ping cfg at buf s = elim (decode (decode_indirect_ping false) buf) [
  | none ↦ s
  | some ind ↦ relay_ping cfg at ind s
]

unfoldable pub handle_ack : Arrival → Bytes → PacketState → PacketState
unfolding decode decode_ack invoke_ack_handler
handle_ack at buf s = elim (decode (decode_ack false) buf) [
  | none ↦ s
  | some ack ↦ invoke_ack_handler ack at.timestamp s
]

unfoldable pub handle_nack : Bytes → PacketState → PacketState
unfolding decode decode_nack invoke_nack_handler
handle_nack buf s = elim (decode (decode_nack false) buf) [
  | none ↦ s
  | some nack ↦ invoke_nack_handler nack s
]
