-- ===== src/Messages/Decode.antt =====
-- wire.go: the decoders of the fields and of whole messages.
mod Tables
unfoldable pub use Tables.*
mod Fields
unfoldable pub use Fields.*
use mori.Prelude.{ℕ, zero, suc}
use mori.Prelude.{Bool, false, Option, none, some}
use mori.Prelude.{[], if◌then◌else◌}
use mori.Prelude.{Bytes, same}
use mori.Prelude.Int.{ℤ, pos}
use mori.Msgpack.Reader.{Reader, pure, ◌>>=◌, ◌>>◌}
use mori.Msgpack.Read.{
  read_map_header, read_bytes, read_string, read_key, read_uint, min_int, max_int, read_int,
  read_bool,
}
use mori.Msgpack.Skip.{skip}
use mori.Messages.Keys.{
  key_seq_no, key_node, key_source_addr, key_source_port, key_source_node, key_target, key_port,
  key_nack, key_payload, key_error, key_from, key_incarnation, key_addr, key_meta, key_vsn,
  key_nodes, key_user_state_len, key_join, key_user_msg_len, key_name, key_state, key_algo, key_buf,
}
use mori.Member.Types.{SuspectMsg, DeadMsg}
use mori.Messages.Types.{
  Ping, IndirectPingReq, AckResp, NackResp, ErrResp, Alive, PushPullHeader, UserMsgHeader,
  PushNodeEntry, Compress, WireMessage, ping_m, indirect_ping_m, ack_resp_m, nack_resp_m,
  err_resp_m, suspect_m, alive_m, dead_m, push_pull_header_m, user_msg_header_m, push_node_state_m,
  compress_m,
}

unfoldable pub decode_ping : Bool → Reader Ping
unfolding decode_map decode_ping_field
decode_ping stream = decode_map stream decode_ping_field zero_ping

unfoldable pub decode_indirect_ping : Bool → Reader IndirectPingReq
unfolding decode_map decode_indirect_ping_field
decode_indirect_ping stream = decode_map stream decode_indirect_ping_field zero_indirect_ping

unfoldable pub decode_ack : Bool → Reader AckResp
unfolding decode_map decode_ack_field
decode_ack stream = decode_map stream decode_ack_field zero_ack

unfoldable pub decode_nack : Bool → Reader NackResp
unfolding decode_map decode_nack_field
decode_nack stream = decode_map stream decode_nack_field zero_nack

unfoldable pub decode_err_resp : Bool → Reader ErrResp
unfolding decode_map decode_err_resp_field
decode_err_resp stream = decode_map stream decode_err_resp_field zero_err_resp

unfoldable pub decode_suspect : Bool → Reader SuspectMsg
unfolding decode_map decode_suspect_field
decode_suspect stream = decode_map stream decode_suspect_field zero_suspect

unfoldable pub decode_alive : Bool → Reader Alive
unfolding decode_map decode_alive_field
decode_alive stream = decode_map stream decode_alive_field zero_alive

unfoldable pub decode_dead : Bool → Reader DeadMsg
unfolding decode_map decode_dead_field
decode_dead stream = decode_map stream decode_dead_field zero_dead

unfoldable pub decode_push_pull_header : Bool → Reader PushPullHeader
unfolding decode_map decode_push_pull_header_field
decode_push_pull_header stream =
    decode_map stream decode_push_pull_header_field zero_push_pull_header

unfoldable pub decode_user_msg_header : Bool → Reader UserMsgHeader
unfolding decode_map decode_user_msg_header_field
decode_user_msg_header stream = decode_map stream decode_user_msg_header_field zero_user_msg_header

unfoldable pub decode_push_node_state : Bool → Reader PushNodeEntry
unfolding decode_map decode_push_node_state_field
decode_push_node_state stream = decode_map stream decode_push_node_state_field zero_push_node_state

unfoldable pub decode_compress : Bool → Reader Compress
unfolding decode_map decode_compress_field
decode_compress stream = decode_map stream decode_compress_field zero_compress

-- `DecodeMsgpack`: the receiver gives the type, and is reset first.
unfoldable pub decode_msgpack : Bool → WireMessage → Reader WireMessage
unfolding decode_ping decode_indirect_ping decode_ack decode_nack decode_err_resp decode_suspect
    decode_alive decode_dead decode_push_pull_header decode_user_msg_header decode_push_node_state
    decode_compress
decode_msgpack stream (ping_m _) = into (decode_ping stream) ping_m
decode_msgpack stream (indirect_ping_m _) = into (decode_indirect_ping stream) indirect_ping_m
decode_msgpack stream (ack_resp_m _) = into (decode_ack stream) ack_resp_m
decode_msgpack stream (nack_resp_m _) = into (decode_nack stream) nack_resp_m
decode_msgpack stream (err_resp_m _) = into (decode_err_resp stream) err_resp_m
decode_msgpack stream (suspect_m _) = into (decode_suspect stream) suspect_m
decode_msgpack stream (alive_m _) = into (decode_alive stream) alive_m
decode_msgpack stream (dead_m _) = into (decode_dead stream) dead_m
decode_msgpack stream (push_pull_header_m _) =
    into (decode_push_pull_header stream) push_pull_header_m
decode_msgpack stream (user_msg_header_m _) = into (decode_user_msg_header stream) user_msg_header_m
decode_msgpack stream (push_node_state_m _) = into (decode_push_node_state stream) push_node_state_m
decode_msgpack stream (compress_m _) = into (decode_compress stream) compress_m
