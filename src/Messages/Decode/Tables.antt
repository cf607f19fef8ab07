-- ===== src/Messages/Decode/Tables.antt =====
-- wire.go: the fields of every message, and where their values go.
use mori.Messages.Decode.Fields.{
  max_field_bytes, max_compressed_bytes, dec_u32, dec_u16, dec_u8, dec_int, dec_bool, dec_string,
  dec_bytes, into, FieldDecoder,
}
use mori.Prelude.{false, none, some}
use mori.Prelude.{[], if◌then◌else◌}
use mori.Prelude.{same}
use mori.Prelude.Int.{pos}
use mori.Messages.Keys.{
  key_seq_no, key_node, key_source_addr, key_source_port, key_source_node, key_target, key_port,
  key_nack, key_payload, key_error, key_from, key_incarnation, key_addr, key_meta, key_vsn,
  key_nodes, key_user_state_len, key_join, key_user_msg_len, key_name, key_state, key_algo, key_buf,
}
use mori.Member.Types.{SuspectMsg, DeadMsg}
use mori.Messages.Types.{
  Ping, IndirectPingReq, AckResp, NackResp, ErrResp, Alive, PushPullHeader, UserMsgHeader,
  PushNodeEntry, Compress,
}

abbrev pub zero_ping : Ping
zero_ping = record { seq_no = 0; node = []; source_addr = none; source_port = 0; source_node = [] }

unfoldable pub decode_ping_field : FieldDecoder Ping
unfolding dec_bytes dec_string dec_u16 dec_u32
decode_ping_field m k =
    if same k key_seq_no
    then some (into dec_u32 (λ v. record m { seq_no = v }))
    else if same k key_node
    then some (into dec_string (λ v. record m { node = v }))
    else if same k key_source_addr
    then some (into (dec_bytes max_field_bytes) (λ v. record m { source_addr = v }))
    else if same k key_source_port
    then some (into dec_u16 (λ v. record m { source_port = v }))
    else if same k key_source_node
    then some (into dec_string (λ v. record m { source_node = v }))
    else none

abbrev pub zero_indirect_ping : IndirectPingReq
zero_indirect_ping = record {
  seq_no = 0;
  target = none;
  port = 0;
  node = [];
  nack = false;
  source_addr = none;
  source_port = 0;
  source_node = [];
}

unfoldable pub decode_indirect_ping_field : FieldDecoder IndirectPingReq
unfolding dec_bool dec_bytes dec_string dec_u16 dec_u32
decode_indirect_ping_field m k =
    if same k key_seq_no
    then some (into dec_u32 (λ v. record m { seq_no = v }))
    else if same k key_target
    then some (into (dec_bytes max_field_bytes) (λ v. record m { target = v }))
    else if same k key_port
    then some (into dec_u16 (λ v. record m { port = v }))
    else if same k key_node
    then some (into dec_string (λ v. record m { node = v }))
    else if same k key_nack
    then some (into dec_bool (λ v. record m { nack = v }))
    else if same k key_source_addr
    then some (into (dec_bytes max_field_bytes) (λ v. record m { source_addr = v }))
    else if same k key_source_port
    then some (into dec_u16 (λ v. record m { source_port = v }))
    else if same k key_source_node
    then some (into dec_string (λ v. record m { source_node = v }))
    else none

abbrev pub zero_ack : AckResp
zero_ack = record { seq_no = 0; payload = none }

unfoldable pub decode_ack_field : FieldDecoder AckResp
unfolding dec_bytes dec_u32
decode_ack_field m k =
    if same k key_seq_no
    then some (into dec_u32 (λ v. record m { seq_no = v }))
    else if same k key_payload
    then some (into (dec_bytes max_field_bytes) (λ v. record m { payload = v }))
    else none

abbrev pub zero_nack : NackResp
zero_nack = record { seq_no = 0 }

unfoldable pub decode_nack_field : FieldDecoder NackResp
unfolding dec_u32
decode_nack_field m k =
    if same k key_seq_no then some (into dec_u32 (λ v. record m { seq_no = v })) else none

abbrev pub zero_err_resp : ErrResp
zero_err_resp = record { error_text = [] }

unfoldable pub decode_err_resp_field : FieldDecoder ErrResp
unfolding dec_string
decode_err_resp_field m k =
    if same k key_error then some (into dec_string (λ v. record m { error_text = v })) else none

abbrev pub zero_suspect : SuspectMsg
zero_suspect = record { incarnation = 0; node = []; from = [] }

unfoldable pub decode_suspect_field : FieldDecoder SuspectMsg
unfolding dec_string dec_u32
decode_suspect_field m k =
    if same k key_incarnation
    then some (into dec_u32 (λ v. record m { incarnation = v }))
    else if same k key_node
    then some (into dec_string (λ v. record m { node = v }))
    else if same k key_from
    then some (into dec_string (λ v. record m { from = v }))
    else none

abbrev pub zero_alive : Alive
zero_alive = record { incarnation = 0; node = []; addr = none; port = 0; meta = none; vsn = none }

unfoldable pub decode_alive_field : FieldDecoder Alive
unfolding dec_bytes dec_string dec_u16 dec_u32
decode_alive_field m k =
    if same k key_incarnation
    then some (into dec_u32 (λ v. record m { incarnation = v }))
    else if same k key_node
    then some (into dec_string (λ v. record m { node = v }))
    else if same k key_addr
    then some (into (dec_bytes max_field_bytes) (λ v. record m { addr = v }))
    else if same k key_port
    then some (into dec_u16 (λ v. record m { port = v }))
    else if same k key_meta
    then some (into (dec_bytes max_field_bytes) (λ v. record m { meta = v }))
    else if same k key_vsn
    then some (into (dec_bytes max_field_bytes) (λ v. record m { vsn = v }))
    else none

abbrev pub zero_dead : DeadMsg
zero_dead = record { incarnation = 0; node = []; from = [] }

unfoldable pub decode_dead_field : FieldDecoder DeadMsg
unfolding dec_string dec_u32
decode_dead_field m k =
    if same k key_incarnation
    then some (into dec_u32 (λ v. record m { incarnation = v }))
    else if same k key_node
    then some (into dec_string (λ v. record m { node = v }))
    else if same k key_from
    then some (into dec_string (λ v. record m { from = v }))
    else none

abbrev pub zero_push_pull_header : PushPullHeader
zero_push_pull_header = record { nodes = pos 0; user_state_len = pos 0; join = false }

unfoldable pub decode_push_pull_header_field : FieldDecoder PushPullHeader
unfolding dec_bool dec_int
decode_push_pull_header_field m k =
    if same k key_nodes
    then some (into dec_int (λ v. record m { nodes = v }))
    else if same k key_user_state_len
    then some (into dec_int (λ v. record m { user_state_len = v }))
    else if same k key_join
    then some (into dec_bool (λ v. record m { join = v }))
    else none

abbrev pub zero_user_msg_header : UserMsgHeader
zero_user_msg_header = record { user_msg_len = pos 0 }

unfoldable pub decode_user_msg_header_field : FieldDecoder UserMsgHeader
unfolding dec_int
decode_user_msg_header_field m k =
    if same k key_user_msg_len
    then some (into dec_int (λ v. record m { user_msg_len = v }))
    else none

abbrev pub zero_push_node_state : PushNodeEntry
zero_push_node_state = record {
  name = [];
  addr = none;
  port = 0;
  meta = none;
  incarnation = 0;
  state = pos 0;
  vsn = none;
}

unfoldable pub decode_push_node_state_field : FieldDecoder PushNodeEntry
unfolding dec_bytes dec_int dec_string dec_u16 dec_u32
decode_push_node_state_field m k =
    if same k key_name
    then some (into dec_string (λ v. record m { name = v }))
    else if same k key_addr
    then some (into (dec_bytes max_field_bytes) (λ v. record m { addr = v }))
    else if same k key_port
    then some (into dec_u16 (λ v. record m { port = v }))
    else if same k key_meta
    then some (into (dec_bytes max_field_bytes) (λ v. record m { meta = v }))
    else if same k key_incarnation
    then some (into dec_u32 (λ v. record m { incarnation = v }))
    else if same k key_state
    then some (into dec_int (λ v. record m { state = v }))
    else if same k key_vsn
    then some (into (dec_bytes max_field_bytes) (λ v. record m { vsn = v }))
    else none

abbrev pub zero_compress : Compress
zero_compress = record { algo = 0; buf = none }

unfoldable pub decode_compress_field : FieldDecoder Compress
unfolding dec_bytes dec_u8
decode_compress_field m k =
    if same k key_algo
    then some (into dec_u8 (λ v. record m { algo = v }))
    else if same k key_buf
    then some (into (dec_bytes max_compressed_bytes) (λ v. record m { buf = v }))
    else none
