-- ===== src/Messages/RoundTrip.antt =====
-- wire.go: writing a message and reading it again.
use mori.Prelude.{◌^◌, ◌≤◌, ◌<◌, ◌≡◌, refl}
use mori.Prelude.{Bool}
use mori.Prelude.{◌++◌, arith}
use mori.Prelude.{length}
use mori.Prelude.{Bytes, same}
use mori.Prelude.Int.{IsInt64}
use mori.Msgpack.Reader.{ok}
use mori.Msgpack.RawRoundTrip.{Holds}
use mori.Messages.Decode.{
  max_field_bytes, max_compressed_bytes, zero_ack, decode_ack_field, decode_ack, zero_nack,
  decode_nack_field, decode_nack, zero_err_resp, decode_err_resp_field, decode_err_resp,
  zero_suspect, decode_suspect_field, decode_suspect, zero_alive, decode_alive_field, decode_alive,
  zero_dead, decode_dead_field, decode_dead, zero_push_pull_header, decode_push_pull_header_field,
  decode_push_pull_header, zero_user_msg_header, decode_user_msg_header_field,
  decode_user_msg_header, zero_push_node_state, decode_push_node_state_field,
  decode_push_node_state, zero_compress, decode_compress_field, decode_compress,
}
use mori.Messages.Encode.{
  append_ack, append_nack, append_err_resp, append_suspect, append_alive, append_dead,
  append_push_pull_header, append_user_msg_header, append_push_node_state, append_compress,
}
use mori.Messages.Keys.{
  key_seq_no, key_node, key_port, key_payload, key_error, key_from, key_incarnation, key_addr,
  key_meta, key_vsn, key_nodes, key_user_state_len, key_join, key_user_msg_len, key_name, key_state,
  key_algo, key_buf,
}
use mori.Member.Types.{SuspectMsg, DeadMsg}
use mori.Messages.Types.{
  AckResp, NackResp, ErrResp, Alive, PushPullHeader, UserMsgHeader, PushNodeEntry, Compress,
}
use mori.Messages.Entries.{
  Fills-append, Fills-u32, Fills-u16, Fills-u8, Fills-int, Fills-bool, Fills-string, Fills-bytes,
  decode_map-append,
}

-- A string that a decoder takes.
abbrev pub IsShort : Bytes → Type 0
IsShort s = length s ≤ 1048576

abbrev pub IsAckResp : AckResp → Type 0
IsAckResp m = (m.seq_no < 2 ^ 32) × (Holds max_field_bytes m.payload)

pub decode_ack-append_ack :
    (stream : Bool) (m : AckResp) (rest : Bytes)
    → IsAckResp m
    → decode_ack stream (append_ack m ++ rest) ≡ ok m rest
unfolding append_ack decode_ack decode_ack_field same
decode_ack-append_ack stream m rest (h_seq_no, h_payload) =
    decode_map-append {stream = stream} {field = decode_ack_field} {m = zero_ack} _ rest
      (omega arith)
      (Fills-append
        (Fills-bytes max_field_bytes key_payload m.payload (λ x v. record x { payload = v }) refl
          (λ x. refl) h_payload)
        (Fills-u32 key_seq_no m.seq_no (λ x v. record x { seq_no = v }) refl (λ x. refl) h_seq_no))

abbrev pub IsNackResp : NackResp → Type 0
IsNackResp m = m.seq_no < 2 ^ 32

pub decode_nack-append_nack :
    (stream : Bool) (m : NackResp) (rest : Bytes)
    → IsNackResp m
    → decode_nack stream (append_nack m ++ rest) ≡ ok m rest
unfolding append_nack decode_nack decode_nack_field same
decode_nack-append_nack stream m rest h_seq_no =
    decode_map-append {stream = stream} {field = decode_nack_field} {m = zero_nack} _ rest
      (omega arith)
      (Fills-u32 key_seq_no m.seq_no (λ x v. record x { seq_no = v }) refl (λ x. refl) h_seq_no)

abbrev pub IsErrResp : ErrResp → Type 0
IsErrResp m = IsShort m.error_text

pub decode_err_resp-append_err_resp :
    (stream : Bool) (m : ErrResp) (rest : Bytes)
    → IsErrResp m
    → decode_err_resp stream (append_err_resp m ++ rest) ≡ ok m rest
unfolding append_err_resp decode_err_resp decode_err_resp_field same
decode_err_resp-append_err_resp stream m rest h_error_text =
    decode_map-append {stream = stream} {field = decode_err_resp_field} {m = zero_err_resp} _ rest
      (omega arith)
      (Fills-string key_error m.error_text (λ x v. record x { error_text = v }) refl (λ x. refl)
        h_error_text)

abbrev pub IsSuspect : SuspectMsg → Type 0
IsSuspect m = (m.incarnation < 2 ^ 32) × (IsShort m.node) × (IsShort m.from)

pub decode_suspect-append_suspect :
    (stream : Bool) (m : SuspectMsg) (rest : Bytes)
    → IsSuspect m
    → decode_suspect stream (append_suspect m ++ rest) ≡ ok m rest
unfolding append_suspect decode_suspect decode_suspect_field same
decode_suspect-append_suspect stream m rest (h_incarnation, h_node, h_from) =
    decode_map-append {stream = stream} {field = decode_suspect_field} {m = zero_suspect} _ rest
      (omega arith)
      (Fills-append
        (Fills-string key_from m.from (λ x v. record x { from = v }) refl (λ x. refl) h_from)
        (Fills-append
          (Fills-u32 key_incarnation m.incarnation (λ x v. record x { incarnation = v }) refl
            (λ x. refl) h_incarnation)
          (Fills-string key_node m.node (λ x v. record x { node = v }) refl (λ x. refl) h_node)))

abbrev pub IsAlive : Alive → Type 0
IsAlive m =
    (m.incarnation < 2 ^ 32)
    × (IsShort m.node)
    × (Holds max_field_bytes m.addr)
    × (m.port < 2 ^ 16)
    × (Holds max_field_bytes m.meta)
    × (Holds max_field_bytes m.vsn)

pub decode_alive-append_alive :
    (stream : Bool) (m : Alive) (rest : Bytes)
    → IsAlive m
    → decode_alive stream (append_alive m ++ rest) ≡ ok m rest
unfolding append_alive decode_alive decode_alive_field same
decode_alive-append_alive stream m rest (h_incarnation, h_node, h_addr, h_port, h_meta, h_vsn) =
    decode_map-append {stream = stream} {field = decode_alive_field} {m = zero_alive} _ rest
      (omega arith)
      (Fills-append
        (Fills-bytes max_field_bytes key_addr m.addr (λ x v. record x { addr = v }) refl (λ x. refl)
          h_addr)
        (Fills-append
          (Fills-u32 key_incarnation m.incarnation (λ x v. record x { incarnation = v }) refl
            (λ x. refl) h_incarnation)
          (Fills-append
            (Fills-bytes max_field_bytes key_meta m.meta (λ x v. record x { meta = v }) refl
              (λ x. refl) h_meta)
            (Fills-append
              (Fills-string key_node m.node (λ x v. record x { node = v }) refl (λ x. refl) h_node)
              (Fills-append
                (Fills-u16 key_port m.port (λ x v. record x { port = v }) refl (λ x. refl) h_port)
                (Fills-bytes max_field_bytes key_vsn m.vsn (λ x v. record x { vsn = v }) refl
                  (λ x. refl) h_vsn))))))

abbrev pub IsDead : DeadMsg → Type 0
IsDead m = (m.incarnation < 2 ^ 32) × (IsShort m.node) × (IsShort m.from)

pub decode_dead-append_dead :
    (stream : Bool) (m : DeadMsg) (rest : Bytes)
    → IsDead m
    → decode_dead stream (append_dead m ++ rest) ≡ ok m rest
unfolding append_dead decode_dead decode_dead_field same
decode_dead-append_dead stream m rest (h_incarnation, h_node, h_from) =
    decode_map-append {stream = stream} {field = decode_dead_field} {m = zero_dead} _ rest
      (omega arith)
      (Fills-append
        (Fills-string key_from m.from (λ x v. record x { from = v }) refl (λ x. refl) h_from)
        (Fills-append
          (Fills-u32 key_incarnation m.incarnation (λ x v. record x { incarnation = v }) refl
            (λ x. refl) h_incarnation)
          (Fills-string key_node m.node (λ x v. record x { node = v }) refl (λ x. refl) h_node)))

abbrev pub IsPushPullHeader : PushPullHeader → Type 0
IsPushPullHeader m = (IsInt64 m.nodes) × (IsInt64 m.user_state_len)

pub decode_push_pull_header-append_push_pull_header :
    (stream : Bool) (m : PushPullHeader) (rest : Bytes)
    → IsPushPullHeader m
    → decode_push_pull_header stream (append_push_pull_header m ++ rest) ≡ ok m rest
unfolding append_push_pull_header decode_push_pull_header decode_push_pull_header_field same
decode_push_pull_header-append_push_pull_header stream m rest (h_nodes, h_user_state_len) =
    decode_map-append {stream = stream} {field = decode_push_pull_header_field}
      {m = zero_push_pull_header} _ rest (omega arith)
      (Fills-append (Fills-bool key_join m.join (λ x v. record x { join = v }) refl (λ x. refl)) (
        Fills-append
          (Fills-int key_nodes m.nodes (λ x v. record x { nodes = v }) refl (λ x. refl) h_nodes)
          (Fills-int key_user_state_len m.user_state_len (λ x v. record x { user_state_len = v })
            refl (λ x. refl) h_user_state_len)))

abbrev pub IsUserMsgHeader : UserMsgHeader → Type 0
IsUserMsgHeader m = IsInt64 m.user_msg_len

pub decode_user_msg_header-append_user_msg_header :
    (stream : Bool) (m : UserMsgHeader) (rest : Bytes)
    → IsUserMsgHeader m
    → decode_user_msg_header stream (append_user_msg_header m ++ rest) ≡ ok m rest
unfolding append_user_msg_header decode_user_msg_header decode_user_msg_header_field same
decode_user_msg_header-append_user_msg_header stream m rest h_user_msg_len =
    decode_map-append {stream = stream} {field = decode_user_msg_header_field}
      {m = zero_user_msg_header} _ rest (omega arith)
      (Fills-int key_user_msg_len m.user_msg_len (λ x v. record x { user_msg_len = v }) refl
        (λ x. refl) h_user_msg_len)

abbrev pub IsPushNodeEntry : PushNodeEntry → Type 0
IsPushNodeEntry m =
    (IsShort m.name)
    × (Holds max_field_bytes m.addr)
    × (m.port < 2 ^ 16)
    × (Holds max_field_bytes m.meta)
    × (m.incarnation < 2 ^ 32)
    × (IsInt64 m.state)
    × (Holds max_field_bytes m.vsn)

pub decode_push_node_state-append_push_node_state :
    (stream : Bool) (m : PushNodeEntry) (rest : Bytes)
    → IsPushNodeEntry m
    → decode_push_node_state stream (append_push_node_state m ++ rest) ≡ ok m rest
unfolding append_push_node_state decode_push_node_state decode_push_node_state_field same
decode_push_node_state-append_push_node_state stream m rest
      (h_name, h_addr, h_port, h_meta, h_incarnation, h_state, h_vsn) =
    decode_map-append {stream = stream} {field = decode_push_node_state_field}
      {m = zero_push_node_state} _ rest (omega arith)
      (Fills-append
        (Fills-bytes max_field_bytes key_addr m.addr (λ x v. record x { addr = v }) refl (λ x. refl)
          h_addr)
        (Fills-append
          (Fills-u32 key_incarnation m.incarnation (λ x v. record x { incarnation = v }) refl
            (λ x. refl) h_incarnation)
          (Fills-append
            (Fills-bytes max_field_bytes key_meta m.meta (λ x v. record x { meta = v }) refl
              (λ x. refl) h_meta)
            (Fills-append
              (Fills-string key_name m.name (λ x v. record x { name = v }) refl (λ x. refl) h_name)
              (Fills-append
                (Fills-u16 key_port m.port (λ x v. record x { port = v }) refl (λ x. refl) h_port)
                (Fills-append
                  (Fills-int key_state m.state (λ x v. record x { state = v }) refl (λ x. refl)
                    h_state)
                  (Fills-bytes max_field_bytes key_vsn m.vsn (λ x v. record x { vsn = v }) refl
                    (λ x. refl) h_vsn)))))))

abbrev pub IsCompress : Compress → Type 0
IsCompress m = (m.algo < 2 ^ 8) × (Holds max_compressed_bytes m.buf)

pub decode_compress-append_compress :
    (stream : Bool) (m : Compress) (rest : Bytes)
    → IsCompress m
    → decode_compress stream (append_compress m ++ rest) ≡ ok m rest
unfolding append_compress decode_compress decode_compress_field same
decode_compress-append_compress stream m rest (h_algo, h_buf) =
    decode_map-append {stream = stream} {field = decode_compress_field} {m = zero_compress} _ rest
      (omega arith)
      (Fills-append
        (Fills-u8 key_algo m.algo (λ x v. record x { algo = v }) refl (λ x. refl) h_algo)
        (Fills-bytes max_compressed_bytes key_buf m.buf (λ x v. record x { buf = v }) refl
          (λ x. refl) h_buf))
