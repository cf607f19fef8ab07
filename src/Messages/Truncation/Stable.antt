-- ===== src/Messages/Truncation/Stable.antt =====
-- wire.go: the decoders of messages on longer inputs.
use mori.Prelude.{ℕ, zero, suc, ◌≡◌, refl, subst}
use mori.Prelude.{Bool, Option, none, some}
use mori.Prelude.{if◌then◌else◌}
use mori.Prelude.{on_if}
use mori.Prelude.{Bytes}
use mori.Msgpack.Reader.{Reader}
use mori.Msgpack.Read.{min_int, max_int}
use mori.Msgpack.Stable.{
  IsStable, pure-IsStable, >>=-IsStable, read_map_header-IsStable, read_key-IsStable,
  read_uint-IsStable, read_int-IsStable, read_bool-IsStable, read_string-IsStable,
  read_bytes-IsStable, skip-IsStable,
}
use mori.Messages.Decode.{
  max_field_bytes, dec_u32, dec_u16, dec_u8, dec_int, dec_bool, dec_string, dec_bytes, into,
  FieldDecoder, entry_value, decode_entries, decode_map, zero_ping, decode_ping_field, decode_ping,
  zero_indirect_ping, decode_indirect_ping_field, decode_indirect_ping, zero_ack, decode_ack_field,
  decode_ack, zero_nack, decode_nack_field, decode_nack, zero_err_resp, decode_err_resp_field,
  decode_err_resp, zero_suspect, decode_suspect_field, decode_suspect, zero_alive,
  decode_alive_field, decode_alive, zero_dead, decode_dead_field, decode_dead,
  zero_push_pull_header, decode_push_pull_header_field, decode_push_pull_header,
  zero_user_msg_header, decode_user_msg_header_field, decode_user_msg_header, zero_push_node_state,
  decode_push_node_state_field, decode_push_node_state, zero_compress, decode_compress_field,
  decode_compress, decode_msgpack,
}
use mori.Member.Types.{SuspectMsg, DeadMsg}
use mori.Messages.Types.{
  Ping, IndirectPingReq, AckResp, NackResp, ErrResp, Alive, PushPullHeader, UserMsgHeader,
  PushNodeEntry, Compress, WireMessage, ping_m, indirect_ping_m, ack_resp_m, nack_resp_m,
  err_resp_m, suspect_m, alive_m, dead_m, push_pull_header_m, user_msg_header_m, push_node_state_m,
  compress_m,
}

-- A field's decoder, if there is one, is stable.
record AllStable {M : Type 0} (o : Option (Reader M)) : Type 0 where
  pub stable : (r : Reader M) → o ≡ some r → IsStable r

none-AllStable : {M : Type 0} → AllStable {M = M} none
none-AllStable = record { stable = λ r e. absurd (cc e) }

some-AllStable : {M : Type 0} {r : Reader M} → IsStable r → AllStable (some r)
some-AllStable {M} {r} p = record { stable = λ q e. subst IsStable (some-injective e) p }
  where
    some-injective : {q : Reader M} → some r ≡ some q → r ≡ q
    some-injective e = cc e

if-AllStable :
    {M : Type 0} (b : Bool) {o p : Option (Reader M)}
    → AllStable o
    → AllStable p
    → AllStable (if b then o else p)
if-AllStable b p q = on_if AllStable b (λ _. p) (λ _. q)

into-IsStable : {A M : Type 0} (store : A → M) {r : Reader A} → IsStable r → IsStable (into r store)
into-IsStable store p = >>=-IsStable p (λ v. pure-IsStable (store v))

module _ {M : Type 0} (stream : Bool) (field : FieldDecoder M)
    (h : (m : M) (k : Bytes) → AllStable (field m k)) where
  entry_value-IsStable :
      (m : M) (o : Option (Reader M)) → AllStable o → IsStable (entry_value stream m o)
  unfolding entry_value
  entry_value-IsStable m none s = >>=-IsStable (skip-IsStable stream) (λ _. pure-IsStable m)
  entry_value-IsStable m (some r) s = s.stable r refl

  decode_entries-IsStable : (n : ℕ) (m : M) → IsStable (decode_entries stream field n m)
  unfolding decode_entries
  decode_entries-IsStable zero m = pure-IsStable m
  decode_entries-IsStable (suc n) m = >>=-IsStable read_key-IsStable (λ k.
      >>=-IsStable (entry_value-IsStable m (field m k) (h m k))
        (λ m'. decode_entries-IsStable n m'))

  decode_map-IsStable : (m : M) → IsStable (decode_map stream field m)
  unfolding decode_map
  decode_map-IsStable m =
      >>=-IsStable (read_map_header-IsStable stream) (λ n. decode_entries-IsStable n m)

dec_u32-IsStable : IsStable dec_u32
unfolding dec_u32
dec_u32-IsStable = read_uint-IsStable 4294967295

dec_u16-IsStable : IsStable dec_u16
unfolding dec_u16
dec_u16-IsStable = read_uint-IsStable 65535

dec_u8-IsStable : IsStable dec_u8
unfolding dec_u8
dec_u8-IsStable = read_uint-IsStable 255

dec_int-IsStable : IsStable dec_int
unfolding dec_int
dec_int-IsStable = read_int-IsStable min_int max_int

dec_bool-IsStable : IsStable dec_bool
unfolding dec_bool
dec_bool-IsStable = read_bool-IsStable

dec_string-IsStable : IsStable dec_string
unfolding dec_string
dec_string-IsStable = read_string-IsStable max_field_bytes

dec_bytes-IsStable : (limit : ℕ) → IsStable (dec_bytes limit)
unfolding dec_bytes
dec_bytes-IsStable limit = read_bytes-IsStable limit

ruleset fields = (
  none-AllStable, some-AllStable, if-AllStable, into-IsStable, dec_u32-IsStable, dec_u16-IsStable,
  dec_u8-IsStable, dec_int-IsStable, dec_bool-IsStable, dec_string-IsStable, dec_bytes-IsStable,
)

ping_field-AllStable : (m : Ping) (k : Bytes) → AllStable (decode_ping_field m k)
unfolding decode_ping_field
ping_field-AllStable m k = search fields depth 16

indirect_ping_field-AllStable :
    (m : IndirectPingReq) (k : Bytes) → AllStable (decode_indirect_ping_field m k)
unfolding decode_indirect_ping_field
indirect_ping_field-AllStable m k = search fields depth 16

ack_field-AllStable : (m : AckResp) (k : Bytes) → AllStable (decode_ack_field m k)
unfolding decode_ack_field
ack_field-AllStable m k = search fields depth 16

nack_field-AllStable : (m : NackResp) (k : Bytes) → AllStable (decode_nack_field m k)
unfolding decode_nack_field
nack_field-AllStable m k = search fields depth 16

err_resp_field-AllStable : (m : ErrResp) (k : Bytes) → AllStable (decode_err_resp_field m k)
unfolding decode_err_resp_field
err_resp_field-AllStable m k = search fields depth 16

suspect_field-AllStable : (m : SuspectMsg) (k : Bytes) → AllStable (decode_suspect_field m k)
unfolding decode_suspect_field
suspect_field-AllStable m k = search fields depth 16

alive_field-AllStable : (m : Alive) (k : Bytes) → AllStable (decode_alive_field m k)
unfolding decode_alive_field
alive_field-AllStable m k = search fields depth 16

dead_field-AllStable : (m : DeadMsg) (k : Bytes) → AllStable (decode_dead_field m k)
unfolding decode_dead_field
dead_field-AllStable m k = search fields depth 16

push_pull_header_field-AllStable :
    (m : PushPullHeader) (k : Bytes) → AllStable (decode_push_pull_header_field m k)
unfolding decode_push_pull_header_field
push_pull_header_field-AllStable m k = search fields depth 16

user_msg_header_field-AllStable :
    (m : UserMsgHeader) (k : Bytes) → AllStable (decode_user_msg_header_field m k)
unfolding decode_user_msg_header_field
user_msg_header_field-AllStable m k = search fields depth 16

push_node_state_field-AllStable :
    (m : PushNodeEntry) (k : Bytes) → AllStable (decode_push_node_state_field m k)
unfolding decode_push_node_state_field
push_node_state_field-AllStable m k = search fields depth 16

compress_field-AllStable : (m : Compress) (k : Bytes) → AllStable (decode_compress_field m k)
unfolding decode_compress_field
compress_field-AllStable m k = search fields depth 16

pub decode_msgpack-IsStable : (stream : Bool) (r : WireMessage) → IsStable (decode_msgpack stream r)
unfolding decode_msgpack decode_ping decode_indirect_ping decode_ack decode_nack decode_err_resp
    decode_suspect decode_alive decode_dead decode_push_pull_header decode_user_msg_header
    decode_push_node_state decode_compress
decode_msgpack-IsStable stream (ping_m m) =
    into-IsStable ping_m
      (decode_map-IsStable stream decode_ping_field ping_field-AllStable zero_ping)
decode_msgpack-IsStable stream (indirect_ping_m m) = into-IsStable indirect_ping_m (
    decode_map-IsStable stream decode_indirect_ping_field indirect_ping_field-AllStable
      zero_indirect_ping)
decode_msgpack-IsStable stream (ack_resp_m m) =
    into-IsStable ack_resp_m
      (decode_map-IsStable stream decode_ack_field ack_field-AllStable zero_ack)
decode_msgpack-IsStable stream (nack_resp_m m) =
    into-IsStable nack_resp_m
      (decode_map-IsStable stream decode_nack_field nack_field-AllStable zero_nack)
decode_msgpack-IsStable stream (err_resp_m m) =
    into-IsStable err_resp_m
      (decode_map-IsStable stream decode_err_resp_field err_resp_field-AllStable zero_err_resp)
decode_msgpack-IsStable stream (suspect_m m) =
    into-IsStable suspect_m
      (decode_map-IsStable stream decode_suspect_field suspect_field-AllStable zero_suspect)
decode_msgpack-IsStable stream (alive_m m) =
    into-IsStable alive_m
      (decode_map-IsStable stream decode_alive_field alive_field-AllStable zero_alive)
decode_msgpack-IsStable stream (dead_m m) =
    into-IsStable dead_m
      (decode_map-IsStable stream decode_dead_field dead_field-AllStable zero_dead)
decode_msgpack-IsStable stream (push_pull_header_m m) = into-IsStable push_pull_header_m (
    decode_map-IsStable stream decode_push_pull_header_field push_pull_header_field-AllStable
      zero_push_pull_header)
decode_msgpack-IsStable stream (user_msg_header_m m) = into-IsStable user_msg_header_m (
    decode_map-IsStable stream decode_user_msg_header_field user_msg_header_field-AllStable
      zero_user_msg_header)
decode_msgpack-IsStable stream (push_node_state_m m) = into-IsStable push_node_state_m (
    decode_map-IsStable stream decode_push_node_state_field push_node_state_field-AllStable
      zero_push_node_state)
decode_msgpack-IsStable stream (compress_m m) =
    into-IsStable compress_m
      (decode_map-IsStable stream decode_compress_field compress_field-AllStable zero_compress)
