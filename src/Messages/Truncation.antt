-- ===== src/Messages/Truncation.antt =====
-- wire.go: messages that are cut short.
mod Stable
unfoldable pub use Stable.*
use mori.Prelude.{ℕ, zero, suc, ◌≡◌, refl, sym, ap, ◌∙◌, subst}
use mori.Prelude.{◌≢◌, inl, inr, Bool, Option, none, some}
use mori.Prelude.{[], ◌∷◌, ◌++◌, append-nil, if◌then◌else◌}
use mori.Prelude.{on_if}
use mori.Prelude.{Bytes}
use mori.Msgpack.Reader.{Result, ok, err, truncated, Reader}
use mori.Msgpack.Read.{min_int, max_int}
use mori.Msgpack.Stable.{
  Extends, IsStable, pure-IsStable, >>=-IsStable, read_map_header-IsStable, read_key-IsStable,
  read_uint-IsStable, read_int-IsStable, read_bool-IsStable, read_string-IsStable,
  read_bytes-IsStable, skip-IsStable,
}
use mori.Messages.Decode.{
  max_field_bytes, dec_u32, dec_u16, dec_u8, dec_int, dec_bool, dec_string, dec_bytes, into,
  FieldDecoder, entry_value, decode_entries, decode_map, zero_ping, decode_ping_field, decode_ping,
  zero_indirect_ping, decode_indirect_ping_field, decode_indirect_ping, zero_ack, decode_ack_field,
  decode_ack, zero_nack, decode_nack_field, decode_nack, zero_err_resp, decode_err_resp_field,
  decode_err_resp, zero_suspect, decode_suspect_field, decode_suspect, zero_alive,
  decode_alive_field, decode_alive, zero_dead, decode_dead_field, decode_dead,
  zero_push_pull_header, decode_push_pull_header_field, decode_push_pull_header,
  zero_user_msg_header, decode_user_msg_header_field, decode_user_msg_header, zero_push_node_state,
  decode_push_node_state_field, decode_push_node_state, zero_compress, decode_compress_field,
  decode_compress, decode_msgpack,
}
use mori.Messages.Encode.{append_msgpack}
use mori.Member.Types.{SuspectMsg, DeadMsg}
use mori.Messages.Types.{
  Ping, IndirectPingReq, AckResp, NackResp, ErrResp, Alive, PushPullHeader, UserMsgHeader,
  PushNodeEntry, Compress, WireMessage, ping_m, indirect_ping_m, ack_resp_m, nack_resp_m,
  err_resp_m, suspect_m, alive_m, dead_m, push_pull_header_m, user_msg_header_m, push_node_state_m,
  compress_m,
}
use mori.Messages.AnyRoundTrip.{IsEncodable, receiver_for, as_read, decode_msgpack-append_msgpack}

nothing_behind : (rest more : Bytes) → [] ≡ rest ++ more → more ≡ []
nothing_behind [] more e = sym e
nothing_behind (b ∷ rest) more e = absurd (cc e)

-- A decoder that reads a whole input and leaves nothing reports truncation on each proper part of it.
cut_short :
    {A : Type 0} {dec : Reader A} {a : A} (p more : Bytes)
    → IsStable dec
    → dec (p ++ more) ≡ ok a []
    → more ≢ []
    → dec p ≡ err truncated
cut_short {A} {dec} {a} p more stable whole ne =
    at (dec p) (dec (p ++ more)) (stable.extends p more) whole
  where
    at : (r x : Result A) → Extends more r x → x ≡ ok a [] → r ≡ err truncated
    at (ok b rest) x e w = absurd (ne (nothing_behind rest more (cc (e, w))))
    at (err g) x (inl e) w = ap err e
    at (err g) x (inr e) w = cc (e, w)

-- Each proper part of the encoding of a message, cut off anywhere, is refused by a receiver of its
-- type as truncated, with no other error and no message. The message must keep to the ranges of its
-- fields and to the limits of the decoder.
pub decode_msgpack-truncated :
    (stream : Bool) (r m : WireMessage) (p more : Bytes)
    → receiver_for r ≡ receiver_for m
    → IsEncodable m
    → p ++ more ≡ append_msgpack m
    → more ≢ []
    → decode_msgpack stream r p ≡ err truncated
decode_msgpack-truncated stream r m p more e h split ne =
    let whole : decode_msgpack stream r (append_msgpack m ++ []) ≡ ok (as_read m) [] =
      decode_msgpack-append_msgpack stream r m [] e h in
    cut_short p more (decode_msgpack-IsStable stream r)
      (ap (decode_msgpack stream r) (split ∙ sym (append-nil (append_msgpack m))) ∙ whole) ne
