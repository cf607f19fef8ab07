-- ===== src/Messages/AnyRoundTrip.antt =====
-- The codec of the interface `Message`: every kind of message at once.
use mori.Prelude.{◌≡◌, refl}
use mori.Prelude.{Bool}
use mori.Prelude.{◌++◌}
use mori.Prelude.{Bytes}
use mori.Msgpack.Reader.{ok, Reader, pure, >>=-ok}
use mori.Messages.Decode.{
  into, zero_ping, decode_ping, zero_indirect_ping, decode_indirect_ping, zero_ack, decode_ack,
  zero_nack, decode_nack, zero_err_resp, decode_err_resp, zero_suspect, decode_suspect, zero_alive,
  decode_alive, zero_dead, decode_dead, zero_push_pull_header, decode_push_pull_header,
  zero_user_msg_header, decode_user_msg_header, zero_push_node_state, decode_push_node_state,
  zero_compress, decode_compress, decode_msgpack,
}
use mori.Messages.Encode.{
  append_ping, append_indirect_ping, append_ack, append_nack, append_err_resp, append_suspect,
  append_alive, append_dead, append_push_pull_header, append_user_msg_header,
  append_push_node_state, append_compress, append_msgpack,
}
use mori.Messages.Types.{
  WireMessage, ping_m, indirect_ping_m, ack_resp_m, nack_resp_m, err_resp_m, suspect_m, alive_m,
  dead_m, push_pull_header_m, user_msg_header_m, push_node_state_m, compress_m,
}
use mori.Messages.RoundTrip.{
  IsAckResp, decode_ack-append_ack, IsNackResp, decode_nack-append_nack, IsErrResp,
  decode_err_resp-append_err_resp, IsSuspect, decode_suspect-append_suspect, IsAlive,
  decode_alive-append_alive, IsDead, decode_dead-append_dead, IsPushPullHeader,
  decode_push_pull_header-append_push_pull_header, IsUserMsgHeader,
  decode_user_msg_header-append_user_msg_header, IsPushNodeEntry,
  decode_push_node_state-append_push_node_state, IsCompress, decode_compress-append_compress,
}
use mori.Messages.SourceRoundTrip.{
  omit_empty, IsPing, decode_ping-append_ping, IsIndirectPingReq,
  decode_indirect_ping-append_indirect_ping,
}

-- The lengths and numbers of the message are in the ranges of its fields and under the decoder's limits.
abbrev pub IsEncodable : WireMessage → Type 0
IsEncodable (ping_m m) = IsPing m
IsEncodable (indirect_ping_m m) = IsIndirectPingReq m
IsEncodable (ack_resp_m m) = IsAckResp m
IsEncodable (nack_resp_m m) = IsNackResp m
IsEncodable (err_resp_m m) = IsErrResp m
IsEncodable (suspect_m m) = IsSuspect m
IsEncodable (alive_m m) = IsAlive m
IsEncodable (dead_m m) = IsDead m
IsEncodable (push_pull_header_m m) = IsPushPullHeader m
IsEncodable (user_msg_header_m m) = IsUserMsgHeader m
IsEncodable (push_node_state_m m) = IsPushNodeEntry m
IsEncodable (compress_m m) = IsCompress m

-- A receiver of the message's type.
abbrev pub receiver_for : WireMessage → WireMessage
receiver_for (ping_m m) = ping_m zero_ping
receiver_for (indirect_ping_m m) = indirect_ping_m zero_indirect_ping
receiver_for (ack_resp_m m) = ack_resp_m zero_ack
receiver_for (nack_resp_m m) = nack_resp_m zero_nack
receiver_for (err_resp_m m) = err_resp_m zero_err_resp
receiver_for (suspect_m m) = suspect_m zero_suspect
receiver_for (alive_m m) = alive_m zero_alive
receiver_for (dead_m m) = dead_m zero_dead
receiver_for (push_pull_header_m m) = push_pull_header_m zero_push_pull_header
receiver_for (user_msg_header_m m) = user_msg_header_m zero_user_msg_header
receiver_for (push_node_state_m m) = push_node_state_m zero_push_node_state
receiver_for (compress_m m) = compress_m zero_compress

-- The message as it is read: an empty source address is nil.
abbrev pub as_read : WireMessage → WireMessage
as_read (ping_m m) = ping_m (record m { source_addr = omit_empty m.source_addr })
as_read (indirect_ping_m m) = indirect_ping_m (record m { source_addr = omit_empty m.source_addr })
as_read (ack_resp_m m) = ack_resp_m m
as_read (nack_resp_m m) = nack_resp_m m
as_read (err_resp_m m) = err_resp_m m
as_read (suspect_m m) = suspect_m m
as_read (alive_m m) = alive_m m
as_read (dead_m m) = dead_m m
as_read (push_pull_header_m m) = push_pull_header_m m
as_read (user_msg_header_m m) = user_msg_header_m m
as_read (push_node_state_m m) = push_node_state_m m
as_read (compress_m m) = compress_m m

read_back :
    {A : Type 0} (dec : Reader A) (wrap : A → WireMessage) (buf : Bytes) {a : A} {rest : Bytes}
    → dec buf ≡ ok a rest
    → into dec wrap buf ≡ ok (wrap a) rest
read_back dec wrap buf e = >>=-ok dec (λ v. pure (wrap v)) buf e

codec :
    (stream : Bool) (m : WireMessage) (rest : Bytes)
    → IsEncodable m
    → decode_msgpack stream (receiver_for m) (append_msgpack m ++ rest) ≡ ok (as_read m) rest
unfolding decode_msgpack append_msgpack
codec stream (ping_m m) rest h =
    read_back (decode_ping stream) ping_m (append_ping m ++ rest)
      (decode_ping-append_ping stream m rest h)
codec stream (indirect_ping_m m) rest h =
    read_back (decode_indirect_ping stream) indirect_ping_m (append_indirect_ping m ++ rest)
      (decode_indirect_ping-append_indirect_ping stream m rest h)
codec stream (ack_resp_m m) rest h =
    read_back (decode_ack stream) ack_resp_m (append_ack m ++ rest)
      (decode_ack-append_ack stream m rest h)
codec stream (nack_resp_m m) rest h =
    read_back (decode_nack stream) nack_resp_m (append_nack m ++ rest)
      (decode_nack-append_nack stream m rest h)
codec stream (err_resp_m m) rest h =
    read_back (decode_err_resp stream) err_resp_m (append_err_resp m ++ rest)
      (decode_err_resp-append_err_resp stream m rest h)
codec stream (suspect_m m) rest h =
    read_back (decode_suspect stream) suspect_m (append_suspect m ++ rest)
      (decode_suspect-append_suspect stream m rest h)
codec stream (alive_m m) rest h =
    read_back (decode_alive stream) alive_m (append_alive m ++ rest)
      (decode_alive-append_alive stream m rest h)
codec stream (dead_m m) rest h =
    read_back (decode_dead stream) dead_m (append_dead m ++ rest)
      (decode_dead-append_dead stream m rest h)
codec stream (push_pull_header_m m) rest h =
    read_back (decode_push_pull_header stream) push_pull_header_m
      (append_push_pull_header m ++ rest)
      (decode_push_pull_header-append_push_pull_header stream m rest h)
codec stream (user_msg_header_m m) rest h =
    read_back (decode_user_msg_header stream) user_msg_header_m (append_user_msg_header m ++ rest)
      (decode_user_msg_header-append_user_msg_header stream m rest h)
codec stream (push_node_state_m m) rest h =
    read_back (decode_push_node_state stream) push_node_state_m (append_push_node_state m ++ rest)
      (decode_push_node_state-append_push_node_state stream m rest h)
codec stream (compress_m m) rest h =
    read_back (decode_compress stream) compress_m (append_compress m ++ rest)
      (decode_compress-append_compress stream m rest h)

-- The receiver is reset, so only its type matters.
decode_msgpack-receiver_for :
    (stream : Bool) (r : WireMessage)
    → decode_msgpack stream r ≡ decode_msgpack stream (receiver_for r)
unfolding decode_msgpack
decode_msgpack-receiver_for stream (ping_m m) = refl
decode_msgpack-receiver_for stream (indirect_ping_m m) = refl
decode_msgpack-receiver_for stream (ack_resp_m m) = refl
decode_msgpack-receiver_for stream (nack_resp_m m) = refl
decode_msgpack-receiver_for stream (err_resp_m m) = refl
decode_msgpack-receiver_for stream (suspect_m m) = refl
decode_msgpack-receiver_for stream (alive_m m) = refl
decode_msgpack-receiver_for stream (dead_m m) = refl
decode_msgpack-receiver_for stream (push_pull_header_m m) = refl
decode_msgpack-receiver_for stream (user_msg_header_m m) = refl
decode_msgpack-receiver_for stream (push_node_state_m m) = refl
decode_msgpack-receiver_for stream (compress_m m) = refl

-- Every message that is written is read again by a receiver of its type, in either mode of the
-- decoder, and what follows it is left; an empty source address comes back as nil. The message must
-- keep to the ranges of its fields and to the limits of the decoder.
pub decode_msgpack-append_msgpack :
    (stream : Bool) (r m : WireMessage) (rest : Bytes)
    → receiver_for r ≡ receiver_for m
    → IsEncodable m
    → decode_msgpack stream r (append_msgpack m ++ rest) ≡ ok (as_read m) rest
decode_msgpack-append_msgpack stream r m rest e h =
    rw (decode_msgpack-receiver_for stream r, e) (codec stream m rest h)
