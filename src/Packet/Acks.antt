-- ===== src/Packet/Acks.antt =====
-- net.go, state.go and util.go: sequence numbers, the handlers of acks and nacks, and the sending of an answer.
use mori.Prelude.{ℕ, ◌+◌, ◌%◌, ◌^◌}
use mori.Prelude.{true, false, Option, none, some}
use mori.Prelude.{List, [], ◌∷◌, ◌==◌, if◌then◌else◌}
use mori.Prelude.{Bytes}
use mori.Prelude.Int.{ℤ}
use mori.Packet.Types.{
  ack_resp_msg, nack_resp_msg, Address, AckHandler, probe_handler, relay_handler, ack_send,
  nack_send, WaitingNack, PacketState,
}
use mori.Messages.Encode.{append_msgpack}
use mori.Messages.Types.{AckResp, NackResp, WireMessage, ack_resp_m, nack_resp_m}
use mori.Msgpack.Reader.{Result, ok, err, Reader}

-- `encode`
unfoldable pub encode : ℕ → WireMessage → Bytes
unfolding append_msgpack
encode msg_type msg = msg_type ∷ append_msgpack msg

abbrev pub decoded_value : {M : Type 0} → Result M → Option M
decoded_value (ok m rest) = some m
decoded_value (err e) = none

-- `decode`, by the decoder of the message: what stands behind the message is ignored.
unfoldable pub decode : {M : Type 0} → Reader M → Bytes → Option M
decode dec buf = decoded_value (dec buf)

-- `encodeAndSendMsg`
unfoldable pub encode_and_send_msg : Address → ℕ → WireMessage → PacketState → PacketState
unfolding encode
encode_and_send_msg a msg_type msg s = record s {
  sent = record { to = a; msg = encode msg_type msg } ∷ s.sent;
}

unfoldable pub next_seq_no : PacketState → PacketState × ℕ
next_seq_no s = let n = (s.sequence_num + 1) % 2 ^ 32 in (record s { sequence_num = n }, n)

unfoldable pub find_handler : ℕ → List (ℕ × AckHandler) → Option AckHandler
find_handler n [] = none
find_handler n ((k, h) ∷ hs) = let rest = find_handler n hs in if n == k then some h else rest

unfoldable pub delete_handler : ℕ → List (ℕ × AckHandler) → List (ℕ × AckHandler)
delete_handler n [] = []
delete_handler n ((k, h) ∷ hs) =
    let rest = delete_handler n hs in if n == k then rest else (k, h) ∷ rest

unfoldable pub put_handler : ℕ → AckHandler → PacketState → PacketState
unfolding delete_handler
put_handler n h s = record s { ack_handlers = (n, h) ∷ delete_handler n s.ack_handlers }

unfoldable pub set_probe_channels : ℕ → ℕ → PacketState → PacketState
unfolding put_handler
set_probe_channels seq_no probe s = put_handler seq_no (probe_handler probe) s

unfoldable pub set_ack_handler : ℕ → ℕ → Address → PacketState → PacketState
unfolding put_handler
set_ack_handler local_seq_no seq_no a s = put_handler local_seq_no (relay_handler seq_no a) s

unfoldable pub without_nack : ℕ → List WaitingNack → List WaitingNack
without_nack relay [] = []
without_nack relay (w ∷ ws) =
    let rest = without_nack relay ws in if w.relay == relay then rest else w ∷ rest

-- `ackFn`: a relay closes `cancelCh`, which ends the goroutine of its nack, and forwards the ack.
unfoldable pub run_ack_fn : ℕ → AckHandler → Option Bytes → ℤ → PacketState → PacketState
unfolding encode_and_send_msg without_nack
run_ack_fn n (probe_handler probe) payload timestamp s = record s {
  channel_sends = ack_send probe true payload timestamp ∷ s.channel_sends;
}
run_ack_fn n (relay_handler seq_no a) payload timestamp s =
    encode_and_send_msg a ack_resp_msg (ack_resp_m (record { seq_no = seq_no; payload = none }))
      (record s { waiting_nacks = without_nack n s.waiting_nacks })

unfoldable pub invoke_ack_handler : AckResp → ℤ → PacketState → PacketState
unfolding find_handler delete_handler run_ack_fn
invoke_ack_handler ack timestamp s =
    let deleted = record s { ack_handlers = delete_handler ack.seq_no s.ack_handlers } in
    elim (find_handler ack.seq_no s.ack_handlers) [
      | none ↦ deleted
      | some h ↦ run_ack_fn ack.seq_no h ack.payload timestamp deleted
    ]

abbrev pub run_nack_fn : AckHandler → PacketState → PacketState
run_nack_fn (probe_handler probe) s = record s { channel_sends = nack_send probe ∷ s.channel_sends }
run_nack_fn (relay_handler seq_no a) s = s

unfoldable pub invoke_nack_handler : NackResp → PacketState → PacketState
unfolding find_handler
invoke_nack_handler nack s = elim (find_handler nack.seq_no s.ack_handlers) [
  | none ↦ s
  | some h ↦ run_nack_fn h s
]

abbrev pub give_up : AckHandler → ℤ → PacketState → PacketState
give_up (probe_handler probe) now s = record s {
  channel_sends = ack_send probe false none now ∷ s.channel_sends;
}
give_up (relay_handler seq_no a) now s = s

-- The timer of the handler h of a sequence number, when it fires.
unfoldable pub handler_timeout : ℕ → AckHandler → ℤ → PacketState → PacketState
unfolding delete_handler
handler_timeout n h now s =
    give_up h now (record s { ack_handlers = delete_handler n s.ack_handlers })

abbrev pub find_nack : ℕ → List WaitingNack → Option WaitingNack
find_nack relay [] = none
find_nack relay (w ∷ ws) =
    let rest = find_nack relay ws in if w.relay == relay then some w else rest

unfoldable pub cancelled_or_sent : ℕ → PacketState → Option WaitingNack → PacketState
unfolding encode_and_send_msg without_nack
cancelled_or_sent relay s none = s
cancelled_or_sent relay s (some w) =
    encode_and_send_msg w.to nack_resp_msg (nack_resp_m (record { seq_no = w.seq_no }))
      (record s { waiting_nacks = without_nack relay s.waiting_nacks })

-- The goroutine of a nack, when `ProbeTimeout` has passed, unless it was cancelled.
unfoldable pub nack_timeout : ℕ → PacketState → PacketState
unfolding cancelled_or_sent
nack_timeout relay s = cancelled_or_sent relay s (find_nack relay s.waiting_nacks)
