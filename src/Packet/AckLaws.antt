-- ===== src/Packet/AckLaws.antt =====
-- state.go: the handlers of acks and nacks, run after one another.
use mori.Prelude.{ℕ, ◌≡◌, refl, sym, ap, ◌∙◌, subst}
use mori.Prelude.{Option, none, some}
use mori.Prelude.{List, [], ◌∷◌, ◌==◌}
use mori.Prelude.{on_if}
use mori.Prelude.Int.{ℤ}
use mori.Packet.Types.{Address, AckHandler, probe_handler, relay_handler, WaitingNack, PacketState}
use mori.Packet.Acks.{
  encode_and_send_msg, find_handler, delete_handler, run_ack_fn, invoke_ack_handler, find_nack,
  cancelled_or_sent, nack_timeout,
}
use mori.Messages.Types.{AckResp}
use mori.Packet.Acks.{without_nack}

find-delete_handler :
    (n : ℕ) (hs : List (ℕ × AckHandler)) → find_handler n (delete_handler n hs) ≡ none
unfolding find_handler delete_handler
find-delete_handler n [] = refl
find-delete_handler n ((k, h) ∷ hs) =
    on_if (λ r. find_handler n r ≡ none) (n == k) (λ _. find-delete_handler n hs)
      (λ e. rw e (find-delete_handler n hs))

delete-delete_handler :
    (n : ℕ) (hs : List (ℕ × AckHandler))
    → delete_handler n (delete_handler n hs) ≡ delete_handler n hs
unfolding delete_handler
delete-delete_handler n [] = refl
delete-delete_handler n ((k, h) ∷ hs) =
    on_if (λ r. delete_handler n r ≡ r) (n == k) (λ _. delete-delete_handler n hs)
      (λ e. rw e (ap (λ r. (k, h) ∷ r) (delete-delete_handler n hs)))

find-without_nack : (n : ℕ) (ws : List WaitingNack) → find_nack n (without_nack n ws) ≡ none
unfolding without_nack
find-without_nack n [] = refl
find-without_nack n (w ∷ ws) =
    on_if (λ r. find_nack n r ≡ none) (w.relay == n) (λ _. find-without_nack n ws)
      (λ e. rw e (find-without_nack n ws))

abbrev answered : AckResp → ℤ → PacketState → Option AckHandler → PacketState
answered ack timestamp s o = elim o as (λ _. PacketState) [
  | none ↦ s
  | some h ↦ run_ack_fn ack.seq_no h ack.payload timestamp s
]

answered-handlers :
    (ack : AckResp) (timestamp : ℤ) (s : PacketState) (o : Option AckHandler)
    → (answered ack timestamp s o).ack_handlers ≡ s.ack_handlers
unfolding run_ack_fn encode_and_send_msg
answered-handlers ack timestamp s none = refl
answered-handlers ack timestamp s (some (probe_handler p)) = refl
answered-handlers ack timestamp s (some (relay_handler n a)) = refl

-- A second ack with the sequence number of an ack that has come does nothing, whatever it carries:
-- no handler is run twice.
pub invoke_ack_handler_once :
    (ack again : AckResp) (t t' : ℤ) (s : PacketState)
    → again.seq_no ≡ ack.seq_no
    → invoke_ack_handler again t' (invoke_ack_handler ack t s) ≡ invoke_ack_handler ack t s
unfolding invoke_ack_handler
invoke_ack_handler_once ack again t t' s same_no =
    let n : ℕ = ack.seq_no in
    let deleted : PacketState = record s { ack_handlers = delete_handler n s.ack_handlers } in
    let s1 : PacketState = answered ack t deleted (find_handler n s.ack_handlers) in
    let hs : s1.ack_handlers ≡ delete_handler n s.ack_handlers =
      answered-handlers ack t deleted (find_handler n s.ack_handlers) in
    let gone : find_handler n s1.ack_handlers ≡ none =
      rw hs (find-delete_handler n s.ack_handlers) in
    let kept : delete_handler n s1.ack_handlers ≡ s1.ack_handlers =
      rw hs (delete-delete_handler n s.ack_handlers) in
    ap
      (λ k.
        answered again t' (record s1 { ack_handlers = delete_handler k s1.ack_handlers })
          (find_handler k s1.ack_handlers))
      same_no
    ∙ ap (answered again t' (record s1 { ack_handlers = delete_handler n s1.ack_handlers })) gone
    ∙ ap (λ r. record s1 { ack_handlers = r }) kept

-- Once the ack of a relayed ping has been forwarded, the timer of its nack does nothing.
pub nack_timeout-invoke_ack_handler :
    (ack : AckResp) (t : ℤ) (seq_no : ℕ) (a : Address) (s : PacketState)
    → find_handler ack.seq_no s.ack_handlers ≡ some (relay_handler seq_no a)
    → nack_timeout ack.seq_no (invoke_ack_handler ack t s) ≡ invoke_ack_handler ack t s
unfolding invoke_ack_handler run_ack_fn nack_timeout cancelled_or_sent encode_and_send_msg
nack_timeout-invoke_ack_handler ack t seq_no a s relayed =
    let deleted : PacketState = record s {
      ack_handlers = delete_handler ack.seq_no s.ack_handlers;
    } in
    subst (λ o. nack_timeout ack.seq_no (answered ack t deleted o) ≡ answered ack t deleted o)
      (sym relayed)
      (ap (cancelled_or_sent ack.seq_no (answered ack t deleted (some (relay_handler seq_no a))))
        (find-without_nack ack.seq_no s.waiting_nacks))
