-- ===== src/Packet/Listening/Leaves.antt =====
-- What a message that is no envelope may change.
use mori.Prelude.{ℕ, ◌≤◌, ◌≡◌, refl, ◌∙◌}
use mori.Prelude.{◌⊎◌, inl, inr, true, false, Option, none, some}
use mori.Prelude.{List, arith, ◌==◌}
use mori.Prelude.{on_if}
use mori.Prelude.{length}
use mori.Prelude.{Bytes}
use mori.Prelude.Int.{ℤ, pos_part}
use mori.Packet.Types.{
  alive_msg_type, PacketConfig, Arrival, Handoff, AckHandler, probe_handler, relay_handler,
  PacketState,
}
use mori.Packet.Acks.{
  decode, encode_and_send_msg, next_seq_no, find_handler, delete_handler, put_handler,
  set_ack_handler, run_ack_fn, invoke_ack_handler, run_nack_fn, invoke_nack_handler,
}
use mori.Packet.Receive.{
  not_for_us, answer_ping, handle_ping, relay_ping, handle_indirect_ping, handle_ack, handle_nack,
  queue_full, push_back, queue_message,
}
use mori.Messages.Decode.{decode_ping, decode_indirect_ping, decode_ack, decode_nack}

module _ (cfg : PacketConfig) where
  -- No queue is longer than the configured depth.
  abbrev pub QueuesBounded : PacketState → Type 0
  QueuesBounded s =
      (length s.high_priority ≤ pos_part cfg.handoff_queue_depth)
      × (length s.low_priority ≤ pos_part cfg.handoff_queue_depth)

  -- From s to t only what the listener owns has changed, and the packet handler is notified of
  -- whatever is new in the queues.
  pub record Listens (s t : PacketState) : Type 0 where
    pub members_kept : t.members ≡ s.members
    pub users_kept : t.user_msgs ≡ s.user_msgs
    pub draining_kept : t.draining ≡ s.draining
    pub bounded : QueuesBounded s → QueuesBounded t
    pub notified :
        (t.handoff_pending ≡ true)
        ⊎ ((t.high_priority ≡ s.high_priority)
            × (t.low_priority ≡ s.low_priority)
            × (t.handoff_pending ≡ s.handoff_pending))

push_back-length :
    (cfg : PacketConfig) (h : Handoff) (q : List Handoff)
    → length q ≤ pos_part cfg.handoff_queue_depth
    → length (push_back cfg h q) ≤ pos_part cfg.handoff_queue_depth
push_back-length cfg h q le =
    on_if (λ r. length r ≤ pos_part cfg.handoff_queue_depth) (queue_full cfg q) (λ _. le)
      (λ room. ground (arith, room))

module _ {cfg : PacketConfig} where
  pub Listens-refl : (s : PacketState) → Listens cfg s s
  Listens-refl s = record {
    members_kept = refl;
    users_kept = refl;
    draining_kept = refl;
    bounded = λ b. b;
    notified = inr (refl, refl, refl);
  }

  pub Listens-trans : {s t u : PacketState} → Listens cfg s t → Listens cfg t u → Listens cfg s u
  Listens-trans {s} {t} {u} p q = record {
    members_kept = q.members_kept ∙ p.members_kept;
    users_kept = q.users_kept ∙ p.users_kept;
    draining_kept = q.draining_kept ∙ p.draining_kept;
    bounded = λ b. q.bounded (p.bounded b);
    notified = elim q.notified [
      | inl n ↦ inl n
      | inr (h, l, n) ↦ elim p.notified [
        | inl m ↦ inl (n ∙ m)
        | inr (h', l', n') ↦ inr (h ∙ h', l ∙ l', n ∙ n')
      ]
    ];
  }

  -- The queues are as they were.
  Listens-quiet :
      (s t : PacketState)
      → t.members ≡ s.members
      → t.user_msgs ≡ s.user_msgs
      → t.draining ≡ s.draining
      → t.high_priority ≡ s.high_priority
      → t.low_priority ≡ s.low_priority
      → t.handoff_pending ≡ s.handoff_pending
      → Listens cfg s t
  Listens-quiet s t m u d h l n = record {
    members_kept = m;
    users_kept = u;
    draining_kept = d;
    bounded = λ (b, c). (rw h b, rw l c);
    notified = inr (h, l, n);
  }

  pub Listens-decoded :
      {A : Type 0} (s : PacketState) (o : Option A) {f : A → PacketState}
      → ((a : A) → Listens cfg s (f a))
      → Listens cfg s (elim o [ none ↦ s | some a ↦ f a ])
  Listens-decoded s none h = Listens-refl s
  Listens-decoded s (some a) h = h a

  pub handle_ping-Listens :
      (at : Arrival) (buf : Bytes) (s : PacketState) → Listens cfg s (handle_ping cfg at buf s)
  unfolding handle_ping answer_ping encode_and_send_msg
  handle_ping-Listens at buf s = Listens-decoded s (decode (decode_ping false) buf) (λ p.
      on_if (Listens cfg s) (not_for_us cfg p.node) (λ _. Listens-refl s)
        (λ _. Listens-quiet s _ refl refl refl refl refl refl))

  pub handle_indirect_ping-Listens :
      (at : Arrival) (buf : Bytes) (s : PacketState)
      → Listens cfg s (handle_indirect_ping cfg at buf s)
  unfolding handle_indirect_ping relay_ping encode_and_send_msg next_seq_no set_ack_handler
      put_handler
  handle_indirect_ping-Listens at buf s =
      Listens-decoded s (decode (decode_indirect_ping false) buf) (λ ind.
        on_if (Listens cfg s) ind.nack (λ _. Listens-quiet s _ refl refl refl refl refl refl)
          (λ _. Listens-quiet s _ refl refl refl refl refl refl))

  run_ack_fn-Listens :
      (n : ℕ) (h : AckHandler) (payload : Option Bytes) (timestamp : ℤ) (s : PacketState)
      → Listens cfg s (run_ack_fn n h payload timestamp s)
  unfolding run_ack_fn encode_and_send_msg
  run_ack_fn-Listens n (probe_handler probe) payload timestamp s =
      Listens-quiet s _ refl refl refl refl refl refl
  run_ack_fn-Listens n (relay_handler seq_no a) payload timestamp s =
      Listens-quiet s _ refl refl refl refl refl refl

  pub handle_ack-Listens :
      (at : Arrival) (buf : Bytes) (s : PacketState) → Listens cfg s (handle_ack at buf s)
  unfolding handle_ack invoke_ack_handler
  handle_ack-Listens at buf s = Listens-decoded s (decode (decode_ack false) buf) (λ ack.
      let deleted : PacketState = record s {
        ack_handlers = delete_handler ack.seq_no s.ack_handlers;
      } in
      Listens-trans (Listens-quiet s deleted refl refl refl refl refl refl) (
        Listens-decoded deleted (find_handler ack.seq_no s.ack_handlers)
          (λ h. run_ack_fn-Listens ack.seq_no h ack.payload at.timestamp deleted)))

  run_nack_fn-Listens : (h : AckHandler) (s : PacketState) → Listens cfg s (run_nack_fn h s)
  run_nack_fn-Listens (probe_handler probe) s = Listens-quiet s _ refl refl refl refl refl refl
  run_nack_fn-Listens (relay_handler seq_no a) s = Listens-refl s

  pub handle_nack-Listens : (buf : Bytes) (s : PacketState) → Listens cfg s (handle_nack buf s)
  unfolding handle_nack invoke_nack_handler
  handle_nack-Listens buf s = Listens-decoded s (decode (decode_nack false) buf) (λ nack.
      Listens-decoded s (find_handler nack.seq_no s.ack_handlers) (λ h. run_nack_fn-Listens h s))

  pub queue_message-Listens :
      (h : Handoff) (s : PacketState) → Listens cfg s (queue_message cfg h s)
  unfolding queue_message
  queue_message-Listens h s =
      on_if (Listens cfg s) (h.msg_type == alive_msg_type)
        (λ _. record {
          members_kept = refl;
          users_kept = refl;
          draining_kept = refl;
          bounded = λ (b, c). (push_back-length cfg h s.high_priority b, c);
          notified = inl refl;
        })
        (λ _. record {
          members_kept = refl;
          users_kept = refl;
          draining_kept = refl;
          bounded = λ (b, c). (b, push_back-length cfg h s.low_priority c);
          notified = inl refl;
        })
