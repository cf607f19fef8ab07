-- ===== src/Packet/Refinement.antt =====
-- net.go: the packet side, seen as runs of the membership state machine.
mod Rounds
unfoldable pub use Rounds.*
use mori.Prelude.{ℕ, ◌+◌, ◌≤◌, ◌≡◌, refl, sym, ap₂, ◌∙◌, subst}
use mori.Prelude.{◌⊎◌, inl, inr, true, false, not, Option, none, some}
use mori.Prelude.{List, [], ◌∷◌, arith, ◌==◌}
use mori.Prelude.{on_if}
use mori.Prelude.{length}
use mori.Prelude.{Bytes}
use mori.Prelude.Int.{ℤ}
use mori.Packet.Types.{
  suspect_msg_type, alive_msg_type, dead_msg_type, user_msg, PacketConfig, Handoff, AckHandler,
  probe_handler, relay_handler, WaitingNack, PacketState,
}
use mori.Packet.Acks.{
  decode, encode_and_send_msg, put_handler, set_probe_channels, handler_timeout, find_nack,
  cancelled_or_sent, nack_timeout,
}
use mori.Packet.Receive.{port_or_default}
use mori.Packet.Handle.{
  next_of, with_next, get_next_message, alive_msg_of, ensure_can_connect, inner_allowed,
  with_members, accept_alive, handle_alive, handle_suspect, handle_dead, handle_user, handle_queued,
  handler_round,
}
use mori.Member.Types.{Config, Env, Memberlist}
use mori.Member.Run.{Step, recv_alive, recv_suspect, recv_dead, Reach, here, next}
use mori.Packet.Listening.{QueuesBounded, Listens}
use mori.Messages.Decode.{decode_suspect, decode_alive, decode_dead}
use mori.Packet.Listening.{ingest_packet-Listens}
use mori.Packet.Run.{
  PacketStep, arrive, wake, round, probe, ack_timeout, relay_timeout, elsewhere, PacketReach, start,
  then_step,
}

-- What the timers change is none of the queues', the packet handler's or the members'.
record KeepsQueues (s t : PacketState) : Type 0 where
  members_kept : t.members ≡ s.members
  high_kept : t.high_priority ≡ s.high_priority
  low_kept : t.low_priority ≡ s.low_priority
  pending_kept : t.handoff_pending ≡ s.handoff_pending
  draining_kept : t.draining ≡ s.draining

keeps_all : (s : PacketState) → KeepsQueues s s
keeps_all s = record {
  members_kept = refl;
  high_kept = refl;
  low_kept = refl;
  pending_kept = refl;
  draining_kept = refl;
}

nack_timeout-KeepsQueues : (relay : ℕ) (s : PacketState) → KeepsQueues s (nack_timeout relay s)
unfolding nack_timeout cancelled_or_sent encode_and_send_msg
nack_timeout-KeepsQueues relay s = at (find_nack relay s.waiting_nacks)
  where
    at : (o : Option WaitingNack) → KeepsQueues s (cancelled_or_sent relay s o)
    at none = keeps_all s
    at (some w) = record {
      members_kept = refl;
      high_kept = refl;
      low_kept = refl;
      pending_kept = refl;
      draining_kept = refl;
    }

handler_timeout-KeepsQueues :
    (n : ℕ) (h : AckHandler) (now : ℤ) (s : PacketState) → KeepsQueues s (handler_timeout n h now s)
unfolding handler_timeout
handler_timeout-KeepsQueues n (probe_handler p) now s = record {
  members_kept = refl;
  high_kept = refl;
  low_kept = refl;
  pending_kept = refl;
  draining_kept = refl;
}
handler_timeout-KeepsQueues n (relay_handler q a) now s = record {
  members_kept = refl;
  high_kept = refl;
  low_kept = refl;
  pending_kept = refl;
  draining_kept = refl;
}

set_probe_channels-KeepsQueues :
    (n p : ℕ) (s : PacketState) → KeepsQueues s (set_probe_channels n p s)
unfolding set_probe_channels put_handler
set_probe_channels-KeepsQueues n p s = record {
  members_kept = refl;
  high_kept = refl;
  low_kept = refl;
  pending_kept = refl;
  draining_kept = refl;
}

-- A message that waits is never forgotten: the packet handler is awake, or it has been notified.
abbrev pub Awake : PacketState → Type 0
Awake s = (waiting s ≡ 0) ⊎ ((s.handoff_pending ≡ true) ⊎ (s.draining ≡ true))

module _ (cfg : PacketConfig) where
  -- What holds between two moments of a run.
  record Advances (s t : PacketState) : Type 0 where
    reached : Reach cfg.members s.members t.members
    bounded : QueuesBounded cfg s → QueuesBounded cfg t
    awake : Awake s → Awake t

  Advances-KeepsQueues : (s t : PacketState) → KeepsQueues s t → Advances s t
  Advances-KeepsQueues s t k = record {
    reached = subst (Reach cfg.members s.members) (sym k.members_kept) here;
    bounded = λ (b, c). (rw k.high_kept b, rw k.low_kept c);
    awake = λ w. rw (k.high_kept, k.low_kept, k.pending_kept, k.draining_kept) w;
  }

  Advances-Listens : (s t : PacketState) → Listens cfg s t → Advances s t
  Advances-Listens s t l = record {
    reached = subst (Reach cfg.members s.members) (sym l.members_kept) here;
    bounded = l.bounded;
    awake = λ w. elim l.notified [
      | inl n ↦ inr (inl n)
      | inr (h, q, n) ↦ rw (h, q, n, l.draining_kept) w
    ];
  }

  round-Advances :
      (env : Env) (s : PacketState) → s.draining ≡ true → Advances s (handler_round cfg env s)
  round-Advances env s d = elim (handler_round-cases cfg env s) [
    | inl (none_left, e) ↦
        subst (Advances s) (sym e)
          (record { reached = here; bounded = λ b. b; awake = λ w. inl none_left })
    | inr t ↦ record {
      reached = t.stepped;
      bounded = λ (b, c). (omega (arith, b, t.high_shrinks), omega (arith, c, t.low_shrinks));
      awake = λ w. inr (inr (t.draining_kept ∙ d));
    }
  ]

  PacketStep-Advances : {s t : PacketState} → PacketStep cfg s t → Advances s t
  PacketStep-Advances (arrive at packet s) =
      Advances-Listens s _ (ingest_packet-Listens at packet s)
  PacketStep-Advances (wake s p d) = record {
    reached = here;
    bounded = λ b. b;
    awake = λ w. inr (inr refl);
  }
  PacketStep-Advances (round env s d) = round-Advances env s d
  PacketStep-Advances (probe n p s) =
      Advances-KeepsQueues s _ (set_probe_channels-KeepsQueues n p s)
  PacketStep-Advances (ack_timeout n h now s) =
      Advances-KeepsQueues s _ (handler_timeout-KeepsQueues n h now s)
  PacketStep-Advances (relay_timeout relay s) =
      Advances-KeepsQueues s _ (nack_timeout-KeepsQueues relay s)
  PacketStep-Advances (elsewhere s st) = record {
    reached = next here st;
    bounded = λ b. b;
    awake = λ w. w;
  }

  -- Whatever packets arrive, and however the rounds of the packet handler, the timers and the other
  -- goroutines interleave with them, the members change as in a run of the state machine.
  pub PacketReach-Reach :
      {s t : PacketState} → PacketReach cfg s t → Reach cfg.members s.members t.members
  PacketReach-Reach start = here
  PacketReach-Reach (then_step r st) =
      Reach-append (PacketReach-Reach r) (PacketStep-Advances st).reached

  -- In every run from a state where it holds, the queues stay within the configured depth, and a
  -- message that waits is not forgotten: the packet handler is in its loop, or a notification is
  -- pending.
  pub PacketReach-queues :
      {s t : PacketState}
      → QueuesBounded cfg s
      → Awake s
      → PacketReach cfg s t
      → QueuesBounded cfg t × Awake t
  PacketReach-queues b w start = (b, w)
  PacketReach-queues b w (then_step r st) =
      let (b', w') = PacketReach-queues b w r in
      let a = PacketStep-Advances st in (a.bounded b', a.awake w')
