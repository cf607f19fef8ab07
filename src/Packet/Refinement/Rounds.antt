-- ===== src/Packet/Refinement/Rounds.antt =====
-- What one round of the packet handler does.
use mori.Prelude.{ℕ, ◌+◌, ◌≤◌, ◌≡◌, refl, sym, ap₂, ◌∙◌, subst}
use mori.Prelude.{◌⊎◌, inl, inr, false, not, Option, none, some}
use mori.Prelude.{List, [], ◌∷◌, arith, ◌==◌}
use mori.Prelude.{on_if}
use mori.Prelude.{length}
use mori.Prelude.{Bytes}
use mori.Packet.Types.{
  suspect_msg_type, alive_msg_type, dead_msg_type, user_msg, PacketConfig, Handoff, PacketState,
}
use mori.Packet.Acks.{decode}
use mori.Packet.Receive.{port_or_default}
use mori.Packet.Handle.{
  next_of, with_next, get_next_message, alive_msg_of, ensure_can_connect, inner_allowed,
  with_members, accept_alive, handle_alive, handle_suspect, handle_dead, handle_user, handle_queued,
  handler_round,
}
use mori.Member.Types.{Config, Env, Memberlist}
use mori.Member.Run.{Step, recv_alive, recv_suspect, recv_dead, Reach, here, next}
use mori.Messages.Decode.{decode_suspect, decode_alive, decode_dead}

-- From s to t the packet handler has given one message to the state machine, or none.
pub record Handles (cfg : PacketConfig) (s t : PacketState) : Type 0 where
  pub high_kept : t.high_priority ≡ s.high_priority
  pub low_kept : t.low_priority ≡ s.low_priority
  pub pending_kept : t.handoff_pending ≡ s.handoff_pending
  pub draining_kept : t.draining ≡ s.draining
  pub stepped : Reach cfg.members s.members t.members

module _ {cfg : PacketConfig} where
  Handles-refl : (s : PacketState) → Handles cfg s s
  Handles-refl s = record {
    high_kept = refl;
    low_kept = refl;
    pending_kept = refl;
    draining_kept = refl;
    stepped = here;
  }

  Handles-step :
      (s : PacketState) {m : Memberlist}
      → Step cfg.members s.members m
      → Handles cfg s (with_members s m)
  Handles-step s st = record {
    high_kept = refl;
    low_kept = refl;
    pending_kept = refl;
    draining_kept = refl;
    stepped = next here st;
  }

  Handles-decoded :
      {A : Type 0} (s : PacketState) (o : Option A) {f : A → PacketState}
      → ((a : A) → Handles cfg s (f a))
      → Handles cfg s (elim o [ none ↦ s | some a ↦ f a ])
  Handles-decoded s none h = Handles-refl s
  Handles-decoded s (some a) h = h a

  handle_alive-Handles :
      (env : Env) (buf from : Bytes) (s : PacketState)
      → Handles cfg s (handle_alive cfg env buf from s)
  unfolding handle_alive accept_alive
  handle_alive-Handles env buf from s =
      on_if (Handles cfg s) (not (ensure_can_connect cfg from)) (λ _. Handles-refl s)
        (λ _. Handles-decoded s (decode (decode_alive false) buf) (λ live.
          on_if (Handles cfg s) (not (inner_allowed cfg live.addr)) (λ _. Handles-refl s)
            (λ _. Handles-step s (
              recv_alive env (alive_msg_of (record live { port = port_or_default cfg live.port }))
                s.members))))

  pub handle_queued-Handles :
      (env : Env) (h : Handoff) (s : PacketState) → Handles cfg s (handle_queued cfg env h s)
  unfolding handle_queued handle_suspect handle_dead handle_user
  handle_queued-Handles env h s =
      on_if (Handles cfg s) (h.msg_type == suspect_msg_type)
        (λ _.
          Handles-decoded s (decode (decode_suspect false) h.buf)
            (λ sus. Handles-step s (recv_suspect env sus s.members)))
        (λ _.
          on_if (Handles cfg s) (h.msg_type == alive_msg_type)
            (λ _. handle_alive-Handles env h.buf h.from s)
            (λ _.
              on_if (Handles cfg s) (h.msg_type == dead_msg_type)
                (λ _.
                  Handles-decoded s (decode (decode_dead false) h.buf)
                    (λ d. Handles-step s (recv_dead env d s.members)))
                (λ _.
                  on_if (Handles cfg s) (h.msg_type == user_msg)
                    (λ _.
                      on_if (Handles cfg s) cfg.has_delegate
                        (λ _. record {
                          high_kept = refl;
                          low_kept = refl;
                          pending_kept = refl;
                          draining_kept = refl;
                          stepped = here;
                        })
                        (λ _. Handles-refl s))
                    (λ _. Handles-refl s))))

pub Reach-append :
    {c : Config} {m m' m'' : Memberlist} → Reach c m m' → Reach c m' m'' → Reach c m m''
Reach-append r here = r
Reach-append r (next q st) = next (Reach-append r q) st

-- The messages that wait in both queues.
abbrev pub waiting : PacketState → ℕ
waiting s = length s.high_priority + length s.low_priority

-- A round that took a message off its queue, and gave it to the state machine.
pub record Takes (cfg : PacketConfig) (s t : PacketState) : Type 0 where
  pub one_less : waiting s ≡ waiting t + 1
  pub high_shrinks : length t.high_priority ≤ length s.high_priority
  pub low_shrinks : length t.low_priority ≤ length s.low_priority
  pub pending_kept : t.handoff_pending ≡ s.handoff_pending
  pub draining_kept : t.draining ≡ s.draining
  pub stepped : Reach cfg.members s.members t.members

Takes-handled :
    {cfg : PacketConfig} {s taken t : PacketState}
    → Handles cfg taken t
    → Takes cfg s taken
    → Takes cfg s t
Takes-handled h p = record {
  one_less = rw (h.high_kept, h.low_kept) p.one_less;
  high_shrinks = rw h.high_kept p.high_shrinks;
  low_shrinks = rw h.low_kept p.low_shrinks;
  pending_kept = h.pending_kept ∙ p.pending_kept;
  draining_kept = h.draining_kept ∙ p.draining_kept;
  stepped = Reach-append p.stepped h.stepped;
}

-- A round finds the queues empty and ends the loop, or it takes a message.
pub handler_round-cases :
    (cfg : PacketConfig) (env : Env) (s : PacketState)
    → ((waiting s ≡ 0) × (handler_round cfg env s ≡ record s { draining = false }))
      ⊎ Takes cfg s (handler_round cfg env s)
unfolding handler_round get_next_message with_next
handler_round-cases cfg env s = at s.high_priority s.low_priority refl refl
  where
    at :
        (hs ls : List Handoff)
        → s.high_priority ≡ hs
        → s.low_priority ≡ ls
        → ((waiting s ≡ 0) × (handler_round cfg env s ≡ record s { draining = false }))
          ⊎ Takes cfg s (handler_round cfg env s)
    at [] [] e f = inl (rw (e, f) refl, ap₂ (λ h l. with_next cfg env s (next_of h l s)) e f)
    at [] (h ∷ ls) e f =
        let taken : PacketState = record s { low_priority = ls } in
        let took : Takes cfg s taken = record {
          one_less = rw (e, f) (omega arith);
          high_shrinks = omega arith;
          low_shrinks = rw f (omega arith);
          pending_kept = refl;
          draining_kept = refl;
          stepped = here;
        } in
        let round : handler_round cfg env s ≡ handle_queued cfg env h taken =
          ap₂ (λ h l. with_next cfg env s (next_of h l s)) e f in
        inr
          (subst (Takes cfg s) (sym round) (Takes-handled (handle_queued-Handles env h taken) took))
    at (h ∷ hs) ls e f =
        let taken : PacketState = record s { high_priority = hs } in
        let took : Takes cfg s taken = record {
          one_less = rw (e, f) (omega arith);
          high_shrinks = rw e (omega arith);
          low_shrinks = omega arith;
          pending_kept = refl;
          draining_kept = refl;
          stepped = here;
        } in
        let round : handler_round cfg env s ≡ handle_queued cfg env h taken =
          ap₂ (λ h l. with_next cfg env s (next_of h l s)) e f in
        inr
          (subst (Takes cfg s) (sym round) (Takes-handled (handle_queued-Handles env h taken) took))
