-- ===== src/Packet/Draining.antt =====
-- net.go: the end of the packet handler's inner loop.
use mori.Prelude.{ℕ, zero, suc, ◌+◌, ◌-◌, ◌<◌, ◌≡◌, refl, sym, ap, ◌∙◌}
use mori.Prelude.{Bool, true, false, not, Option, none, some}
use mori.Prelude.{List, [], ◌∷◌, ◌++◌, arith, ◌==◌, if◌then◌else◌}
use mori.Prelude.{length}
use mori.Prelude.{on_if}
use mori.Packet.Types.{
  suspect_msg_type, alive_msg_type, dead_msg_type, user_msg, PacketConfig, Handoff, PacketState,
}
use mori.Packet.Acks.{decode}
use mori.Packet.Handle.{
  ensure_can_connect, inner_allowed, accept_alive, handle_alive, handle_suspect, handle_dead,
  handle_user, handle_queued, get_next_message, with_next, handler_round, drain,
}
use mori.Messages.Decode.{decode_suspect, decode_alive, decode_dead}
use mori.Member.Types.{Env}
use mori.Packet.Run.{PacketReach, start, then_step, round}
use mori.Packet.Refinement.{waiting, handle_queued-Handles}

-- The state with other queues.
abbrev pub with_queues : List Handoff → List Handoff → PacketState → PacketState
with_queues high low s = record s { high_priority = high; low_priority = low }

-- What the loop is for: each message of a list is handled, in order. `env` has what each call meets.
unfoldable pub handle_in_turn :
    ℕ → PacketConfig → (ℕ → Env) → List Handoff → PacketState → PacketState
handle_in_turn n cfg env [] s = s
handle_in_turn n cfg env (h ∷ hs) s =
    handle_in_turn (n - 1) cfg env hs (handle_queued cfg (env (n - 1)) h s)

if_along :
    {A : Type 0} (f : A → A) (b : Bool) {x y x' y' : A}
    → x' ≡ f x
    → y' ≡ f y
    → (if b then x' else y') ≡ f (if b then x else y)
if_along f true e e' = e
if_along f false e e' = e'

decoded_along :
    {A S : Type 0} (f : S → S) (o : Option A) {s s' : S} {g g' : A → S}
    → s' ≡ f s
    → ((a : A) → g' a ≡ f (g a))
    → elim o as (λ _. S) [ none ↦ s' | some a ↦ g' a ]
      ≡ f (elim o as (λ _. S) [ none ↦ s | some a ↦ g a ])
decoded_along f none e e' = e
decoded_along f (some a) e e' = e' a

module _ (cfg : PacketConfig) where
  -- What is done with a message does not depend on those that wait.
  handle_queued-with_queues :
      (env : Env) (h : Handoff) (high low : List Handoff) (s : PacketState)
      → handle_queued cfg env h (with_queues high low s)
        ≡ with_queues high low (handle_queued cfg env h s)
  unfolding handle_queued handle_suspect handle_alive accept_alive handle_dead handle_user
  handle_queued-with_queues env h high low s =
      let f : PacketState → PacketState = with_queues high low in
      if_along f (h.msg_type == suspect_msg_type)
        (decoded_along f (decode (decode_suspect false) h.buf) refl (λ sus. refl))
        (if_along f (h.msg_type == alive_msg_type)
          (if_along f (not (ensure_can_connect cfg h.from)) refl (
            decoded_along f (decode (decode_alive false) h.buf) refl
              (λ live. if_along f (not (inner_allowed cfg live.addr)) refl refl)))
          (if_along f (h.msg_type == dead_msg_type)
            (decoded_along f (decode (decode_dead false) h.buf) refl (λ d. refl))
            (if_along f (h.msg_type == user_msg) (if_along f cfg.has_delegate refl refl) refl)))

  -- The end of the loop, from `s`: all messages that waited have been handled, those of high priority
  -- first, and the packet handler has gone back to sleep.
  pub record Drained (fuel : ℕ) (env : ℕ → Env) (s t : PacketState) : Type 0 where
    pub all_handled :
        t
        ≡ record (handle_in_turn fuel cfg env
            (s.high_priority ++ s.low_priority)
            (with_queues [] [] s)) { draining = false }
    pub nothing_waits : waiting t ≡ 0
    pub asleep : t.draining ≡ false
    pub run : PacketReach cfg s t

  drain-asleep :
      (fuel : ℕ) (env : ℕ → Env) (s : PacketState) → s.draining ≡ false → drain fuel cfg env s ≡ s
  unfolding drain
  drain-asleep zero env s d = refl
  drain-asleep (suc fuel) env s d = rw d refl

  handle_in_turn-queues :
      (n : ℕ) (env : ℕ → Env) (hs : List Handoff) (s : PacketState)
      → waiting (handle_in_turn n cfg env hs s) ≡ waiting s
  unfolding handle_in_turn
  handle_in_turn-queues n env [] s = refl
  handle_in_turn-queues n env (h ∷ hs) s =
      let k = handle_queued-Handles {cfg = cfg} (env (n - 1)) h s in
      handle_in_turn-queues (n - 1) env hs (handle_queued cfg (env (n - 1)) h s)
      ∙ rw (k.high_kept, k.low_kept) refl

  PacketReach-before :
      {s t u : PacketState} → PacketReach cfg s t → PacketReach cfg t u → PacketReach cfg s u
  PacketReach-before r start = r
  PacketReach-before r (then_step q st) = then_step (PacketReach-before r q) st

  drain-run :
      (fuel : ℕ) (env : ℕ → Env) (s : PacketState) → PacketReach cfg s (drain fuel cfg env s)
  unfolding drain
  drain-run zero env s = start
  drain-run (suc fuel) env s =
      let rest = drain-run fuel env (handler_round cfg (env fuel) s) in
      on_if (PacketReach cfg s) s.draining
        (λ d. PacketReach-before (then_step start (round (env fuel) s d)) rest) (λ _. start)

  -- One message is taken, and the rest is drained.
  drain_on :
      (fuel : ℕ) (env : ℕ → Env) (h : Handoff) (high low : List Handoff) (s : PacketState)
      → s.draining ≡ true
      → ((t : PacketState)
          → t.draining ≡ true
          → drain fuel cfg env (with_queues high low t)
            ≡ record (handle_in_turn fuel cfg env (high ++ low) (with_queues [] [] t)) {
              draining = false;
            })
      → drain fuel cfg env (handle_queued cfg (env fuel) h (with_queues high low s))
        ≡ record (handle_in_turn (suc fuel) cfg env (h ∷ (high ++ low)) (with_queues [] [] s)) {
          draining = false;
        }
  unfolding handle_in_turn
  drain_on fuel env h high low s d rest =
      ap (drain fuel cfg env) (handle_queued-with_queues (env fuel) h high low s)
      ∙ rest (handle_queued cfg (env fuel) h s)
          ((handle_queued-Handles {cfg = cfg} (env fuel) h s).draining_kept ∙ d)
      ∙ ap
          (λ (t : PacketState). record (handle_in_turn fuel cfg env (high ++ low) t) {
            draining = false;
          })
          (sym (handle_queued-with_queues (env fuel) h [] [] s))
      ∙ ap
          (λ n.
            record (handle_in_turn n cfg env (high ++ low)
              (handle_queued cfg (env n) h (with_queues [] [] s))) { draining = false })
          last
    where
      last : fuel ≡ suc fuel - 1
      last = omega arith

  drain-round :
      (fuel : ℕ) (env : ℕ → Env) (s : PacketState)
      → s.draining ≡ true
      → drain (suc fuel) cfg env s ≡ drain fuel cfg env (handler_round cfg (env fuel) s)
  unfolding drain
  drain-round fuel env s d =
      ap (λ b. if b then drain fuel cfg env (handler_round cfg (env fuel) s) else s) d

  drain-in_turn :
      (fuel : ℕ) (env : ℕ → Env) (high low : List Handoff) (s : PacketState)
      → s.draining ≡ true
      → length high + length low < fuel
      → drain fuel cfg env (with_queues high low s)
        ≡ record (handle_in_turn fuel cfg env (high ++ low) (with_queues [] [] s)) {
          draining = false;
        }
  unfolding handler_round get_next_message with_next
  drain-in_turn zero env high low s d h = absurd (omega (arith, h))
  drain-in_turn (suc fuel) env [] [] s d h =
      drain-round fuel env (with_queues [] [] s) d
      ∙ drain-asleep fuel env (record (with_queues [] [] s) { draining = false }) refl
      ∙ unfold handle_in_turn in refl
  drain-in_turn (suc fuel) env [] (m ∷ low) s d h =
      drain-round fuel env (with_queues [] (m ∷ low) s) d
      ∙ drain_on fuel env m [] low s d (λ t e. drain-in_turn fuel env [] low t e (omega (arith, h)))
  drain-in_turn (suc fuel) env (m ∷ high) low s d h =
      drain-round fuel env (with_queues (m ∷ high) low s) d
      ∙ drain_on fuel env m high low s d
          (λ t e. drain-in_turn fuel env high low t e (omega (arith, h)))

  -- Once the packet handler is awake, one round more than messages wait suffices: its loop is a
  -- run, which ends with the handler asleep, no message waiting, and the state that handling each
  -- waiting message in turn leads to, those of high priority first, each queue from its back.
  pub drain-Drained :
      (fuel : ℕ) (env : ℕ → Env) (s : PacketState)
      → s.draining ≡ true
      → waiting s < fuel
      → Drained fuel env s (drain fuel cfg env s)
  drain-Drained fuel env s d h =
      let e = drain-in_turn fuel env s.high_priority s.low_priority s d h in
      record {
        all_handled = e;
        nothing_waits =
            ap waiting e
            ∙ handle_in_turn-queues fuel env (s.high_priority ++ s.low_priority)
                (with_queues [] [] s);
        asleep = ap (λ (t : PacketState). t.draining) e;
        run = drain-run fuel env s;
      }
