-- ===== src/Suspicion.antt =====
-- suspicion.go: the timer of a suspected node, which confirmations by other nodes shorten.
-- The logarithms that shape the timeout are floating point: `raw_timeout` stands for the lines that
-- compute `frac`, `raw` and `timeout` from n, k, min and max, before the floor at min. `time.Timer`
-- belongs to the runtime: whether `Stop` found it running is an input, and what the code does to it
-- is a value of `TimerEffect`.
pub mod Laws
use mori.Prelude.{
  ℕ, zero, suc, ◌+◌, ◌-◌, ◌*◌, ◌/◌, ◌%◌, ◌^◌, ◌≤◌, ◌<◌, min, max, ◌≡◌, refl, sym, ap, ap₂, ◌∙◌,
  subst,
}
use mori.Prelude.{◌≢◌, ◌↔◌, ◌⊎◌, inl, inr, Bool, true, false, not, ◌&&◌, ◌||◌, Option, none, some}
use mori.Prelude.{
  List, [], ◌∷◌, ◌++◌, map, append-nil, append_assoc, arith, ltb, leb, ◌==◌, if◌then◌else◌,
}
use mori.Prelude.{ltb→lt, lt→ltb, leb→le, ==_iff, tests, Bool-cases, Option-cases, Bool-contra}
use mori.Prelude.{
  length, get_elem?, set, take, drop, replicate, length-append, length-set, take-append-drop,
  length-take,
}
use mori.Prelude.{
  length-drop, take-append, drop-append, All, All-append, All-append_left, All-append_right,
  All-imp,
}
use mori.Prelude.{Bytes, IsByte, same, same_refl, same→eq, same_iff, same-cases, same_comm}
use mori.Prelude.Int.{
  ℤ, pos, negsuc, pos_part, neg_part, sub_ℕ, ◌+ℤ◌, ◌-ℤ◌, ◌*ℤ◌, ◌≤ℤ◌, ltb_ℤ, +ℤ_parts, to_int64,
  to_int32, quot_ℤ, since, IsInt64, to_int64_self, to_int64-IsInt64,
}

pub record Suspicion : Type 0 where
  pub n : ℕ  -- atomic.Int32
  pub k : ℤ  -- int32
  pub min_timeout : ℤ
  pub max_timeout : ℤ
  pub start : ℤ
  pub confirmations : List Bytes

-- What a call does to the timer: nothing, `Reset(d)`, or `go s.timeoutFn()` after a clean stop.
pub data TimerEffect : Type 0 where
  leave_timer : TimerEffect
  reset_timer : ℤ → TimerEffect
  fire_now : TimerEffect

-- The key test of `confirmations`, a `map[string]struct{}`.
unfoldable pub has_confirmed : Bytes → List Bytes → Bool
has_confirmed from [] = false
has_confirmed from (f ∷ fs) = same f from || has_confirmed from fs

-- The new suspicion and the duration its timer is started with.
unfoldable pub new_suspicion : Bytes → ℤ → ℤ → ℤ → ℤ → Suspicion × ℤ
new_suspicion from k min_timeout max_timeout now = (
  record {
    n = 0;
    k = to_int32 k;
    min_timeout = min_timeout;
    max_timeout = max_timeout;
    start = now;
    confirmations = from ∷ [];
  },
  if ltb_ℤ k (pos 1) then min_timeout else max_timeout,
)

module _ (raw_timeout : ℕ → ℤ → ℤ → ℤ → ℤ) where
  unfoldable pub remaining_suspicion_time : ℕ → ℤ → ℤ → ℤ → ℤ → ℤ
  remaining_suspicion_time n k elapsed min_timeout max_timeout =
      let raw = raw_timeout n k min_timeout max_timeout in
      let timeout = if ltb_ℤ raw min_timeout then min_timeout else raw in
      to_int64 (timeout -ℤ elapsed)

  -- `stopped` is what `timer.Stop()` answers.
  unfoldable pub confirm : ℤ → Bool → Bytes → Suspicion → Suspicion × Bool × TimerEffect
  unfolding remaining_suspicion_time
  confirm now stopped from s =
      if not (ltb_ℤ (pos s.n) s.k)
      then (s, false, leave_timer)
      else if has_confirmed from s.confirmations
      then (s, false, leave_timer)
      else let n = s.n + 1 in
        let elapsed = since s.start now in
        let remaining = remaining_suspicion_time n s.k elapsed s.min_timeout s.max_timeout in
        (
          record s { n = n; confirmations = from ∷ s.confirmations },
          true,
          if stopped
              then (if ltb_ℤ (pos 0) remaining then reset_timer remaining else fire_now)
              else leave_timer,
        )
