-- ===== src/Awareness/Bounds.antt =====
-- What holds of the health score of awareness.go.
use mori.Prelude.{◌-◌, ◌≡◌, arith}
use mori.Prelude.Int.{ℤ, pos, negsuc, ◌+ℤ◌, ◌-ℤ◌, ◌≤ℤ◌, to_int64, IsInt64}
use mori.Prelude.Int.{pos_part}
use mori.Awareness.{Awareness, new_awareness, apply_delta}

-- 0 <= score < max, with the maximum an `int`.
pub record InRange (a : Awareness) : Type 0 where
  pub max_fits : IsInt64 a.max
  pub score_nonneg : pos 0 ≤ℤ a.score
  pub score_below : a.score +ℤ pos 1 ≤ℤ a.max

pub new_awareness-InRange : (max : ℤ) → IsInt64 max → pos 1 ≤ℤ max → InRange (new_awareness max)
unfolding new_awareness ◌+ℤ◌
new_awareness-InRange max f h = ground arith

top_lem : (m : ℤ) → IsInt64 m → pos 1 ≤ℤ m → to_int64 (m -ℤ pos 1) ≡ pos (pos_part m - 1)
unfolding ◌-ℤ◌ to_int64
top_lem (pos n) f h = ground arith
top_lem (negsuc n) f h = absurd (omega arith)

-- A score that is in 0 <= score < max, for a max that is an int, stays there whatever the delta,
-- even if the sum wraps.
pub apply_delta-InRange : (delta : ℤ) (a : Awareness) → InRange a → InRange (apply_delta delta a)
unfolding apply_delta ◌+ℤ◌
apply_delta-InRange delta a h = ground (arith, top_lem a.max h.max_fits)
