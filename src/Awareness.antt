-- ===== src/Awareness.antt =====
-- awareness.go: the health score of the local node. The gauge that reports a change of the score is
-- telemetry and is left out; the lock makes each method one step.
pub mod Bounds
use mori.Prelude.{ℕ, suc, ◌+◌, if◌then◌else◌}
use mori.Prelude.Int.{ℤ, pos, ◌+ℤ◌, ◌-ℤ◌, ◌*ℤ◌, ltb_ℤ, to_int64}

pub record Awareness : Type 0 where
  pub max : ℤ
  pub score : ℤ

unfoldable pub new_awareness : ℤ → Awareness
new_awareness max = record { max = max; score = pos 0 }

unfoldable pub apply_delta : ℤ → Awareness → Awareness
apply_delta delta a =
    let score = to_int64 (a.score +ℤ delta) in
    let top = to_int64 (a.max -ℤ pos 1) in
    if ltb_ℤ score (pos 0)
    then record a { score = pos 0 }
    else if ltb_ℤ top score
    then record a { score = top }
    else record a { score = score }

unfoldable pub get_health_score : Awareness → ℤ
get_health_score a = a.score

unfoldable pub scale_timeout : ℤ → Awareness → ℤ
scale_timeout timeout a = to_int64 (timeout *ℤ to_int64 (a.score +ℤ pos 1))
