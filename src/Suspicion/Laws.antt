-- ===== src/Suspicion/Laws.antt =====
-- What holds of a suspicion under any sequence of confirmations.
use mori.Prelude.{ℕ, ◌+◌, ◌≡◌}
use mori.Prelude.{◌⊎◌, Bool, true, false}
use mori.Prelude.{List, [], ◌∷◌, arith}
use mori.Prelude.{length}
use mori.Prelude.{Bytes, same_refl}
use mori.Prelude.Int.{ℤ, pos, ◌≤ℤ◌}
use mori.Suspicion.{Suspicion, leave_timer, has_confirmed, new_suspicion, confirm}

abbrev pub Distinct : List Bytes → Type 0
Distinct [] = Unit
Distinct (f ∷ fs) = (has_confirmed f fs ≡ false) × Distinct fs

-- The accuser and one name for each counted confirmation, none twice, and never more than `k`.
pub record IsCounted (s : Suspicion) : Type 0 where
  pub counted : length s.confirmations ≡ s.n + 1
  pub capped : (s.n ≡ 0) ⊎ (pos s.n ≤ℤ s.k)
  pub distinct : Distinct s.confirmations

pub new_suspicion-IsCounted :
    (from : Bytes) (k lo hi now : ℤ) → IsCounted (new_suspicion from k lo hi now).0
unfolding new_suspicion has_confirmed
new_suspicion-IsCounted from k lo hi now = ground arith

module _ (raw_timeout : ℕ → ℤ → ℤ → ℤ → ℤ) where
  -- On a suspicion that counts so, every call of Confirm, accepted or not, keeps the count of
  -- distinct confirmations exact and at most k.
  pub confirm-IsCounted :
      (now : ℤ) (stopped : Bool) (from : Bytes) (s : Suspicion)
      → IsCounted s
      → IsCounted (confirm raw_timeout now stopped from s).0
  unfolding confirm
  confirm-IsCounted now stopped from s h = ground arith

  -- Confirm answers true exactly when fewer than k confirmations are in and from is new, and then
  -- counts one more; on false nothing changes.
  pub confirm_exact :
      (now : ℤ) (stopped : Bool) (from : Bytes) (s : Suspicion)
      → let (s', ok, effect) = confirm raw_timeout now stopped from s in
        ((ok ≡ true)
          × (pos (s.n + 1) ≤ℤ s.k)
          × (has_confirmed from s.confirmations ≡ false)
          × (s'.n ≡ s.n + 1)
          × (has_confirmed from s'.confirmations ≡ true))
        ⊎ ((ok ≡ false)
            × ((s.k ≤ℤ pos s.n) ⊎ (has_confirmed from s.confirmations ≡ true))
            × (s' ≡ s)
            × (effect ≡ leave_timer))
  unfolding confirm has_confirmed
  confirm_exact now stopped from s = ground (arith, same_refl from)
