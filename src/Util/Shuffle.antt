-- ===== src/Util/Shuffle.antt =====
-- `shuffleNodes` of util.go. `rand.Shuffle` is Fisher and Yates': from the last place down, each
-- place is swapped with a random one not after it. `rand i` is the draw for place `i`.
use mori.Prelude.{ℕ, zero, suc, ◌+◌, ◌-◌, ◌%◌, ◌≡◌, refl, ◌∙◌}
use mori.Prelude.{List}
use mori.Prelude.{length}
use mori.Prelude.Totals.{swap, total, total-swap, length-swap}

module _ {ℓ} {A : Type ℓ} where
  unfoldable pub shuffle_from : ℕ → (ℕ → ℕ) → List A → List A
  shuffle_from zero rand xs = xs
  shuffle_from (suc i) rand xs = shuffle_from i rand (swap (suc i) (rand (suc i) % (suc i + 1)) xs)

  unfoldable pub shuffle_nodes : (ℕ → ℕ) → List A → List A
  unfolding shuffle_from
  shuffle_nodes rand xs = shuffle_from (length xs - 1) rand xs

module _ {ℓ} {A : Type ℓ} (w : A → ℕ) where
  total-shuffle_from :
      (i : ℕ) (rand : ℕ → ℕ) (xs : List A) → total w (shuffle_from i rand xs) ≡ total w xs
  unfolding shuffle_from
  total-shuffle_from zero rand xs = refl
  total-shuffle_from (suc i) rand xs =
      total-shuffle_from i rand (swap (suc i) (rand (suc i) % (suc i + 1)) xs)
      ∙ total-swap w (suc i) (rand (suc i) % (suc i + 1)) xs

  -- A shuffle moves the items and keeps each as often as it was.
  pub total-shuffle_nodes :
      (rand : ℕ → ℕ) (xs : List A) → total w (shuffle_nodes rand xs) ≡ total w xs
  unfolding shuffle_nodes
  total-shuffle_nodes rand xs = total-shuffle_from (length xs - 1) rand xs

module _ {ℓ} {A : Type ℓ} where
  length-shuffle_from :
      (i : ℕ) (rand : ℕ → ℕ) (xs : List A) → length (shuffle_from i rand xs) ≡ length xs
  unfolding shuffle_from
  length-shuffle_from zero rand xs = refl
  length-shuffle_from (suc i) rand xs =
      length-shuffle_from i rand (swap (suc i) (rand (suc i) % (suc i + 1)) xs)
      ∙ length-swap (suc i) (rand (suc i) % (suc i + 1)) xs

  pub length-shuffle_nodes :
      (rand : ℕ → ℕ) (xs : List A) → length (shuffle_nodes rand xs) ≡ length xs
  unfolding shuffle_nodes
  length-shuffle_nodes rand xs = length-shuffle_from (length xs - 1) rand xs
