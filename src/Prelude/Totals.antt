-- ===== src/Prelude/Totals.antt =====
-- Sums of a weight over a list: two lists with the same sum for every weight hold the same items
-- equally often. In-place swaps keep every sum.
use mori.Prelude.{ℕ, zero, suc, ◌+◌, ◌<◌, ◌≡◌, refl}
use mori.Prelude.{◌≢◌, inl, inr, none, some}
use mori.Prelude.{List, [], ◌∷◌, ◌++◌, arith, ◌==◌, if◌then◌else◌}
use mori.Prelude.{Option-cases}
use mori.Prelude.{length, get_elem?, set, length-set}
use mori.Prelude.{Bytes, same}

-- `xs[i], xs[j] = xs[j], xs[i]`
unfoldable pub swap {ℓ} : {A : Type ℓ} → ℕ → ℕ → List A → List A
swap i j xs = elim (get_elem? xs i) [
  | none ↦ xs
  | some x ↦ elim (get_elem? xs j) [ none ↦ xs | some y ↦ set (set xs i y) j x ]
]

module _ {ℓ} {A : Type ℓ} (w : A → ℕ) where
  abbrev pub total : List A → ℕ
  total [] = 0
  total (x ∷ xs) = w x + total xs

  pub total-append : (xs ys : List A) → total (xs ++ ys) ≡ total xs + total ys
  total-append [] ys = omega arith
  total-append (x ∷ xs) ys = omega (arith, total-append xs ys)

  pub total-set :
      (xs : List A) (i : ℕ) (v : A) {x : A}
      → get_elem? xs i ≡ some x
      → total (set xs i v) + w x ≡ total xs + w v
  total-set [] i v e = cc
  total-set (y ∷ xs) zero v e = ground arith
  total-set (y ∷ xs) (suc i) v e = omega (arith, total-set xs i v e)

  get-set :
      (xs : List A) (i j : ℕ) {x y : A}
      → get_elem? xs i ≡ some x
      → get_elem? xs j ≡ some y
      → get_elem? (set xs i y) j ≡ some y
  get-set [] i j p q = cc
  get-set (z ∷ xs) zero zero p q = refl
  get-set (z ∷ xs) zero (suc j) p q = q
  get-set (z ∷ xs) (suc i) zero p q = q
  get-set (z ∷ xs) (suc i) (suc j) p q = get-set xs i j p q

  pub total-swap : (i j : ℕ) (xs : List A) → total (swap i j xs) ≡ total xs
  unfolding swap
  total-swap i j xs = elim (Option-cases (get_elem? xs i)) [
    | inl e ↦ rw (e, swap)
    | inr (x, e) ↦ elim (Option-cases (get_elem? xs j)) [
      | inl f ↦ rw (e, f, swap)
      | inr (y, f) ↦
          rw (e, f, swap)
            (omega (arith, total-set xs i y e, total-set (set xs i y) j x (get-set xs i j e f)))
    ]
  ]

module _ {ℓ} {A : Type ℓ} where
  pub get_elem?-set :
      (xs : List A) (i j : ℕ) (v : A) {x : A}
      → get_elem? xs i ≡ some x
      → get_elem? (set xs i v) j ≡ (if j == i then some v else get_elem? xs j)
  get_elem?-set [] i j v e = cc
  get_elem?-set (z ∷ xs) zero zero v e = refl
  get_elem?-set (z ∷ xs) zero (suc j) v e = ground arith
  get_elem?-set (z ∷ xs) (suc i) zero v e = ground arith
  get_elem?-set (z ∷ xs) (suc i) (suc j) v e = ground (arith, get_elem?-set xs i j v e)

  pub get_elem?-swap :
      (i j k : ℕ) (xs : List A) {x y : A}
      → get_elem? xs i ≡ some x
      → get_elem? xs j ≡ some y
      → get_elem? (swap i j xs) k
        ≡ (if k == j then some x else if k == i then some y else get_elem? xs k)
  unfolding swap
  get_elem?-swap i j k xs {x} {y} p q =
      rw (p, q, swap)
        (ground (
          arith,
          get_elem?-set (set xs i y) j k x (get-set (λ _. 0) xs i j p q),
          get_elem?-set xs i k y p,
        ))

  pub get_elem?-lt : (xs : List A) (i : ℕ) → i < length xs → get_elem? xs i ≢ none
  get_elem?-lt [] i h = elim h [ ]
  get_elem?-lt (x ∷ xs) zero h = λ e. cc
  get_elem?-lt (x ∷ xs) (suc i) h = get_elem?-lt xs i (omega arith)

  pub length-swap : (i j : ℕ) (xs : List A) → length (swap i j xs) ≡ length xs
  unfolding swap
  length-swap i j xs = elim (Option-cases (get_elem? xs i)) [
    | inl e ↦ rw (e, swap)
    | inr (x, e) ↦ elim (Option-cases (get_elem? xs j)) [
      | inl f ↦ rw (e, f, swap)
      | inr (y, f) ↦ rw (e, f, swap) (omega (arith, length-set xs i y, length-set (set xs i y) j x))
    ]
  ]

-- How often a byte string stands in a list.
abbrev pub once : Bytes → Bytes → ℕ
once k j = if same j k then 1 else 0

unfoldable pub count : Bytes → List Bytes → ℕ
count k xs = total (once k) xs
