-- ===== src/Util/MoveDead/Partition.antt =====
-- `moveDeadNodes` of util.go: the list that it returns, and the index.
use mori.Prelude.{ℕ, zero, suc, ◌+◌, ◌-◌, ◌≤◌, ◌<◌, ◌≡◌, refl, sym, ap, ◌∙◌}
use mori.Prelude.{inl, inr, Bool, true, false, some}
use mori.Prelude.{List, [], ◌∷◌, arith, ltb}
use mori.Prelude.{Bool-cases, Option-cases}
use mori.Prelude.{length, get_elem?, take, drop}
use mori.Prelude.{All}
use Prim.Native.Nat.add
use mori.Prelude.Totals.{swap, total, total-swap, length-swap, get_elem?-swap, get_elem?-lt}
use mori.Util.MoveDead.{move_dead_loop, move_dead_nodes}

All-of-get {ℓ κ} :
    {A : Type ℓ} (P : A → Type κ) (xs : List A)
    → ((i : ℕ) (x : A) → get_elem? xs i ≡ some x → P x)
    → All P xs
All-of-get P [] h = tt
All-of-get P (x ∷ xs) h = (h 0 x refl, All-of-get P xs (λ i y e. h (suc i) y e))

get_elem?-drop {ℓ} :
    {A : Type ℓ} (n i : ℕ) (xs : List A) → get_elem? (drop n xs) i ≡ get_elem? xs (n + i)
get_elem?-drop zero i xs = ap (get_elem? xs) (sym (add.zero i))
get_elem?-drop (suc n) i [] = refl
get_elem?-drop (suc n) i (x ∷ xs) =
    get_elem?-drop n i xs ∙ sym (ap (get_elem? (x ∷ xs)) (add.suc n i))

get_elem?-take {ℓ} :
    {A : Type ℓ} (n i : ℕ) (xs : List A) (x : A)
    → get_elem? (take n xs) i ≡ some x
    → (i < n) × (get_elem? xs i ≡ some x)
get_elem?-take zero i xs x e = cc
get_elem?-take (suc n) i [] x e = cc
get_elem?-take (suc n) zero (y ∷ xs) x e = (omega arith, e)
get_elem?-take (suc n) (suc i) (y ∷ xs) x e =
    let (p, q) = get_elem?-take n i xs x e in (omega arith, q)

get_elem?-bound {ℓ} :
    {A : Type ℓ} (xs : List A) (j : ℕ) (x : A) → get_elem? xs j ≡ some x → j < length xs
get_elem?-bound [] j x e = cc
get_elem?-bound (y ∷ xs) zero x e = omega arith
get_elem?-bound (y ∷ xs) (suc j) x e = omega (arith, get_elem?-bound xs j x e)

module _ {ℓ} {A : Type ℓ} (gone : A → Bool) where
  -- The places from `length xs - num_dead` on hold nodes that are gone.
  abbrev Tail : ℕ → List A → Type ℓ
  Tail num_dead xs =
      (j : ℕ) (x : A) → length xs ≤ j + num_dead → get_elem? xs j ≡ some x → gone x ≡ true

  abbrev Front : ℕ → List A → Type ℓ
  Front i xs = (j : ℕ) (x : A) → j < i → get_elem? xs j ≡ some x → gone x ≡ false

  record IsSplit (ys : List A) (num_dead : ℕ) : Type ℓ where
    fits : num_dead ≤ length ys
    tail : Tail num_dead ys
    front : Front (length ys - num_dead) ys

  swap-Tail :
      (i num_dead : ℕ) (xs : List A) {x y : A}
      → i + num_dead < length xs
      → get_elem? xs i ≡ some x
      → gone x ≡ true
      → get_elem? xs (length xs - num_dead - 1) ≡ some y
      → Tail num_dead xs
      → Tail (num_dead + 1) (swap i (length xs - num_dead - 1) xs)
  swap-Tail i num_dead xs h p g q t j z le e = ground (
    arith,
    length-swap i (length xs - num_dead - 1) xs,
    get_elem?-swap i (length xs - num_dead - 1) j xs p q,
    t j z,
  )

  swap-Front :
      (i num_dead : ℕ) (xs : List A) {x y : A}
      → i + num_dead < length xs
      → get_elem? xs i ≡ some x
      → get_elem? xs (length xs - num_dead - 1) ≡ some y
      → Front i xs
      → Front i (swap i (length xs - num_dead - 1) xs)
  swap-Front i num_dead xs h p q f j z lt e =
      ground (arith, get_elem?-swap i (length xs - num_dead - 1) j xs p q, f j z)

  next-Front :
      (i : ℕ) (xs : List A) {x : A}
      → get_elem? xs i ≡ some x
      → gone x ≡ false
      → Front i xs
      → Front (i + 1) xs
  next-Front i xs p g f j z lt e = ground (arith, f j z, same_place j)
    where
      same_place : (j : ℕ) → j ≡ i → get_elem? xs j ≡ get_elem? xs i
      same_place j e = ap (get_elem? xs) e

  some_lem : (i : ℕ) (xs : List A) → i < length xs → (x : A) × (get_elem? xs i ≡ some x)
  some_lem i xs h = elim (Option-cases (get_elem? xs i)) [
    | inl e ↦ absurd (get_elem?-lt xs i h e)
    | inr (x, e) ↦ (x, e)
  ]

  loop-IsSplit :
      (fuel i num_dead : ℕ) (xs : List A)
      → i + num_dead ≤ length xs
      → length xs ≤ fuel + (i + num_dead)
      → Tail num_dead xs
      → Front i xs
      → let (ys, n) = move_dead_loop gone fuel i num_dead xs in
        IsSplit ys n × ((w : A → ℕ) → total w ys ≡ total w xs) × (length ys ≡ length xs)
  unfolding move_dead_loop
  loop-IsSplit zero i num_dead xs le enough t f = (
    record { fits = omega arith; tail = t; front = λ j x lt e. f j x (omega arith) e },
    λ w. refl,
    refl,
  )
  loop-IsSplit (suc fuel) i num_dead xs le enough t f =
      elim (Bool-cases (ltb i (length xs - num_dead))) [
        | inr done ↦ rw done (
          record { fits = omega arith; tail = t; front = λ j x lt e. f j x (ground arith) e },
          λ w. refl,
          refl,
        )
        | inl more ↦
            let (x, p) = some_lem i xs (ground arith) in
            let (y, q) = some_lem (length xs - num_dead - 1) xs (ground arith) in
            let ys = swap i (length xs - num_dead - 1) xs in
            let same_length = length-swap i (length xs - num_dead - 1) xs in
            rw (more, p)
              (elim (Bool-cases (gone x)) [
                | inr keep ↦ rw keep (
                    loop-IsSplit fuel (i + 1) num_dead xs (ground arith) (omega arith) t
                      (next-Front i xs p keep f))
                | inl dead ↦
                    let (split, totals, len) =
                      loop-IsSplit fuel i (num_dead + 1) ys (ground (arith, same_length))
                        (ground (arith, same_length))
                        (swap-Tail i num_dead xs (ground arith) p dead q t)
                        (swap-Front i num_dead xs (ground arith) p q f) in
                    rw dead (
                      split,
                      λ w. totals w ∙ total-swap w i (length xs - num_dead - 1) xs,
                      len ∙ same_length,
                    )
              ])
      ]

  -- moveDeadNodes returns the same nodes in another order, with an index within the list: every
  -- node before it fails the test, and every node from it on passes.
  pub move_dead_nodes_splits :
      (xs : List A)
      → let (ys, dead_idx) = move_dead_nodes gone xs in
        (dead_idx ≤ length ys)
        × All (λ x. gone x ≡ false) (take dead_idx ys)
        × All (λ x. gone x ≡ true) (drop dead_idx ys)
        × ((w : A → ℕ) → total w ys ≡ total w xs)
        × (length ys ≡ length xs)
  unfolding move_dead_nodes
  move_dead_nodes_splits xs =
      let (split, totals, len) =
        loop-IsSplit (length xs) 0 0 xs (omega arith) (omega arith)
          (λ j x le e. absurd (omega (arith, get_elem?-bound xs j x e)))
          (λ j x lt e. absurd (omega arith)) in
      let idx = length xs - (move_dead_loop gone (length xs) 0 0 xs).1 in
      let ys = (move_dead_loop gone (length xs) 0 0 xs).0 in
      (
        omega arith,
        All-of-get (λ x. gone x ≡ false) (take idx ys)
            (λ j x e.
              let (lt, e') = get_elem?-take idx j ys x e in split.front j x (omega arith) e'),
        All-of-get (λ x. gone x ≡ true) (drop idx ys)
            (λ j x e.
              split.tail (idx + j) x (omega (arith, split.fits))
                (sym (get_elem?-drop idx j ys) ∙ e)),
        totals,
        len,
      )
