-- ===== src/Queue/Treap/Searches.antt =====
-- Searching and walking a treap, by the list of its entries.
use mori.Prelude.{ℕ, zero, suc, ◌+◌, ◌≤◌, ◌<◌, ◌≡◌, refl, sym, ap, ◌∙◌}
use mori.Prelude.{inl, inr, Bool, true, false, not, Option, none, some}
use mori.Prelude.{List, [], ◌∷◌, ◌++◌, append-nil, append_assoc, arith, if◌then◌else◌}
use mori.Prelude.{Bool-cases, on_if}
use mori.Prelude.{length, length-append}
use mori.Prelude.{All, All-imp}
use mori.Queue.Item.{Item, less, less_trans}
use mori.Queue.Treap.{
  Treap, leaf, node, Stack, ceil_loop, treap_ceil, next_loop, treap_next, before, stack_left,
  ascend_loop, size, ascend_from,
}
use mori.Queue.Treap.Lists.{
  to_list, Before, IsOrdered, Ordered-append_left, Ordered-append_right, Ordered-Before,
  Before-of_Before,
}

module _ {B : Type 0} where
  -- The first entry that passes a test.
  abbrev pub first : (Item B → Bool) → List (Item B) → Option (Item B)
  first p [] = none
  first p (x ∷ xs) = if p x then some x else first p xs

  abbrev pub or_else : Option (Item B) → Option (Item B) → Option (Item B)
  or_else none b = b
  or_else (some x) b = some x

  first-append :
      (p : Item B → Bool) (xs ys : List (Item B))
      → first p (xs ++ ys) ≡ or_else (first p xs) (first p ys)
  first-append p [] ys = refl
  first-append p (x ∷ xs) ys = ground (arith, first-append p xs ys)

  first-none :
      (p : Item B → Bool) (xs : List (Item B)) → All (λ x. p x ≡ false) xs → first p xs ≡ none
  first-none p [] h = refl
  first-none p (x ∷ xs) (a, h) = rw a (first-none p xs h)

  ceil_loop-first :
      (t : Treap B) (k : Item B) (best : Option (Item B))
      → IsOrdered t
      → ceil_loop t k best ≡ or_else (first (λ x. not (less x k)) (to_list t)) best
  unfolding ceil_loop to_list
  ceil_loop-first leaf k best h = refl
  ceil_loop-first (node l x p r) k best h =
      let p = λ (y : Item B). not (less y k) in
      let hl = Ordered-append_left (to_list l) (x ∷ to_list r) h in
      let hr = Ordered-append_right (to_list l) (x ∷ to_list r) h in
      let bl = Ordered-Before (to_list l) x (to_list r) h in
      elim (Bool-cases (less x k)) [
        | inl e ↦
            let none_left : first p (to_list l) ≡ none = first-none p (to_list l) (
              All-imp (Before k) (λ y. p y ≡ false) (to_list l) (λ y q. rw q)
                (Before-of_Before x k (to_list l) bl e)) in
            ground (
              arith,
              e,
              ceil_loop-first r k best hr.1,
              first-append p (to_list l) (x ∷ to_list r),
              none_left,
            )
        | inr e ↦
            ground (
              arith,
              e,
              ceil_loop-first l k (some x) hl,
              first-append p (to_list l) (x ∷ to_list r),
            )
      ]

  -- In an ordered treap, treapCeil finds the first entry, in order, that does not order before k.
  pub treap_ceil-first :
      (t : Treap B) (k : Item B)
      → IsOrdered t
      → treap_ceil t k ≡ first (λ x. not (less x k)) (to_list t)
  unfolding treap_ceil
  treap_ceil-first t k h =
      ceil_loop-first t k none h ∙ or_none (first (λ x. not (less x k)) (to_list t))
    where
      or_none : (o : Option (Item B)) → or_else o none ≡ o
      or_none none = refl
      or_none (some x) = refl

  next_loop-first :
      (t : Treap B) (k : Item B) (best : Option (Item B))
      → IsOrdered t
      → next_loop t k best ≡ or_else (first (less k) (to_list t)) best
  unfolding next_loop to_list
  next_loop-first leaf k best h = refl
  next_loop-first (node l x p r) k best h =
      let hl = Ordered-append_left (to_list l) (x ∷ to_list r) h in
      let hr = Ordered-append_right (to_list l) (x ∷ to_list r) h in
      let bl = Ordered-Before (to_list l) x (to_list r) h in
      elim (Bool-cases (less k x)) [
        | inl e ↦ ground (
          arith,
          e,
          next_loop-first l k (some x) hl,
          first-append (less k) (to_list l) (x ∷ to_list r),
        )
        | inr e ↦
            let none_left : first (less k) (to_list l) ≡ none =
              first-none (less k) (to_list l) (
                All-imp (Before x) (λ y. less k y ≡ false) (to_list l) (λ y q. not_yet y q e) bl) in
            ground (
              arith,
              e,
              next_loop-first r k best hr.1,
              first-append (less k) (to_list l) (x ∷ to_list r),
              none_left,
            )
      ]
    where
      not_yet : (y : Item B) → less y x ≡ true → less k x ≡ false → less k y ≡ false
      not_yet y q e = elim (Bool-cases (less k y)) [ inl f ↦ cc (less_trans k y x f q) | inr f ↦ f ]

  -- In an ordered treap, treapNext finds the first entry, in order, that is behind x.
  pub treap_next-first :
      (t : Treap B) (x : Item B) → IsOrdered t → treap_next t x ≡ first (less x) (to_list t)
  unfolding treap_next
  treap_next-first t x h = next_loop-first t x none h ∙ or_none (first (less x) (to_list t))
    where
      or_none : (o : Option (Item B)) → or_else o none ≡ o
      or_none none = refl
      or_none (some y) = refl

  -- What an early stop leaves of a walk: the entries up to the first that `f` refuses, that one
  -- included.
  abbrev pub until_stop : (Item B → Bool) → List (Item B) → List (Item B)
  until_stop f [] = []
  until_stop f (x ∷ xs) = if not (f x) then x ∷ [] else x ∷ until_stop f xs

  abbrev pub skip_before : Option (Item B) → List (Item B) → List (Item B)
  skip_before k [] = []
  skip_before k (x ∷ xs) = if before x k then skip_before k xs else x ∷ xs

  -- The entries that a stack stands for.
  abbrev waiting : Stack B → List (Item B)
  waiting [] = []
  waiting ((x, r) ∷ stack) = x ∷ (to_list r ++ waiting stack)

  waiting-stack_left_all :
      (t : Treap B) (stack : Stack B)
      → waiting (stack_left t none stack) ≡ to_list t ++ waiting stack
  unfolding stack_left to_list
  waiting-stack_left_all leaf stack = refl
  waiting-stack_left_all (node l x p r) stack =
      waiting-stack_left_all l ((x, r) ∷ stack) ∙ sym (append_assoc (to_list l) (x ∷ to_list r) _)

  skip_before-All :
      (k : Item B) (xs ys : List (Item B))
      → All (Before k) xs
      → skip_before (some k) (xs ++ ys) ≡ skip_before (some k) ys
  unfolding before
  skip_before-All k [] ys h = refl
  skip_before-All k (x ∷ xs) ys (b, h) = rw b (skip_before-All k xs ys h)

  skip_before-stop :
      (k x : Item B) (xs ys : List (Item B))
      → less x k ≡ false
      → skip_before (some k) (xs ++ (x ∷ ys)) ≡ skip_before (some k) xs ++ (x ∷ ys)
  unfolding before
  skip_before-stop k x [] ys e = rw e
  skip_before-stop k x (y ∷ xs) ys e = ground (arith, skip_before-stop k x xs ys e)

  waiting-stack_left :
      (t : Treap B) (k : Item B) (stack : Stack B)
      → IsOrdered t
      → waiting (stack_left t (some k) stack) ≡ skip_before (some k) (to_list t) ++ waiting stack
  unfolding stack_left to_list before
  waiting-stack_left leaf k stack h = refl
  waiting-stack_left (node l x p r) k stack h =
      let hl = Ordered-append_left (to_list l) (x ∷ to_list r) h in
      let hr = Ordered-append_right (to_list l) (x ∷ to_list r) h in
      let bl = Ordered-Before (to_list l) x (to_list r) h in
      elim (Bool-cases (less x k)) [
        | inl e ↦
            rw
              (
                e,
                skip_before-All k (to_list l) (x ∷ to_list r)
                    (Before-of_Before x k (to_list l) bl e),
                e,
              )
              (waiting-stack_left r k stack hr.1)
        | inr e ↦
            rw (e, skip_before-stop k x (to_list l) (to_list r) e)
              (waiting-stack_left l k ((x, r) ∷ stack) hl
                ∙ sym (append_assoc (skip_before (some k) (to_list l)) (x ∷ to_list r) _))
      ]

  ascend_loop-until :
      (fuel : ℕ) (stack : Stack B) (f : Item B → Bool)
      → length (waiting stack) < fuel
      → ascend_loop fuel stack f ≡ until_stop f (waiting stack)
  unfolding ascend_loop
  ascend_loop-until zero stack f h = elim h [ ]
  ascend_loop-until (suc fuel) [] f h = refl
  ascend_loop-until (suc fuel) ((x, r) ∷ stack) f h =
      let same_rest = waiting-stack_left_all r stack in
      ap (λ rest. if not (f x) then x ∷ [] else x ∷ rest)
        (ascend_loop-until fuel (stack_left r none stack) f (omega (arith, ap length same_rest))
          ∙ ap (until_stop f) same_rest)

  pub size-length : (t : Treap B) → size t ≡ length (to_list t)
  unfolding size to_list
  size-length leaf = refl
  size-length (node l x p r) =
      omega (arith, size-length l, size-length r, length-append (to_list l) (x ∷ to_list r))

  skip_before-le :
      (k : Option (Item B)) (xs : List (Item B)) → length (skip_before k xs) ≤ length xs
  unfolding before
  skip_before-le k [] = omega arith
  skip_before-le k (x ∷ xs) =
      on_if (λ (ys : List (Item B)). length ys ≤ suc (length xs)) (before x k)
        (λ _. omega (arith, skip_before-le k xs)) (λ _. omega arith)

  -- On an ordered treap, ascendFrom hands over, in ascending order, the entries that do not order
  -- before k, or all of them if there is no k, up to the first that f refuses; its stack never runs
  -- out of rounds.
  pub ascend_from-until :
      (t : Treap B) (k : Option (Item B)) (f : Item B → Bool)
      → IsOrdered t
      → ascend_from t k f ≡ until_stop f (skip_before k (to_list t))
  unfolding ascend_from
  ascend_from-until t none f h =
      let e = waiting-stack_left_all t [] ∙ append-nil (to_list t) in
      ascend_loop-until (size t + 1) (stack_left t none []) f
        (omega (arith, size-length t, ap length e))
      ∙ ap (until_stop f) (e ∙ sym (no_skip (to_list t)))
    where
      no_skip : (xs : List (Item B)) → skip_before none xs ≡ xs
      no_skip [] = unfold before in refl
      no_skip (x ∷ xs) = unfold before in refl
  ascend_from-until t (some k) f h =
      let e = waiting-stack_left t k [] h ∙ append-nil (skip_before (some k) (to_list t)) in
      ascend_loop-until (size t + 1) (stack_left t (some k) []) f
        (omega (arith, size-length t, ap length e, skip_before-le (some k) (to_list t)))
      ∙ ap (until_stop f) e
