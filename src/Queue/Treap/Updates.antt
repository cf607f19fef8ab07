-- ===== src/Queue/Treap/Updates.antt =====
-- Inserting, splitting, merging and deleting, by the list of entries and the heap.
mod Order
unfoldable pub use Order.*
use mori.Prelude.{ℕ, ◌≤◌, ◌≡◌, refl, sym, ap, ◌∙◌, subst}
use mori.Prelude.{inl, inr, true, false}
use mori.Prelude.{List, [], ◌∷◌, ◌++◌, append-nil, append_assoc, arith, ltb, ◌==◌}
use mori.Prelude.{Bool-cases, Bool-contra, on_if}
use mori.Prelude.{All, All-append, All-append_left, All-append_right}
use mori.Queue.Item.{Item, less, less_asymm, less_total}
use mori.Queue.Treap.{Treap, leaf, node, treap_split, treap_insert, treap_merge, treap_delete}
use mori.Queue.Treap.Lists.{
  IdNot, Unique, In, remove_id, Unique-append_left, Unique-append_right, All-In, In-append,
  Unique-apart, remove_id-append_left, remove_id-append_right, to_list, Before, After, NotBefore,
  Ordered, IsOrdered, TopAtMost, IsHeap, Ordered-append_left, Ordered-append_right, Ordered-Before,
  Ordered-join, Before-of_Before, NotBefore-of_After,
}

module _ {B : Type 0} where
  -- Heaps.
  split-IsHeap :
      (t : Treap B) (k : Item B)
      → IsHeap t
      → IsHeap (treap_split t k).0
        × IsHeap (treap_split t k).1
        × ((q : ℕ)
            → TopAtMost q t
            → TopAtMost q (treap_split t k).0 × TopAtMost q (treap_split t k).1)
  unfolding treap_split
  split-IsHeap leaf k h = (tt, tt, λ q _. (tt, tt))
  split-IsHeap (node l x p r) k (tl, tr, hl, hr) = elim (Bool-cases (less x k)) [
    | inl e ↦
        let (lo, hi, top) = split-IsHeap r k hr in
        rw e
          ((tl, (top p tr).0, hl, lo), hi, λ q b. (b, le_top (treap_split r k).1 b ((top p tr).1)))
    | inr e ↦
        let (lo, hi, top) = split-IsHeap l k hl in
        rw e
          (lo, ((top p tl).1, tr, hi, hr), λ q b. (le_top (treap_split l k).0 b ((top p tl).0), b))
  ]
    where
      le_top : {q : ℕ} (t : Treap B) → p ≤ q → TopAtMost p t → TopAtMost q t
      le_top leaf a b = tt
      le_top (node _ _ s _) a b = omega arith

  TopAtMost-le : {p q : ℕ} (t : Treap B) → p ≤ q → TopAtMost p t → TopAtMost q t
  TopAtMost-le leaf a b = tt
  TopAtMost-le (node _ _ s _) a b = omega arith

  insert-IsHeap :
      (t : Treap B) (x : Item B) (prio : ℕ)
      → IsHeap t
      → IsHeap (treap_insert t x prio)
        × ((q : ℕ) → TopAtMost q t → prio ≤ q → TopAtMost q (treap_insert t x prio))
  unfolding treap_insert
  insert-IsHeap leaf x prio h = ((tt, tt, tt, tt), λ q _ b. b)
  insert-IsHeap (node l y p r) x prio (tl, tr, hl, hr) = elim (Bool-cases (ltb p prio)) [
    | inl e ↦
        let (lo, hi, top) = split-IsHeap (node l y p r) x (tl, tr, hl, hr) in
        let (tlo, thi) = top prio (ground arith) in rw e ((tlo, thi, lo, hi), λ q _ b. b)
    | inr e ↦ rw e (elim (Bool-cases (less x y)) [
      | inl f ↦
          let (hl', top) = insert-IsHeap l x prio hl in
          rw f ((top p tl (ground arith), tr, hl', hr), λ q a _. a)
      | inr f ↦
          let (hr', top) = insert-IsHeap r x prio hr in
          rw f ((tl, top p tr (ground arith), hl, hr'), λ q a _. a)
    ])
  ]

  merge-IsHeap :
      (lo hi : Treap B)
      → IsHeap lo
      → IsHeap hi
      → IsHeap (treap_merge lo hi)
        × ((q : ℕ) → TopAtMost q lo → TopAtMost q hi → TopAtMost q (treap_merge lo hi))
  unfolding treap_merge
  merge-IsHeap leaf hi a b = (b, λ q _ t. t)
  merge-IsHeap (node l x p r) leaf a b = (a, λ q t _. t)
  merge-IsHeap (node l x p r) (node l' y q r') (tl, tr, hl, hr) (tl', tr', hl', hr') =
      elim (Bool-cases (ltb q p)) [
        | inl e ↦
            let (m, top) = merge-IsHeap r (node l' y q r') hr (tl', tr', hl', hr') in
            rw e ((tl, top p tr (ground arith), hl, m), λ k a _. a)
        | inr e ↦
            let (m, top) = merge-IsHeap (node l x p r) l' (tl, tr, hl, hr) hl' in
            rw e ((top q (ground arith) tl', tr', m, hr'), λ k _ b. b)
      ]

  delete-IsHeap :
      (t : Treap B) (x : Item B)
      → IsHeap t
      → IsHeap (treap_delete t x) × ((q : ℕ) → TopAtMost q t → TopAtMost q (treap_delete t x))
  unfolding treap_delete
  delete-IsHeap leaf x h = (tt, λ q _. tt)
  delete-IsHeap (node l y p r) x (tl, tr, hl, hr) = elim (Bool-cases (y.id == x.id)) [
    | inl e ↦
        let (m, top) = merge-IsHeap l r hl hr in
        rw e (m, λ q b. top q (TopAtMost-le l b tl) (TopAtMost-le r b tr))
    | inr e ↦ rw e (elim (Bool-cases (less x y)) [
      | inl f ↦ let (m, top) = delete-IsHeap l x hl in rw f ((top p tl, tr, m, hr), λ q b. b)
      | inr f ↦ let (m, top) = delete-IsHeap r x hr in rw f ((tl, top p tr, hl, m), λ q b. b)
    ])
  ]

  After-of_NotBefore :
      (x : Item B) (xs : List (Item B))
      → All (IdNot x.id) xs
      → All (NotBefore x) xs
      → All (After x) xs
  After-of_NotBefore x [] n h = tt
  After-of_NotBefore x (y ∷ ys) (n, ns) (h, hs) =
      (less_total y x n h, After-of_NotBefore x ys ns hs)

  insert-IsOrdered :
      (t : Treap B) (x : Item B) (prio : ℕ)
      → IsOrdered t
      → All (IdNot x.id) (to_list t)
      → IsOrdered (treap_insert t x prio)
  insert-IsOrdered t x prio h n =
      let lo = to_list (treap_split t x).0 in
      let hi = to_list (treap_split t x).1 in
      let parts : lo ++ hi ≡ to_list t = to_list-split t x in
      let h' : Ordered (lo ++ hi) = subst Ordered (sym parts) h in
      let n' : All (IdNot x.id) (lo ++ hi) = subst (All (IdNot x.id)) (sym parts) n in
      let (b, a) = split-sides t x h in
      subst Ordered (sym (to_list-insert t x prio n)) (
        Ordered-join lo x hi (Ordered-append_left lo hi h') b
          (After-of_NotBefore x hi (All-append_right (IdNot x.id) lo hi n') a)
          (Ordered-append_right lo hi h'))

  -- In an ordered heap, inserting an entry with a new id keeps the order and the heap, and puts the
  -- entry at one place among the others: those before it order before it, those after it behind it.
  pub treap_insert_lem :
      (t : Treap B) (x : Item B) (prio : ℕ)
      → IsOrdered t
      → IsHeap t
      → All (IdNot x.id) (to_list t)
      → IsOrdered (treap_insert t x prio)
        × IsHeap (treap_insert t x prio)
        × ((lo hi : List (Item B)) × (to_list t ≡ lo ++ hi)
            × (to_list (treap_insert t x prio) ≡ lo ++ (x ∷ hi))
            × All (Before x) lo
            × All (After x) hi)
  treap_insert_lem t x prio h heap n =
      let lo = to_list (treap_split t x).0 in
      let hi = to_list (treap_split t x).1 in
      let parts : lo ++ hi ≡ to_list t = to_list-split t x in
      let n' : All (IdNot x.id) (lo ++ hi) = subst (All (IdNot x.id)) (sym parts) n in
      let (b, a) = split-sides t x h in
      (
        insert-IsOrdered t x prio h n,
        (insert-IsHeap t x prio heap).0,
        (
          lo,
          hi,
          sym parts,
          to_list-insert t x prio n,
          b,
          After-of_NotBefore x hi (All-append_right (IdNot x.id) lo hi n') a,
        ),
      )

  pub All-remove_id :
      (P : Item B → Type 0) (n : ℕ) (xs : List (Item B)) → All P xs → All P (remove_id n xs)
  unfolding remove_id
  All-remove_id P n [] h = tt
  All-remove_id P n (x ∷ xs) (p, h) =
      on_if (All P) (x.id == n) (λ _. h) (λ _. (p, All-remove_id P n xs h))

  pub remove_id-Ordered : (n : ℕ) (xs : List (Item B)) → Ordered xs → Ordered (remove_id n xs)
  unfolding remove_id
  remove_id-Ordered n [] h = tt
  remove_id-Ordered n (x ∷ xs) (a, h) =
      on_if Ordered (x.id == n) (λ _. h)
        (λ _. (All-remove_id (After x) n xs a, remove_id-Ordered n xs h))

  pub remove_id-Unique : (n : ℕ) (xs : List (Item B)) → Unique xs → Unique (remove_id n xs)
  unfolding remove_id
  remove_id-Unique n [] h = tt
  remove_id-Unique n (x ∷ xs) (a, h) =
      on_if Unique (x.id == n) (λ _. h)
        (λ _. (All-remove_id (IdNot x.id) n xs a, remove_id-Unique n xs h))

  -- In an ordered heap with unique ids, deleting a linked entry keeps the order and the heap, and
  -- takes exactly that entry out.
  pub treap_delete_lem :
      (t : Treap B) (x : Item B)
      → IsOrdered t
      → IsHeap t
      → Unique (to_list t)
      → In x (to_list t)
      → IsOrdered (treap_delete t x)
        × IsHeap (treap_delete t x)
        × (to_list (treap_delete t x) ≡ remove_id x.id (to_list t))
  treap_delete_lem t x h heap u i =
      let e = to_list-delete t x h u i in
      (subst Ordered (sym e) (remove_id-Ordered x.id (to_list t) h), (delete-IsHeap t x heap).0, e)
