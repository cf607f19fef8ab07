-- ===== src/Queue/Treap/Updates/Order.antt =====
-- The entries of a treap, in order, under the updates.
use mori.Prelude.{ℕ, ◌≡◌, refl, sym, ap, ◌∙◌, subst}
use mori.Prelude.{inl, inr, true, false}
use mori.Prelude.{◌∷◌, ◌++◌, append-nil, append_assoc, arith, ltb, ◌==◌}
use mori.Prelude.{Bool-cases, Bool-contra}
use mori.Prelude.{All, All-append, All-append_left, All-append_right}
use mori.Queue.Item.{Item, less, less_asymm, less_total}
use mori.Queue.Treap.{Treap, leaf, node, treap_split, treap_insert, treap_merge, treap_delete}
use mori.Queue.Treap.Lists.{
  IdNot, Unique, In, remove_id, Unique-append_left, Unique-append_right, All-In, In-append,
  Unique-apart, remove_id-append_left, remove_id-append_right, to_list, Before, After, NotBefore,
  IsOrdered, Ordered-append_left, Ordered-append_right, Ordered-Before, Before-of_Before,
  NotBefore-of_After,
}

module _ {B : Type 0} where
  -- A split keeps every entry, in order.
  pub to_list-split :
      (t : Treap B) (k : Item B)
      → to_list (treap_split t k).0 ++ to_list (treap_split t k).1 ≡ to_list t
  unfolding treap_split to_list
  to_list-split leaf k = refl
  to_list-split (node l x p r) k = elim (Bool-cases (less x k)) [
    | inl e ↦ rw e (
        append_assoc (to_list l) (x ∷ to_list (treap_split r k).0) _
        ∙ ap (λ z. to_list l ++ (x ∷ z)) (to_list-split r k))
    | inr e ↦ rw e (
        sym (append_assoc (to_list (treap_split l k).0) _ _)
        ∙ ap (λ z. z ++ (x ∷ to_list r)) (to_list-split l k))
  ]

  -- The parts of a split: what orders before `k`, and the rest.
  pub split-sides :
      (t : Treap B) (k : Item B)
      → IsOrdered t
      → All (Before k) (to_list (treap_split t k).0)
        × All (NotBefore k) (to_list (treap_split t k).1)
  unfolding treap_split to_list
  split-sides leaf k h = (tt, tt)
  split-sides (node l x p r) k h =
      let hl = Ordered-append_left (to_list l) (x ∷ to_list r) h in
      let bl = Ordered-Before (to_list l) x (to_list r) h in
      let hr = Ordered-append_right (to_list l) (x ∷ to_list r) h in
      elim (Bool-cases (less x k)) [
        | inl e ↦
            let s = split-sides r k hr.1 in
            rw e (
              All-append (Before k) (to_list l) (x ∷ to_list (treap_split r k).0)
                  (Before-of_Before x k (to_list l) bl e) (e, s.0),
              s.1,
            )
        | inr e ↦
            let s = split-sides l k hl in
            rw e (
              s.0,
              All-append (NotBefore k) (to_list (treap_split l k).1) (x ∷ to_list r) s.1
                  (e, NotBefore-of_After x k (to_list r) hr.0 e),
            )
      ]

  -- Inserting puts the entry between the two parts of the split by it.
  pub to_list-insert :
      (t : Treap B) (x : Item B) (prio : ℕ)
      → All (IdNot x.id) (to_list t)
      → to_list (treap_insert t x prio)
        ≡ to_list (treap_split t x).0 ++ (x ∷ to_list (treap_split t x).1)
  unfolding treap_insert to_list
  to_list-insert leaf x prio h = refl
  to_list-insert (node l y p r) x prio h = elim (Bool-cases (ltb p prio)) [
    | inl e ↦ rw e refl
    | inr e ↦ rw e (elim (Bool-cases (less x y)) [
      | inl f ↦
          rw (f, less_asymm x y f)
            (rw
              (to_list-insert l x prio (All-append_left (IdNot x.id) (to_list l) (y ∷ to_list r) h))
              (append_assoc (to_list (treap_split l x).0) _ _))
      | inr f ↦
          let rest = All-append_right (IdNot x.id) (to_list l) (y ∷ to_list r) h in
          rw (f, less_total x y (λ e. rest.0 (sym e)) f)
            (rw (to_list-insert r x prio rest.1)
              (sym (append_assoc (to_list l) (y ∷ to_list (treap_split r x).0) _)))
    ])
  ]

  pub to_list-merge : (lo hi : Treap B) → to_list (treap_merge lo hi) ≡ to_list lo ++ to_list hi
  unfolding treap_merge to_list
  to_list-merge leaf hi = refl
  to_list-merge (node l x p r) leaf = sym (append-nil _)
  to_list-merge (node l x p r) (node l' y q r') = elim (Bool-cases (ltb q p)) [
    | inl e ↦ rw e (
        ap (λ z. to_list l ++ (x ∷ z)) (to_list-merge r (node l' y q r'))
        ∙ sym (append_assoc (to_list l) (x ∷ to_list r) _))
    | inr e ↦ rw e (
        ap (λ z. z ++ (y ∷ to_list r')) (to_list-merge (node l x p r) l')
        ∙ append_assoc (to_list l ++ (x ∷ to_list r)) (to_list l') _)
  ]

  -- Deleting a linked entry takes it, and it alone, out of the list.
  pub to_list-delete :
      (t : Treap B) (x : Item B)
      → IsOrdered t
      → Unique (to_list t)
      → In x (to_list t)
      → to_list (treap_delete t x) ≡ remove_id x.id (to_list t)
  unfolding treap_delete to_list
  to_list-delete leaf x h u i = absurd i
  to_list-delete (node l y p r) x h u i =
      let hl = Ordered-append_left (to_list l) (y ∷ to_list r) h in
      let bl = Ordered-Before (to_list l) y (to_list r) h in
      let hr = Ordered-append_right (to_list l) (y ∷ to_list r) h in
      let ur = Unique-append_right (to_list l) (y ∷ to_list r) u in
      elim (Bool-cases (y.id == x.id)) [
        | inl e ↦
            let apart : All (IdNot x.id) (to_list l) =
              subst (λ n. All (IdNot n) (to_list l)) (ground (arith, e))
                (Unique-apart (to_list l) (y ∷ to_list r) y u (inl refl)) in
            rw e (
              to_list-merge l r
              ∙ sym (
                  remove_id-append_right x.id (to_list l) (y ∷ to_list r) apart
                  ∙ ap (λ z. to_list l ++ z) (head_removed e)))
        | inr e ↦ rw e (elim (Bool-cases (less x y)) [
          | inl f ↦
              let j = in_left e f hr.0 in
              rw f (
                rw (to_list-delete l x hl (Unique-append_left (to_list l) (y ∷ to_list r) u) j)
                  (sym (remove_id-append_left x (to_list l) (y ∷ to_list r) j)))
          | inr f ↦
              let j = in_right e f bl in
              let apart = Unique-apart (to_list l) (y ∷ to_list r) x u (inr j) in
              rw f (
                rw (to_list-delete r x hr.1 ur.1 j) (
                  sym (
                    remove_id-append_right x.id (to_list l) (y ∷ to_list r) apart
                    ∙ ap (λ z. to_list l ++ z) (tail_removed e))))
        ])
      ]
    where
      head_removed : (y.id == x.id) ≡ true → remove_id x.id (y ∷ to_list r) ≡ to_list r
      head_removed e = unfold remove_id in rw e

      tail_removed :
          (y.id == x.id) ≡ false → remove_id x.id (y ∷ to_list r) ≡ y ∷ remove_id x.id (to_list r)
      tail_removed e = unfold remove_id in rw e

      not_here : (y.id == x.id) ≡ false → y ≡ x → ⊥
      not_here e p = ground (arith, e, ap (λ (z : Item B). z.id) p)

      in_left :
          (y.id == x.id) ≡ false → less x y ≡ true → All (After y) (to_list r) → In x (to_list l)
      in_left e f after = elim (In-append x (to_list l) (y ∷ to_list r) i) [
        | inl j ↦ j
        | inr (inl p) ↦ absurd (not_here e p)
        | inr (inr j) ↦
            absurd (Bool-contra (All-In (After y) x (to_list r) after j) (less_asymm x y f))
      ]

      in_right :
          (y.id == x.id) ≡ false → less x y ≡ false → All (Before y) (to_list l) → In x (to_list r)
      in_right e f bef = elim (In-append x (to_list l) (y ∷ to_list r) i) [
        | inl j ↦ absurd (Bool-contra (All-In (Before y) x (to_list l) bef j) f)
        | inr (inl p) ↦ absurd (not_here e p)
        | inr (inr j) ↦ j
      ]
