-- ===== src/Queue/Limited/Holding.antt =====
-- The entries that `GetBroadcasts` holds back and puts in again at its end.
use mori.Prelude.{ℕ, ◌+◌, ◌≡◌, refl, sym, ap, ◌∙◌, subst}
use mori.Prelude.{◌≢◌, false, Option, none, some}
use mori.Prelude.{List, [], ◌∷◌, ◌++◌, arith}
use mori.Prelude.{on_if}
use mori.Prelude.{length, length-append}
use mori.Prelude.{All, All-append}
use mori.Prelude.{Bytes, same_iff}
use mori.Prelude.Assoc.{lookup, insert, remove, lookup-insert, lookup-remove}
use mori.Queue.Item.{Item}
use mori.Queue.Treap.Lists.{IdNot, In, All-In}
use mori.Queue.Treap.Updates.{All-remove_id}
use mori.Queue.Limited.{
  BroadcastOps, LimitedQueue, is_empty, delete_item, add_item, finish, add_all,
}
use mori.Queue.Limited.Invariant.{
  entries, IsMeasured, QueueInv, IdAtMost, NameNot, NameFits, CanAdd, entries-add, entries-delete,
  add_item-QueueInv, remove_id-IdNot, All-put,
}
use mori.Queue.Limited.Queueing.{gone_from}

module _ {B : Type 0} (ops : BroadcastOps B) where
  -- Two entries that can stand in one queue.
  abbrev pub Apart : Item B → Item B → Type 0
  Apart x y = (y.id ≢ x.id) × (is_empty y.name ≡ false → x.name ≢ y.name)

  -- The entries of a list can be added to the queue, one after the other.
  abbrev pub Ready : LimitedQueue B → List (Item B) → Type 0
  Ready q [] = Unit
  Ready q (x ∷ xs) = CanAdd ops x q × All (Apart x) xs × Ready q xs

  add_item-CanAdd :
      (prio : ℕ) (x y : Item B) (q : LimitedQueue B)
      → QueueInv ops q
      → CanAdd ops x q
      → CanAdd ops y q
      → Apart x y
      → CanAdd ops y (add_item prio x q)
  unfolding add_item
  add_item-CanAdd prio x y q h cx cy (other, names) =
      let (lo, hi, e, e') = entries-add ops prio x q h cx in
      record {
        new_id = subst (All (IdNot y.id)) (sym e') (
            All-put (IdNot y.id) x lo hi (λ p. other (sym p))
              (subst (All (IdNot y.id)) e cy.new_id));
        was_issued = cy.was_issued;
        length_fits = cy.length_fits;
        name_free = λ ne.
            on_if (λ m. lookup y.name m ≡ none) (is_empty x.name) {y = insert x.name x q.tm}
              (λ _. cy.name_free ne)
              (λ _. ground (
                arith,
                lookup-insert x.name y.name x q.tm,
                same_iff x.name y.name,
                names ne,
                cy.name_free ne,
              ));
      }

  add_item-Ready :
      (prio : ℕ) (x : Item B) (q : LimitedQueue B) (xs : List (Item B))
      → QueueInv ops q
      → CanAdd ops x q
      → All (Apart x) xs
      → Ready q xs
      → Ready (add_item prio x q) xs
  add_item-Ready prio x q [] h c a r = tt
  add_item-Ready prio x q (y ∷ ys) h c (a, rest) (cy, ay, r) =
      (add_item-CanAdd prio x y q h c cy a, ay, add_item-Ready prio x q ys h c rest r)

  pub add_all-QueueInv :
      (draws : ℕ → ℕ) (xs : List (Item B)) (q : LimitedQueue B)
      → QueueInv ops q
      → Ready q xs
      → QueueInv ops (add_all ops draws xs q)
        × (length (entries (add_all ops draws xs q)) ≡ length (entries q) + length xs)
  unfolding add_all
  add_all-QueueInv draws [] q h r = (h, omega arith)
  add_all-QueueInv draws (x ∷ xs) q h (c, a, r) =
      let (lo, hi, e, e') = entries-add ops (draws 0) x q h c in
      let (inv, size) =
        add_all-QueueInv (λ i. draws (i + 1)) xs (add_item (draws 0) x q)
          (add_item-QueueInv ops (draws 0) x q h c) (add_item-Ready (draws 0) x q xs h c a r) in
      (
        inv,
        omega (
          arith,
          size,
          ap length e,
          ap length e',
          length-append lo hi,
          length-append lo (x ∷ hi),
        ),
      )

  pub finish-Ready :
      (b : B) (q : LimitedQueue B) (xs : List (Item B)) → Ready q xs → Ready (finish b q) xs
  unfolding finish
  finish-Ready b q [] r = tt
  finish-Ready b q (x ∷ xs) (c, a, r) = (
    record {
      new_id = c.new_id;
      was_issued = c.was_issued;
      length_fits = c.length_fits;
      name_free = c.name_free;
    },
    a,
    finish-Ready b q xs r,
  )

  module _ (x : Item B) (q : LimitedQueue B) (h : QueueInv ops q) (linked : In x (entries q)) where
    deleted_free :
        (name : Bytes) → lookup name q.tm ≡ none → lookup name (delete_item x q).tm ≡ none
    unfolding delete_item
    deleted_free name e =
        on_if (λ m. lookup name m ≡ none) (is_empty x.name) {y = remove x.name q.tm} (λ _. e)
          (λ _. ground (arith, e, lookup-remove x.name name q.tm))

    delete_item-CanAdd : (y : Item B) → CanAdd ops y q → CanAdd ops y (delete_item x q)
    delete_item-CanAdd y c = record {
      new_id =
          subst (All (IdNot y.id)) (sym (entries-delete ops x q h linked))
            (All-remove_id (IdNot y.id) x.id (entries q) c.new_id);
      was_issued = unfold delete_item in c.was_issued;
      length_fits = c.length_fits;
      name_free = λ ne. deleted_free y.name (c.name_free ne);
    }

    -- The entry itself can be put in again, in another tier.
    again-CanAdd :
        (transmits : ℕ) → CanAdd ops (record x { transmits = transmits }) (delete_item x q)
    again-CanAdd transmits = record {
      new_id =
          subst (All (IdNot x.id)) (sym (entries-delete ops x q h linked))
            (remove_id-IdNot x (entries q) h.distinct linked);
      was_issued = unfold delete_item in All-In (IdAtMost q.id_gen) x (entries q) h.issued linked;
      length_fits = All-In (IsMeasured ops) x (entries q) h.measured linked;
      name_free = λ ne. gone_from ops x.name q x refl ne;
    }

    held-Apart :
        (y : Item B) (transmits : ℕ) → CanAdd ops y q → Apart y (record x { transmits = transmits })
    held-Apart y transmits c = (
      All-In (IdNot y.id) x (entries q) c.new_id linked,
      λ ne e.
          name_taken (lookup x.name q.tm) (h.indexed x.name ne)
            (ap (λ n. lookup n q.tm) (sym e) ∙ c.name_free (ap is_empty e ∙ ne)),
    )
      where
        name_taken : (o : Option (Item B)) → NameFits x.name (entries q) o → o ≡ none → ⊥
        name_taken none f e = All-In (NameNot x.name) x (entries q) f linked refl
        name_taken (some z) f e = cc e

    pub delete_item-Ready : (xs : List (Item B)) → Ready q xs → Ready (delete_item x q) xs
    delete_item-Ready [] r = tt
    delete_item-Ready (y ∷ ys) (c, a, r) = (delete_item-CanAdd y c, a, delete_item-Ready ys r)

    -- Taking the entry out and holding it back for another tier.
    pub hold-Ready :
        (transmits : ℕ) (xs : List (Item B))
        → Ready q xs
        → Ready (delete_item x q) (xs ++ (record x { transmits = transmits } ∷ []))
    hold-Ready transmits [] r = (again-CanAdd transmits, tt, tt)
    hold-Ready transmits (y ∷ ys) (c, a, r) = (
      delete_item-CanAdd y c,
      All-append (Apart y) ys (record x { transmits = transmits } ∷ []) a
          (held-Apart y transmits c, tt),
      hold-Ready transmits ys r,
    )
