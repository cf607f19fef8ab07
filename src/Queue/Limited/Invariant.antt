-- ===== src/Queue/Limited/Invariant.antt =====
-- The invariant of the queue of queue.go, and adding and deleting entries.
mod Lists
unfoldable pub use Lists.*
use mori.Prelude.{ℕ, suc, ◌+◌, ◌≤◌, ◌≡◌, refl, sym, ap, ◌∙◌, subst}
use mori.Prelude.{◌≢◌, ◌⊎◌, inl, inr, true, false, Option, none, some}
use mori.Prelude.{List, [], ◌∷◌, ◌++◌, arith, ◌==◌}
use mori.Prelude.{==_iff, Bool-cases, Bool-contra, on_if}
use mori.Prelude.{length, length-append}
use mori.Prelude.{All, All-imp}
use mori.Prelude.{Bytes, same-cases}
use mori.Prelude.Assoc.{lookup, lookup-insert, lookup-remove}
use mori.Queue.Item.{Item}
use mori.Queue.Treap.Lists.{to_list, IsOrdered, IsHeap, IdNot, Unique, In, remove_id, All-In}
use mori.Queue.Treap.Updates.{treap_insert_lem, treap_delete_lem, remove_id-Unique, All-remove_id}
use mori.Queue.Limited.{
  BroadcastOps, LimitedQueue, is_empty, new_queue, delete_item, add_item, finish,
}

module _ {B : Type 0} (ops : BroadcastOps B) where
  -- The recorded length is that of the message.
  abbrev pub IsMeasured : Item B → Type 0
  IsMeasured x = x.msg_len ≡ length (ops.message x.b)

  pub record QueueInv (q : LimitedQueue B) : Type 0 where
    pub ordered : IsOrdered q.root
    pub heap : IsHeap q.root
    pub distinct : Unique (entries q)
    pub issued : All (IdAtMost q.id_gen) (entries q)
    pub counted : q.n ≡ length (entries q)
    pub measured : All IsMeasured (entries q)
    pub indexed : (k : Bytes) → is_empty k ≡ false → NameFits k (entries q) (lookup k q.tm)

  pub new_queue-QueueInv : (mult : ℕ) → QueueInv (new_queue mult)
  unfolding new_queue to_list lookup
  new_queue-QueueInv mult = record {
    ordered = tt;
    heap = tt;
    distinct = tt;
    issued = tt;
    counted = refl;
    measured = tt;
    indexed = λ k _. tt;
  }

  module _ (x : Item B) (q : LimitedQueue B) (h : QueueInv q) (linked : In x (entries q)) where
    pub entries-delete : entries (delete_item x q) ≡ remove_id x.id (entries q)
    unfolding delete_item
    entries-delete = (treap_delete_lem q.root x h.ordered h.heap h.distinct linked).2

    -- No other entry had the deleted one's name.
    name_gone : is_empty x.name ≡ false → All (NameNot x.name) (remove_id x.id (entries q))
    name_gone e = go (lookup x.name q.tm) (h.indexed x.name e)
      where
        go :
            (o : Option (Item B))
            → NameFits x.name (entries q) o
            → All (NameNot x.name) (remove_id x.id (entries q))
        go none f = absurd (All-In (NameNot x.name) x (entries q) f linked refl)
        go (some y) (i, n, one) =
            let own : x.id ≡ y.id =
              All-In (λ z. (z.name ≡ x.name) → z.id ≡ y.id) x (entries q) one linked refl in
            both (remove_id x.id (entries q)) own
              (All-remove_id (λ z. (z.name ≡ x.name) → z.id ≡ y.id) x.id (entries q) one)
              (remove_id-IdNot x (entries q) h.distinct linked)
          where
            both :
                (xs : List (Item B))
                → x.id ≡ y.id
                → All (λ z. (z.name ≡ x.name) → z.id ≡ y.id) xs
                → All (IdNot x.id) xs
                → All (NameNot x.name) xs
            both [] own a b = tt
            both (z ∷ zs) own (a, as') (b, bs) = (λ e. b (a e ∙ sym own), both zs own as' bs)

    delete-indexed :
        (k : Bytes)
        → is_empty k ≡ false
        → NameFits k (remove_id x.id (entries q)) (lookup k (delete_item x q).tm)
    unfolding delete_item
    delete-indexed k ne = elim (Bool-cases (is_empty x.name)) [
      | inl e ↦ rw e (
          NameFits-remove_id k x (entries q) (lookup k q.tm) h.distinct linked
            (not_empty-ne x.name k e ne) (h.indexed k ne))
      | inr e ↦
          rw (e, lookup-remove x.name k q.tm)
            (elim (same-cases x.name k) [
              | inl (t, p) ↦
                  rw t (subst (λ n. All (NameNot n) (remove_id x.id (entries q))) p (name_gone e))
              | inr (t, p) ↦ rw t (
                  NameFits-remove_id k x (entries q) (lookup k q.tm) h.distinct linked p
                    (h.indexed k ne))
            ])
    ]

    -- Taking out a linked entry.
    pub delete_item-QueueInv : QueueInv (delete_item x q)
    delete_item-QueueInv =
        let t = treap_delete_lem q.root x h.ordered h.heap h.distinct linked in
        let e = entries-delete in
        record {
          ordered = unfold delete_item in t.0;
          heap = unfold delete_item in t.1;
          distinct = rw e (remove_id-Unique x.id (entries q) h.distinct);
          issued =
              rw e
                (unfold delete_item in All-remove_id (IdAtMost q.id_gen) x.id (entries q) h.issued);
          counted =
              unfold delete_item in
              omega (arith, h.counted, ap length e, length-remove_id x (entries q) linked);
          measured = rw e (All-remove_id IsMeasured x.id (entries q) h.measured);
          indexed = λ k ne. rw e (delete-indexed k ne);
        }

  pub finish-QueueInv : (b : B) (q : LimitedQueue B) → QueueInv q → QueueInv (finish b q)
  unfolding finish
  finish-QueueInv b q h = record {
    ordered = h.ordered;
    heap = h.heap;
    distinct = h.distinct;
    issued = h.issued;
    counted = h.counted;
    measured = h.measured;
    indexed = h.indexed;
  }

  -- What an entry needs to be added: an id that was issued and is not in use, its message's length,
  -- and a name that the map does not have.
  pub record CanAdd (x : Item B) (q : LimitedQueue B) : Type 0 where
    pub new_id : All (IdNot x.id) (entries q)
    pub was_issued : x.id ≤ q.id_gen
    pub length_fits : IsMeasured x
    pub name_free : is_empty x.name ≡ false → lookup x.name q.tm ≡ none

  module _ (prio : ℕ) (x : Item B) (q : LimitedQueue B) (h : QueueInv q) (can : CanAdd x q) where
    -- The new entry stands at one place among the old ones.
    pub entries-add :
        (lo hi : List (Item B)) × (entries q ≡ lo ++ hi)
        × (entries (add_item prio x q) ≡ lo ++ (x ∷ hi))
    unfolding add_item
    entries-add =
        let (_, _, (lo, hi, e, e', _, _)) =
          treap_insert_lem q.root x prio h.ordered h.heap can.new_id in
        (lo, hi, e, e')

    add-indexed :
        (lo hi : List (Item B)) (k : Bytes)
        → entries q ≡ lo ++ hi
        → is_empty k ≡ false
        → NameFits k (lo ++ (x ∷ hi)) (lookup k (add_item prio x q).tm)
    unfolding add_item
    add-indexed lo hi k e ne =
        let old : NameFits k (lo ++ hi) (lookup k q.tm) =
          subst (λ xs. NameFits k xs (lookup k q.tm)) e (h.indexed k ne) in
        elim (Bool-cases (is_empty x.name)) [
          | inl t ↦ rw t (NameFits-put k x lo hi (lookup k q.tm) (not_empty-ne x.name k t ne) old)
          | inr t ↦
              rw (t, lookup-insert x.name k x q.tm)
                (elim (same-cases x.name k) [
                  | inl (f, p) ↦ rw f (
                      subst (λ n. NameFits n (lo ++ (x ∷ hi)) (some x)) p
                        (NameFits-put_self x lo hi (
                          subst (λ n. All (NameNot n) (lo ++ hi)) (sym p)
                            (subst (NameFits k (lo ++ hi))
                              (ap (λ n. lookup n q.tm) (sym p) ∙ can.name_free t) old))))
                  | inr (f, p) ↦ rw f (NameFits-put k x lo hi (lookup k q.tm) p old)
                ])
        ]

    -- Adding an entry that can be added.
    pub add_item-QueueInv : QueueInv (add_item prio x q)
    add_item-QueueInv =
        let t = treap_insert_lem q.root x prio h.ordered h.heap can.new_id in
        let (lo, hi, e, e') = entries-add in
        record {
          ordered = unfold add_item in t.0;
          heap = unfold add_item in t.1;
          distinct = rw e' (
              Unique-put x lo hi (subst (All (IdNot x.id)) e can.new_id)
                (subst Unique e h.distinct));
          issued = rw e' (
              unfold add_item in
              All-put (IdAtMost q.id_gen) x lo hi can.was_issued
                (subst (All (IdAtMost q.id_gen)) e h.issued));
          counted =
              unfold add_item in
              omega (
                arith,
                h.counted,
                ap length e,
                ap length e',
                length-append lo hi,
                length-append lo (x ∷ hi),
              );
          measured =
              rw e'
                (All-put IsMeasured x lo hi can.length_fits (subst (All IsMeasured) e h.measured));
          indexed = λ k ne. rw e' (add-indexed lo hi k e ne);
        }
