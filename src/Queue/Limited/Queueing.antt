-- ===== src/Queue/Limited/Queueing.antt =====
-- `queueBroadcast` of queue.go: what it links, and what it replaces.
mod Shrinks
unfoldable pub use Shrinks.*
use mori.Prelude.{ℕ, ◌+◌, ◌≤◌, ◌≡◌, refl, sym, ap, ◌∙◌, subst}
use mori.Prelude.{inl, inr, true, false, not, ◌&&◌, Option, none, some}
use mori.Prelude.{List, [], ◌∷◌, arith, if◌then◌else◌}
use mori.Prelude.{Bool-contra, on_if}
use mori.Prelude.{All, All-imp}
use mori.Prelude.{Bytes, same_refl}
use mori.Prelude.Assoc.{lookup, remove, lookup-remove}
use mori.Queue.Item.{Item}
use mori.Queue.Treap.{ascend_from}
use mori.Queue.Treap.Lists.{IdNot, Unique, In, All-In}
use mori.Queue.Treap.Updates.{All-remove_id}
use mori.Queue.Treap.Searches.{until_stop, skip_before, ascend_from-until}
use mori.Queue.Limited.{
  BroadcastOps, LimitedQueue, is_empty, delete_item, add_item, finish, name_of, is_plain, is_unique,
  voided, finish_all, delete_all, invalidate, new_item, queue_broadcast,
}
use mori.Queue.Treap.{before}
use mori.Queue.Limited.Invariant.{
  entries, IdAtMost, NameNot, NameFits, In-remove_id, In-put_self, QueueInv, entries-delete,
  delete_item-QueueInv, finish-QueueInv, CanAdd, entries-add, add_item-QueueInv,
}

module _ {B : Type 0} (ops : BroadcastOps B) where
  open ops use {message, named, unique, invalidates}

  next_id-QueueInv :
      (q : LimitedQueue B) → QueueInv ops q → QueueInv ops (record q { id_gen = q.id_gen + 1 })
  next_id-QueueInv q h = record {
    ordered = h.ordered;
    heap = h.heap;
    distinct = h.distinct;
    issued =
        All-imp (IdAtMost q.id_gen) (IdAtMost (q.id_gen + 1)) (entries q)
          (λ x le. omega (arith, le)) h.issued;
    counted = h.counted;
    measured = h.measured;
    indexed = h.indexed;
  }

  can_add :
      (b : B) (initial_transmits id : ℕ) (q : LimitedQueue B)
      → All (IdNot id) (entries q)
      → id ≤ q.id_gen
      → (is_empty (name_of ops b) ≡ false → lookup (name_of ops b) q.tm ≡ none)
      → CanAdd ops (new_item ops b initial_transmits id) q
  unfolding new_item
  can_add b initial_transmits id q n le free = record {
    new_id = n;
    was_issued = le;
    length_fits = refl;
    name_free = free;
  }

  -- In a consistent queue the entries with the name of a linked one are that one.
  pub only_one :
      (x : Item B) (q : LimitedQueue B)
      → QueueInv ops q
      → In x (entries q)
      → is_empty x.name ≡ false
      → All (λ y. (y.name ≡ x.name) → y.id ≡ x.id) (entries q)
  only_one x q h i ne = go (lookup x.name q.tm) (h.indexed x.name ne)
    where
      go :
          (o : Option (Item B))
          → NameFits x.name (entries q) o
          → All (λ y. (y.name ≡ x.name) → y.id ≡ x.id) (entries q)
      go none f = absurd (All-In (NameNot x.name) x (entries q) f i refl)
      go (some z) (j, e, one) =
          All-imp (λ y. (y.name ≡ x.name) → y.id ≡ z.id) (λ y. (y.name ≡ x.name) → y.id ≡ x.id)
            (entries q)
            (λ y f p.
              f p ∙ sym (All-In (λ y. (y.name ≡ x.name) → y.id ≡ z.id) x (entries q) one i refl))
            one

  -- Queueing a broadcast on a consistent queue keeps the invariant of the queue. The new entry is
  -- linked, under an id that no entry had, and if it has a name then no other entry has that name.
  pub queue_broadcast-effect :
      (prio : ℕ) (b : B) (initial_transmits : ℕ) (q : LimitedQueue B)
      → QueueInv ops q
      → let lb = new_item ops b initial_transmits (q.id_gen + 1) in
        let q' = queue_broadcast ops prio b initial_transmits q in
        QueueInv ops q'
        × In lb (entries q')
        × All (IdNot (q.id_gen + 1)) (entries q)
        × (is_empty lb.name ≡ false
            → All (λ y. (y.name ≡ lb.name) → y.id ≡ q.id_gen + 1) (entries q'))
  unfolding queue_broadcast
  queue_broadcast-effect prio b initial_transmits q h =
      let id = q.id_gen + 1 in
      let lb = new_item ops b initial_transmits id in
      let q0 = record q { id_gen = id } in
      let unused =
        All-imp (IdAtMost q.id_gen) (IdNot id) (entries q) (λ x le e. absurd (omega (arith, le, e)))
          h.issued in
      let (s, free) = invalidate-Shrunk ops b lb.name q0 (next_id-QueueInv q h) in
      let can : CanAdd ops lb (invalidate ops b lb.name q0) =
        can_add b initial_transmits id (invalidate ops b lb.name q0) (s.fewer (IdNot id) unused)
          (omega (arith, s.same_ids)) free in
      let inv = add_item-QueueInv ops prio lb (invalidate ops b lb.name q0) s.inv can in
      let (lo, hi, e, e') = entries-add ops prio lb (invalidate ops b lb.name q0) s.inv can in
      let linked = subst (In lb) (sym e') (In-put_self lb lo hi) in
      (
        inv,
        linked,
        unused,
        λ ne. only_one lb (add_item prio lb (invalidate ops b lb.name q0)) inv linked ne,
      )
