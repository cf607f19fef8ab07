-- ===== src/Queue/Limited/Queueing/Shrinks.antt =====
-- Taking out the entries that a new broadcast replaces (queue.go).
use mori.Prelude.{◌≡◌, refl, sym, ap, ◌∙◌, subst}
use mori.Prelude.{inl, inr, true, false, not, ◌&&◌, Option, none, some}
use mori.Prelude.{List, [], ◌∷◌, arith, if◌then◌else◌}
use mori.Prelude.{Bool-contra, on_if}
use mori.Prelude.{All}
use mori.Prelude.{Bytes, same_refl}
use mori.Prelude.Assoc.{lookup, remove, lookup-remove}
use mori.Queue.Item.{Item}
use mori.Queue.Treap.{ascend_from}
use mori.Queue.Treap.Lists.{IdNot, Unique, In}
use mori.Queue.Treap.Updates.{All-remove_id}
use mori.Queue.Treap.Searches.{until_stop, skip_before, ascend_from-until}
use mori.Queue.Limited.{
  BroadcastOps, LimitedQueue, is_empty, delete_item, finish, is_plain, is_unique, voided,
  finish_all, delete_all, invalidate,
}
use mori.Queue.Treap.{before}
use mori.Queue.Limited.Invariant.{
  entries, NameFits, In-remove_id, QueueInv, entries-delete, delete_item-QueueInv, finish-QueueInv,
}

module _ {B : Type 0} where
  until_stop-all : (xs : List (Item B)) → until_stop (λ _. true) (skip_before none xs) ≡ xs
  until_stop-all xs = ap (until_stop (λ _. true)) (no_skip xs) ∙ runs_on xs
    where
      no_skip : (ys : List (Item B)) → skip_before none ys ≡ ys
      no_skip [] = refl
      no_skip (y ∷ ys) = unfold before in refl

      runs_on : (ys : List (Item B)) → until_stop (λ _. true) ys ≡ ys
      runs_on [] = refl
      runs_on (y ∷ ys) = ap (λ t. y ∷ t) (runs_on ys)

module _ {B : Type 0} (ops : BroadcastOps B) where
  open ops use {message, named, unique, invalidates}

  -- What taking entries out of a queue keeps.
  pub record Shrunk (q q' : LimitedQueue B) : Type 1 where
    pub inv : QueueInv ops q'
    pub same_ids : q'.id_gen ≡ q.id_gen
    pub fewer : (P : Item B → Type 0) → All P (entries q) → All P (entries q')

  delete_item-Shrunk :
      (x : Item B) (q : LimitedQueue B)
      → QueueInv ops q
      → In x (entries q)
      → Shrunk q (delete_item x q)
  delete_item-Shrunk x q h i = record {
    inv = delete_item-QueueInv ops x q h i;
    same_ids = unfold delete_item in refl;
    fewer = λ P ps.
        subst (All P) (sym (entries-delete ops x q h i)) (All-remove_id P x.id (entries q) ps);
  }

  finish-Shrunk : (b : B) (q : LimitedQueue B) → QueueInv ops q → Shrunk q (finish b q)
  finish-Shrunk b q h = record {
    inv = finish-QueueInv ops b q h;
    same_ids = unfold finish in refl;
    fewer = λ P ps. unfold finish in ps;
  }

  then_Shrunk : {q q1 q2 : LimitedQueue B} → Shrunk q q1 → Shrunk q1 q2 → Shrunk q q2
  then_Shrunk s t = record {
    inv = t.inv;
    same_ids = t.same_ids ∙ s.same_ids;
    fewer = λ P ps. t.fewer P (s.fewer P ps);
  }

  finish_all-entries :
      (xs : List (Item B)) (q : LimitedQueue B)
      → QueueInv ops q
      → Shrunk q (finish_all ops xs q) × (entries (finish_all ops xs q) ≡ entries q)
  unfolding finish_all finish
  finish_all-entries [] q h = (record { inv = h; same_ids = refl; fewer = λ P ps. ps }, refl)
  finish_all-entries (x ∷ xs) q h =
      let (s, e) = finish_all-entries xs (finish x.b q) (finish-QueueInv ops x.b q h) in
      (then_Shrunk (finish-Shrunk x.b q h) s, e)

  delete_all-Shrunk :
      (xs : List (Item B)) (q : LimitedQueue B)
      → QueueInv ops q
      → Unique xs
      → All (λ x. In x (entries q)) xs
      → Shrunk q (delete_all ops xs q)
  unfolding delete_all
  delete_all-Shrunk [] q h u i = record { inv = h; same_ids = refl; fewer = λ P ps. ps }
  delete_all-Shrunk (x ∷ xs) q h (a, u) (i, is) =
      let s = delete_item-Shrunk x q h i in
      then_Shrunk s (delete_all-Shrunk xs (delete_item x q) s.inv u (still_in x q h i xs a is))
    where
      still_in :
          (x : Item B) (q : LimitedQueue B)
          → QueueInv ops q
          → In x (entries q)
          → (ys : List (Item B)) → All (IdNot x.id) ys
          → All (λ y. In y (entries q)) ys
          → All (λ y. In y (entries (delete_item x q))) ys
      still_in x q h i [] a is = tt
      still_in x q h i (y ∷ ys) (n, a) (j, js) = (
        subst (In y) (sym (entries-delete ops x q h i))
            (In-remove_id y x.id (entries q) j (λ e. n e)),
        still_in x q h i ys a js,
      )

  voided-In :
      (b : B) (P : Item B → Type 0) (xs : List (Item B)) → All P xs → All P (voided ops b xs)
  unfolding voided
  voided-In b P [] h = tt
  voided-In b P (x ∷ xs) (p, h) =
      on_if (All P) (is_plain ops x.b && invalidates b x.b) (λ _. (p, voided-In b P xs h))
        (λ _. voided-In b P xs h)

  voided-Unique : (b : B) (xs : List (Item B)) → Unique xs → Unique (voided ops b xs)
  unfolding voided
  voided-Unique b [] h = tt
  voided-Unique b (x ∷ xs) (a, h) =
      on_if Unique (is_plain ops x.b && invalidates b x.b)
        (λ _. (voided-In b (IdNot x.id) xs a, voided-Unique b xs h)) (λ _. voided-Unique b xs h)

  In-All : (xs ys : List (Item B)) → ((x : Item B) → In x xs → In x ys) → All (λ x. In x ys) xs
  In-All [] ys f = tt
  In-All (x ∷ xs) ys f = (f x (inl refl), In-All xs ys (λ y i. f y (inr i)))

  pub gone_from :
      (name : Bytes) (q : LimitedQueue B) (old : Item B)
      → old.name ≡ name
      → is_empty name ≡ false
      → lookup name (delete_item old q).tm ≡ none
  unfolding delete_item
  gone_from name q old own ne =
      subst (λ n. lookup name (if is_empty n then q.tm else remove n q.tm) ≡ none) (sym own)
        (rw (ne, lookup-remove name name q.tm, same_refl name) refl)

  replace_named :
      (name : Bytes) (q : LimitedQueue B) (o : Option (Item B))
      → QueueInv ops q
      → lookup name q.tm ≡ o
      → NameFits name (entries q) o
      → is_empty name ≡ false
      → let q' = elim o as (λ _. LimitedQueue B) [
        | none ↦ q
        | some old ↦ delete_item old (finish old.b q)
      ] in
        Shrunk q q' × (lookup name q'.tm ≡ none)
  replace_named name q none h e fits ne =
      (record { inv = h; same_ids = refl; fewer = λ P ps. ps }, e)
  replace_named name q (some old) h e (i, own, one) ne =
      let q1 = finish old.b q in
      let s1 = finish-Shrunk old.b q h in
      let i1 : In old (entries q1) = unfold finish in i in
      (then_Shrunk s1 (delete_item-Shrunk old q1 s1.inv i1), gone_from name q1 old own ne)

  drop_voided :
      (b : B) (q : LimitedQueue B)
      → QueueInv ops q
      → let gone = voided ops b (ascend_from q.root none (λ _. true)) in
        Shrunk q (delete_all ops gone (finish_all ops gone q))
  drop_voided b q h =
      let walked : ascend_from q.root none (λ _. true) ≡ entries q =
        ascend_from-until q.root none (λ _. true) h.ordered ∙ until_stop-all (entries q) in
      let gone = voided ops b (ascend_from q.root none (λ _. true)) in
      let (s, e) = finish_all-entries gone q h in
      then_Shrunk s (
        delete_all-Shrunk gone (finish_all ops gone q) s.inv
          (voided-Unique b (ascend_from q.root none (λ _. true))
            (subst Unique (sym walked) h.distinct))
          (voided-In b (λ x. In x (entries (finish_all ops gone q)))
            (ascend_from q.root none (λ _. true))
            (In-All (ascend_from q.root none (λ _. true)) (entries (finish_all ops gone q))
              (λ x i. subst (In x) (walked ∙ sym e) i))))

  -- `invalidate` takes entries out, and then none has the name of the new broadcast.
  pub invalidate-Shrunk :
      (b : B) (name : Bytes) (q : LimitedQueue B)
      → QueueInv ops q
      → Shrunk q (invalidate ops b name q)
        × (is_empty name ≡ false → lookup name (invalidate ops b name q).tm ≡ none)
  unfolding invalidate
  invalidate-Shrunk b name q h =
      on_if (λ q'. Shrunk q q' × (is_empty name ≡ false → lookup name q'.tm ≡ none))
        (not (is_empty name))
        (λ t.
          let ne : is_empty name ≡ false = ground (arith, t) in
          let r = replace_named name q (lookup name q.tm) h refl (h.indexed name ne) ne in
          (r.0, λ _. r.1))
        (λ f.
          let empty : is_empty name ≡ true = ground (arith, f) in
          on_if (λ q'. Shrunk q q' × (is_empty name ≡ false → lookup name q'.tm ≡ none))
            (not (is_unique ops b)) (λ _. (drop_voided b q h, λ ne. absurd (Bool-contra empty ne)))
            (λ _. (
              record { inv = h; same_ids = refl; fewer = λ P ps. ps },
              λ ne. absurd (Bool-contra empty ne),
            )))
