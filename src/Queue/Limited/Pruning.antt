-- ===== src/Queue/Limited/Pruning.antt =====
-- `Prune` of queue.go.
use mori.Prelude.{ℕ, zero, suc, ◌+◌, ◌≤◌, ◌<◌, ◌≡◌, refl, sym, ap, ◌∙◌, subst}
use mori.Prelude.{inl, Option, none, some}
use mori.Prelude.{List, [], ◌∷◌, ◌++◌, append_assoc, arith, ltb}
use mori.Prelude.{ltb→lt, on_if}
use mori.Prelude.{length, take, drop, take-append-drop, length-append}
use mori.Prelude.{All, All-append_right}
use mori.Queue.Item.{Item}
use mori.Queue.Treap.{Treap, leaf, node, treap_max}
use mori.Queue.Treap.Lists.{to_list, After, Ordered, IdNot, Unique, In, remove_id, Unique-apart}
use mori.Queue.Limited.{BroadcastOps, LimitedQueue, delete_item, finish, prune_loop, prune}
use mori.Queue.Limited.Invariant.{
  entries, In-put_self, QueueInv, entries-delete, delete_item-QueueInv, finish-QueueInv,
}

take-all : {A : Type 0} (n : ℕ) (xs : List A) → length xs ≤ n → take n xs ≡ xs
take-all zero [] h = refl
take-all zero (x ∷ xs) h = absurd (omega arith)
take-all (suc n) [] h = refl
take-all (suc n) (x ∷ xs) h = ap (λ t. x ∷ t) (take-all n xs (omega arith))

take-front : {A : Type 0} (n : ℕ) (xs ys : List A) → n ≤ length xs → take n (xs ++ ys) ≡ take n xs
take-front zero xs ys h = refl
take-front (suc n) [] ys h = absurd (omega arith)
take-front (suc n) (x ∷ xs) ys h = ap (λ t. x ∷ t) (take-front n xs ys (omega arith))

module _ {B : Type 0} where
  -- `treapMax` is the last entry.
  abbrev pub EndsIn : Option (Item B) → List (Item B) → Type 0
  EndsIn none xs = xs ≡ []
  EndsIn (some x) xs = (lo : List (Item B)) × (xs ≡ lo ++ (x ∷ []))

  behind-EndsIn :
      (o : Option (Item B)) (lo : List (Item B)) (y : Item B) (xs : List (Item B))
      → 1 ≤ length xs
      → EndsIn o xs
      → EndsIn o (lo ++ (y ∷ xs))
  behind-EndsIn none lo y xs h e = absurd (omega (arith, ap length e))
  behind-EndsIn (some x) lo y xs h (mid, e) =
      (lo ++ (y ∷ mid), ap (λ t. lo ++ (y ∷ t)) e ∙ sym (append_assoc lo (y ∷ mid) (x ∷ [])))

  pub treap_max-EndsIn : (t : Treap B) → EndsIn (treap_max t) (to_list t)
  unfolding treap_max to_list
  treap_max-EndsIn leaf = refl
  treap_max-EndsIn (node l x p leaf) = (to_list l, refl)
  treap_max-EndsIn (node l x p (node rl y q rr)) =
      behind-EndsIn (treap_max (node rl y q rr)) (to_list l) x (to_list rl ++ (y ∷ to_list rr))
        (omega (arith, length-append (to_list rl) (y ∷ to_list rr)))
        (treap_max-EndsIn (node rl y q rr))

  Ordered-split : (xs ys : List (Item B)) → Ordered (xs ++ ys) → All (λ x. All (After x) ys) xs
  Ordered-split [] ys h = tt
  Ordered-split (x ∷ xs) ys (a, h) = (All-append_right (After x) xs ys a, Ordered-split xs ys h)

  remove_last :
      (x : Item B) (lo : List (Item B)) → All (IdNot x.id) lo → remove_id x.id (lo ++ (x ∷ [])) ≡ lo
  unfolding remove_id
  remove_last x [] h = ground arith
  remove_last x (y ∷ lo) (n, h) = ground (arith, remove_last x lo h, n)

module _ {B : Type 0} (ops : BroadcastOps B) where
  abbrev Kept : ℕ → LimitedQueue B → LimitedQueue B → Type 0
  Kept r q q' = QueueInv ops q' × (entries q' ≡ take r (entries q))

  prune_round :
      (fuel r : ℕ) (q : LimitedQueue B)
      → QueueInv ops q
      → q.n ≤ suc fuel
      → r < q.n
      → ((q' : LimitedQueue B) → QueueInv ops q' → q'.n ≤ fuel → Kept r q' (prune_loop fuel r q'))
      → (o : Option (Item B)) → EndsIn o (entries q)
      → Kept r q (elim o as (λ _. LimitedQueue B) [
        | none ↦ q
        | some x ↦ prune_loop fuel r (delete_item x (finish x.b q))
      ])
  prune_round fuel r q h f more rec none e = absurd (omega (arith, h.counted, ap length e))
  prune_round fuel r q h f more rec (some x) (lo, e) =
      let linked : In x (entries q) = subst (In x) (sym e) (In-put_self x lo []) in
      let q1 = finish x.b q in
      let h1 = finish-QueueInv ops x.b q h in
      let linked1 : In x (entries q1) = unfold finish in linked in
      let same_entries : entries q1 ≡ entries q = unfold finish in refl in
      let rest : entries (delete_item x q1) ≡ lo =
        entries-delete ops x q1 h1 linked1
        ∙ ap (remove_id x.id) (same_entries ∙ e)
        ∙ remove_last x lo (Unique-apart lo (x ∷ []) x (subst Unique e h.distinct) (inl refl)) in
      let h2 = delete_item-QueueInv ops x q1 h1 linked1 in
      let size : length (entries q) ≡ length lo + 1 = ap length e ∙ length-append lo (x ∷ []) in
      let (inv, kept) =
        rec (delete_item x q1) h2 (omega (arith, h2.counted, ap length rest, h.counted, size)) in
      (
        inv,
        kept
            ∙ ap (take r) rest
            ∙ sym (take-front r lo (x ∷ []) (omega (arith, h.counted, size)))
            ∙ ap (take r) (sym e),
      )

  prune_loop-take :
      (fuel r : ℕ) (q : LimitedQueue B)
      → QueueInv ops q
      → q.n ≤ fuel
      → Kept r q (prune_loop fuel r q)
  unfolding prune_loop
  prune_loop-take zero r q h f = (h, sym (take-all r (entries q) (omega (arith, h.counted))))
  prune_loop-take (suc fuel) r q h f =
      on_if (Kept r q) (ltb r q.n)
        (λ t.
          prune_round fuel r q h f (ltb→lt r q.n t) (λ q' h' f'. prune_loop-take fuel r q' h' f')
            (treap_max q.root) (treap_max-EndsIn q.root))
        (λ e. (h, sym (take-all r (entries q) (ground (arith, e, h.counted)))))

  -- On a consistent queue, Prune keeps the invariant and the first entries in the queue's order, as
  -- many as it is told to retain or all if there are fewer. Each entry that is kept orders before
  -- each that is discarded, by less: fewer transmissions first, then longer messages, then newer
  -- ones. So they are not the latest messages, as the comment of Prune has it.
  pub prune-take :
      (max_retain : ℕ) (q : LimitedQueue B)
      → QueueInv ops q
      → QueueInv ops (prune max_retain q)
        × (entries (prune max_retain q) ≡ take max_retain (entries q))
        × All (λ x. All (After x) (drop max_retain (entries q))) (entries (prune max_retain q))
  unfolding prune
  prune-take max_retain q h =
      let (inv, kept) = prune_loop-take q.n max_retain q h (omega arith) in
      let split : take max_retain (entries q) ++ drop max_retain (entries q) ≡ entries q =
        take-append-drop max_retain (entries q) in
      let apart =
        Ordered-split (take max_retain (entries q)) (drop max_retain (entries q))
          (subst Ordered (sym split) h.ordered) in
      (inv, kept, subst (All (λ x. All (After x) (drop max_retain (entries q)))) (sym kept) apart)
