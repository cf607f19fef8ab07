-- ===== src/Queue/Limited/Calls.antt =====
-- A whole call of `GetBroadcasts`.
use mori.Prelude.{ℕ, ◌+◌, ◌-◌, ◌^◌, ◌≤◌, ◌<◌, ◌≡◌, refl, sym, ap, subst}
use mori.Prelude.{◌⊎◌, inl, inr, true, Option, none, some}
use mori.Prelude.{List, [], ◌∷◌, ◌++◌, arith, ◌==◌}
use mori.Prelude.{Bool-cases}
use mori.Prelude.{length, length-append}
use mori.Prelude.{All, All-append, All-imp}
use mori.Queue.Item.{Item, less}
use mori.Queue.Treap.{Treap, leaf, node, treap_min, treap_max}
use mori.Queue.Treap.Lists.{to_list, Before, After, Ordered}
use mori.Queue.Limited.{
  BroadcastOps, LimitedQueue, transmits_of, get_transmit_range, gather, start, retransmit_limit,
  get_broadcasts,
}
use mori.Queue.Treap.Lists.{Ordered-Before}
use mori.Queue.Limited.Invariant.{entries, QueueInv}
use mori.Queue.Limited.Pruning.{EndsIn, treap_max-EndsIn}
use mori.Queue.Limited.Holding.{add_all-QueueInv}
use mori.Queue.Limited.Sending.{cost, Passed, Begun, gather-Ended}

module _ {B : Type 0} where
  abbrev StartsWith : Option (Item B) → List (Item B) → Type 0
  StartsWith none xs = xs ≡ []
  StartsWith (some x) xs = (rest : List (Item B)) × (xs ≡ x ∷ rest)

  append-StartsWith :
      (o : Option (Item B)) (xs ys : List (Item B))
      → 1 ≤ length xs
      → StartsWith o xs
      → StartsWith o (xs ++ ys)
  append-StartsWith none xs ys h e = absurd (omega (arith, ap length e))
  append-StartsWith (some x) xs ys h (rest, e) = (rest ++ ys, ap (λ t. t ++ ys) e)

  -- `treapMin` is the first entry.
  treap_min-StartsWith : (t : Treap B) → StartsWith (treap_min t) (to_list t)
  unfolding treap_min to_list
  treap_min-StartsWith leaf = refl
  treap_min-StartsWith (node leaf x p r) = (to_list r, refl)
  treap_min-StartsWith (node (node l y q s) x p r) =
      append-StartsWith (treap_min (node l y q s)) (to_list l ++ (y ∷ to_list s)) (x ∷ to_list r)
        (omega (arith, length-append (to_list l) (y ∷ to_list s)))
        (treap_min-StartsWith (node l y q s))

  less-transmits : (x y : Item B) → less x y ≡ true → x.transmits ≤ y.transmits
  unfolding less
  less-transmits x y h = ground (arith, h)

  abbrev AtLeast : ℕ → Item B → Type 0
  AtLeast n x = n ≤ x.transmits

  abbrev AtMost : ℕ → Item B → Type 0
  AtMost n x = x.transmits ≤ n

module _ {B : Type 0} (ops : BroadcastOps B) where
  first_least :
      (o : Option (Item B)) (xs : List (Item B))
      → StartsWith o xs
      → Ordered xs
      → All (AtLeast (transmits_of ops o)) xs
  unfolding transmits_of
  first_least none xs e h = subst (All (AtLeast 0)) (sym e) tt
  first_least (some x) xs (rest, e) h =
      let (a, h') : Ordered (x ∷ rest) = subst Ordered e h in
      subst (All (AtLeast x.transmits)) (sym e)
        (omega arith, All-imp (After x) (AtLeast x.transmits) rest (λ y l. less-transmits x y l) a)

  last_most :
      (o : Option (Item B)) (xs : List (Item B))
      → EndsIn o xs
      → Ordered xs
      → All (AtMost (transmits_of ops o)) xs
  unfolding transmits_of
  last_most none xs e h = subst (All (AtMost 0)) (sym e) tt
  last_most (some x) xs (lo, e) h = subst (All (AtMost x.transmits)) (sym e) (
      All-append (AtMost x.transmits) lo (x ∷ [])
        (All-imp (Before x) (AtMost x.transmits) lo (λ y l. less-transmits y x l)
          (Ordered-Before lo x [] (subst Ordered e h)))
        (omega arith, tt))

module _ {B : Type 0} (ops : BroadcastOps B) (overhead limit : ℕ) (q : LimitedQueue B)
    (h : QueueInv ops q) (small : q.id_gen < 2 ^ 63) where
  abbrev lowest : ℕ
  lowest = transmits_of ops (treap_min q.root)

  abbrev highest : ℕ
  highest = transmits_of ops (treap_max q.root)

  start-Begun : Begun ops overhead limit highest lowest (start ops q)
  start-Begun = record {
    sound = record { inv = h; small = small; budget = refl; within = omega arith; ready = tt };
    passed =
        All-imp (AtLeast lowest) (Passed ops overhead limit lowest 0) (entries q)
          (λ x le lt. absurd (omega (arith, le, lt)))
          (first_least ops (treap_min q.root) (entries q) (treap_min-StartsWith q.root) h.ordered);
    low = last_most ops (treap_max q.root) (entries q) (treap_max-EndsIn q.root) h.ordered;
  }

  -- The rounds of GetBroadcasts, one for each entry and each tier, are enough to end its loop: the
  -- messages taken cost what was counted and no more than the limit, and when it ends either the
  -- budget has no room behind the overhead or none of the entries left fits it. The queue is
  -- consistent and has issued fewer than 2^63 ids.
  pub rounds_enough :
      (transmit_limit : ℕ)
      → let g =
          gather ops
            (q.n + (highest + 1 - lowest))
            overhead
            limit
            transmit_limit
            highest
            lowest
            (start ops q) in
        (g.bytes_used ≡ cost overhead g.to_send)
        × (g.bytes_used ≤ limit)
        × ((limit ≤ g.bytes_used + overhead)
            ⊎ All
                (λ x. limit < g.bytes_used + (overhead + length (ops.message x.b)))
                (entries g.queue))
  rounds_enough transmit_limit =
      let (s, e) =
        gather-Ended ops overhead limit (q.n + (highest + 1 - lowest)) transmit_limit highest lowest
          (start ops q) start-Begun (omega arith) in
      (s.budget, s.within, e)

  -- GetBroadcasts keeps the invariant of the queue, and the messages that it returns, each with the
  -- overhead, fit the limit. The queue is consistent and has issued fewer than 2^63 ids.
  pub get_broadcasts-fits :
      (log10_ceil : ℕ → ℕ) (num_nodes : ℕ) (draws : ℕ → ℕ)
      → let (q', sent) = get_broadcasts ops log10_ceil num_nodes draws overhead limit q in
        QueueInv ops q' × (cost overhead sent ≤ limit)
  unfolding get_broadcasts get_transmit_range
  get_broadcasts-fits log10_ceil num_nodes draws = elim (Bool-cases (q.n == 0)) [
    | inl t ↦ rw t (h, omega arith)
    | inr t ↦
        let transmit_limit = retransmit_limit ops log10_ceil q.retransmit_mult num_nodes in
        let g =
          gather ops (q.n + (highest + 1 - lowest)) overhead limit transmit_limit highest lowest
            (start ops q) in
        let (s, e) =
          gather-Ended ops overhead limit (q.n + (highest + 1 - lowest)) transmit_limit highest
            lowest (start ops q) start-Begun (omega arith) in
        rw t (
          (add_all-QueueInv ops draws g.reinsert g.queue s.inv s.ready).0,
          omega (arith, s.budget, s.within),
        )
  ]
