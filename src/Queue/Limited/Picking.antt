-- ===== src/Queue/Limited/Picking.antt =====
-- Which entry a round of `GetBroadcasts` sends.
use mori.Prelude.{ℕ, suc, ◌+◌, ◌^◌, ◌<◌, ◌≡◌, refl, sym, ap, ◌∙◌, subst}
use mori.Prelude.{inl, inr, Bool, true, false, not, ◌&&◌, ◌||◌, Option, none, some}
use mori.Prelude.{List, [], ◌∷◌, arith, ltb, leb, ◌==◌, if◌then◌else◌}
use mori.Prelude.{Bool-cases}
use mori.Prelude.{length, length-append}
use mori.Prelude.{All}
use mori.Queue.Item.{Item, less}
use mori.Queue.Treap.{Treap, leaf, node, treap_ceil, treap_min}
use mori.Queue.Treap.Lists.{to_list, After, Ordered, IsOrdered}
use mori.Queue.Treap.Searches.{first, treap_ceil-first}
use mori.Queue.Limited.{BroadcastOps, LimitedQueue, tier_bound, skip_loop, in_tier, pick}
use mori.Queue.Limited.Invariant.{entries, IsMeasured, QueueInv, IdAtMost}

module _ {B : Type 0} (ops : BroadcastOps B) where
  -- An entry of the tier whose message has at most `free` bytes.
  unfoldable pub fits : ℕ → ℕ → Item B → Bool
  fits transmits free x = (x.transmits == transmits) && leb (length (ops.message x.b)) free

  abbrev Sound : Item B → Type 0
  Sound x = IsMeasured ops x × (x.id < 2 ^ 63)

  above_bound :
      (x y : Item B) (transmits free : ℕ)
      → Sound x
      → not (less x (tier_bound ops y transmits free))
        ≡ (ltb transmits x.transmits || fits transmits free x)
  unfolding less tier_bound fits
  above_bound x y transmits free (e, small) = ground (arith, e, small)

  later_tier :
      (x : Item B) (transmits free : ℕ) (xs : List (Item B))
      → ltb transmits x.transmits ≡ true
      → All (After x) xs
      → first (fits transmits free) xs ≡ none
  unfolding less fits
  later_tier x transmits free [] t h = refl
  later_tier x transmits free (y ∷ ys) t (a, h) =
      let off : fits transmits free y ≡ false = ground (arith, t, a) in
      rw off (later_tier x transmits free ys t h)

  behind_tier :
      (x : Item B) (transmits free : ℕ)
      → ltb transmits x.transmits ≡ true
      → ((x.transmits == transmits) ≡ false) × (fits transmits free x ≡ false)
  unfolding fits
  behind_tier x transmits free t = ground (arith, t)

  fits-tier :
      (x : Item B) (transmits free : ℕ)
      → fits transmits free x ≡ true
      → (x.transmits == transmits) ≡ true
  unfolding fits
  fits-tier x transmits free t = ground (arith, t)

  pub taken :
      (b : Bool) (y x : Item B) (o : Option (Item B))
      → b ≡ true
      → (if b then some y else o) ≡ some x
      → y ≡ x
  taken true y x o t e = cc e
  taken false y x o t e = absurd (cc t)

  treap_min-none : (t : Treap B) → treap_min t ≡ none → to_list t ≡ []
  unfolding treap_min to_list
  treap_min-none leaf e = refl
  treap_min-none (node leaf x p r) e = absurd (cc e)
  treap_min-none (node (node l y q s) x p r) e = absurd (
      omega (
        arith,
        ap length (treap_min-none (node l y q s) e),
        length-append (to_list l) (y ∷ to_list s),
      ))

  first-holds :
      (p : Item B → Bool) (P : Item B → Type 0) (x : Item B) (xs : List (Item B))
      → All P xs
      → first p xs ≡ some x
      → P x × (p x ≡ true)
  first-holds p P x [] h e = absurd (cc e)
  first-holds p P x (y ∷ ys) (q, h) e = elim (Bool-cases (p y)) [
    | inl t ↦ subst (λ z. P z × (p z ≡ true)) (taken (p y) y x (first p ys) t e) (q, t)
    | inr f ↦ first-holds p P x ys h (ground (arith, f, e))
  ]

  tier-first :
      (y : Item B) (transmits free : ℕ) (xs : List (Item B))
      → Ordered xs
      → All Sound xs
      → in_tier ops transmits (first (λ x. not (less x (tier_bound ops y transmits free))) xs)
        ≡ first (fits transmits free) xs
  unfolding in_tier
  tier-first y transmits free [] h s = refl
  tier-first y transmits free (x ∷ xs) (a, h) (s, ss) =
      let bound = above_bound x y transmits free s in
      let rec = tier-first y transmits free xs h ss in
      elim (Bool-cases (ltb transmits x.transmits)) [
        | inl t ↦
            let off = behind_tier x transmits free t in
            rw (bound, t, off.0, off.1, later_tier x transmits free xs t a) refl
        | inr f ↦ elim (Bool-cases (fits transmits free x)) [
          | inl t ↦ rw (bound, f, t, fits-tier x transmits free t) refl
          | inr g ↦ rw (bound, f, g) rec
        ]
      ]

  -- In a sound queue no message has outgrown its entry, so none is skipped.
  no_skip :
      (fuel : ℕ) (t : Treap B) (transmits free : ℕ) (y : Item B) (o : Option (Item B))
      → o ≡ first (λ x. not (less x (tier_bound ops y transmits free))) (to_list t)
      → All Sound (to_list t)
      → skip_loop ops (suc fuel) t transmits free o ≡ o
  unfolding skip_loop
  no_skip fuel t transmits free y none e s = refl
  no_skip fuel t transmits free y (some x) e s =
      let (sound, above) =
        first-holds (λ x. not (less x (tier_bound ops y transmits free))) Sound x (to_list t) s
          (sym e) in
      let stays : (x.transmits == transmits && ltb free (length (ops.message x.b))) ≡ false =
        unfold fits in ground (arith, above_bound x y transmits free sound, above) in
      rw stays refl

  pick_from :
      (o : Option (Item B)) (transmits free : ℕ) (q : LimitedQueue B)
      → (o ≡ none → entries q ≡ [])
      → IsOrdered q.root
      → All Sound (entries q)
      → elim o as (λ _. Option (Item B)) [
        | none ↦ none
        | some x ↦ in_tier ops transmits (
            skip_loop ops
              (q.n + 1)
              q.root
              transmits
              free
              (treap_ceil q.root (tier_bound ops x transmits free)))
      ]
        ≡ first (fits transmits free) (entries q)
  pick_from none transmits free q e h s = sym (ap (first (fits transmits free)) (e refl))
  pick_from (some y) transmits free q e h s =
      let count : q.n + 1 ≡ suc q.n = omega arith in
      let found = treap_ceil-first q.root (tier_bound ops y transmits free) h in
      rw count (
        ap (in_tier ops transmits) (
          no_skip q.n q.root transmits free y (treap_ceil q.root (tier_bound ops y transmits free))
            found s
          ∙ found)
        ∙ tier-first y transmits free (entries q) h s)

  All-Sound :
      (xs : List (Item B)) (n : ℕ)
      → n < 2 ^ 63
      → All (IdAtMost n) xs
      → All (IsMeasured ops) xs
      → All Sound xs
  All-Sound [] n small i m = tt
  All-Sound (x ∷ xs) n small (i, is) (m, ms) =
      ((m, omega (arith, i, small)), All-Sound xs n small is ms)

  -- A round picks the first entry of its tier, in the queue's order, that fits the bytes left: the
  -- longest such message, and the newest of these. It picks none only if none of the tier fits. The
  -- queue is consistent and has issued fewer than 2^63 ids.
  pub pick-first :
      (transmits free : ℕ) (q : LimitedQueue B)
      → QueueInv ops q
      → q.id_gen < 2 ^ 63
      → pick ops transmits free q ≡ first (fits transmits free) (entries q)
  unfolding pick
  pick-first transmits free q h small =
      pick_from (treap_min q.root) transmits free q (treap_min-none q.root) h.ordered
        (All-Sound (entries q) q.id_gen small h.issued h.measured)
