-- ===== src/Queue/Limited/Sending.antt =====
-- The rounds of `GetBroadcasts` of queue.go.
use mori.Prelude.{ℕ, zero, suc, ◌+◌, ◌-◌, ◌^◌, ◌≤◌, ◌<◌, ◌≡◌, refl, sym, ap, subst}
use mori.Prelude.{◌⊎◌, inl, inr, Bool, true, false, not, Option, none, some}
use mori.Prelude.{List, [], ◌∷◌, ◌++◌, arith, ltb, leb, ◌==◌, if◌then◌else◌}
use mori.Prelude.{ltb→lt, Bool-cases, on_if}
use mori.Prelude.{length}
use mori.Prelude.{All}
use mori.Prelude.{Bytes}
use mori.Queue.Item.{Item}
use mori.Queue.Treap.Lists.{In, remove_id}
use mori.Queue.Treap.Updates.{All-remove_id}
use mori.Queue.Treap.Searches.{first}
use mori.Queue.Limited.{BroadcastOps, delete_item, finish, Gathering, take_item, pick, gather}
use mori.Queue.Limited.Invariant.{
  entries, QueueInv, entries-delete, delete_item-QueueInv, finish-QueueInv, length-remove_id,
}
use mori.Queue.Limited.Picking.{fits, pick-first, taken}
use mori.Queue.Limited.Holding.{Ready, hold-Ready, finish-Ready, delete_item-Ready}
use mori.Queue.Limited.{Gathering}

-- What the messages take of the budget.
abbrev pub cost : ℕ → List Bytes → ℕ
cost overhead [] = 0
cost overhead (m ∷ ms) = overhead + length m + cost overhead ms

cost-append :
    (overhead : ℕ) (ms : List Bytes) (m : Bytes)
    → cost overhead (ms ++ (m ∷ [])) ≡ cost overhead ms + (overhead + length m)
cost-append overhead [] m = omega arith
cost-append overhead (a ∷ ms) m = omega (arith, cost-append overhead ms m)

module _ {B : Type 0} (ops : BroadcastOps B) (overhead limit : ℕ) where
  -- What holds in every round.
  pub record Sound (g : Gathering ops) : Type 0 where
    pub inv : QueueInv ops g.queue
    pub small : g.queue.id_gen < 2 ^ 63
    pub budget : g.bytes_used ≡ cost overhead g.to_send
    pub within : g.bytes_used ≤ limit
    pub ready : Ready ops g.queue g.reinsert

  -- An entry that no longer fits.
  abbrev pub TooLong : ℕ → Item B → Type 0
  TooLong used x = limit < used + (overhead + length (ops.message x.b))

  abbrev pub Passed : ℕ → ℕ → Item B → Type 0
  Passed transmits used x = x.transmits < transmits → TooLong used x

  -- What a round that sends `x` does, whether it is held back or finished.
  pub record Took (x : Item B) (g g' : Gathering ops) : Type 0 where
    pub sound : Sound g'
    pub left : entries g'.queue ≡ remove_id x.id (entries g.queue)
    pub used : g'.bytes_used ≡ g.bytes_used + (overhead + length (ops.message x.b))

  take_item-Took :
      (transmit_limit : ℕ) (x : Item B) (g : Gathering ops)
      → Sound g
      → In x (entries g.queue)
      → g.bytes_used + (overhead + length (ops.message x.b)) ≤ limit
      → Took x g (take_item ops overhead transmit_limit x g)
  unfolding take_item
  take_item-Took transmit_limit x g s i room =
      let q = delete_item x g.queue in
      let h = delete_item-QueueInv ops x g.queue s.inv i in
      let gone = entries-delete ops x g.queue s.inv i in
      let small : q.id_gen < 2 ^ 63 = unfold delete_item in s.small in
      let paid : g.bytes_used + (overhead + length (ops.message x.b))
          ≡ cost overhead (g.to_send ++ (ops.message x.b ∷ [])) =
        omega (arith, s.budget, cost-append overhead g.to_send (ops.message x.b)) in
      let held = hold-Ready ops x g.queue s.inv i (x.transmits + 1) g.reinsert s.ready in
      on_if (Took x g) (not (ltb (x.transmits + 1) transmit_limit))
        (λ _. record {
          sound = record {
            inv = finish-QueueInv ops x.b q h;
            small = unfold finish in small;
            budget = paid;
            within = room;
            ready =
                finish-Ready ops x.b q g.reinsert
                  (delete_item-Ready ops x g.queue s.inv i g.reinsert s.ready);
          };
          left = unfold finish in gone;
          used = refl;
        })
        (λ _. record {
          sound = record { inv = h; small = small; budget = paid; within = room; ready = held };
          left = gone;
          used = refl;
        })

  -- Why a run of rounds ends: the budget is used up, or none of the entries left fits it.
  abbrev pub Ended : Gathering ops → Type 0
  Ended g = (limit ≤ g.bytes_used + overhead) ⊎ All (TooLong g.bytes_used) (entries g.queue)

  abbrev pub rounds : ℕ → ℕ → Gathering ops → ℕ
  rounds max_tr transmits g = g.queue.n + (max_tr + 1 - transmits)

  abbrev pub Low : ℕ → Item B → Type 0
  Low max_tr x = x.transmits ≤ max_tr

  -- What a run of rounds may start from.
  pub record Begun (max_tr transmits : ℕ) (g : Gathering ops) : Type 0 where
    pub sound : Sound g
    pub passed : All (Passed transmits g.bytes_used) (entries g.queue)
    pub low : All (Low max_tr) (entries g.queue)

  All-Passed :
      (max_tr transmits used : ℕ) (xs : List (Item B))
      → max_tr < transmits
      → All (Passed transmits used) xs
      → All (Low max_tr) xs
      → All (TooLong used) xs
  All-Passed max_tr transmits used [] h p l = tt
  All-Passed max_tr transmits used (x ∷ xs) h (p, ps) (l, ls) =
      (p (omega (arith, l, h)), All-Passed max_tr transmits used xs h ps ls)

  unfit :
      (x : Item B) (transmits used : ℕ)
      → fits ops transmits (limit - used - overhead) x ≡ false
      → x.transmits ≡ transmits
      → TooLong used x
  unfolding fits
  unfit x transmits used f e = ground (arith, f, e)

  first_taken :
      (b : Bool) (y : Item B) (o : Option (Item B))
      → b ≡ true
      → (if b then some y else o) ≡ none
      → ⊥
  first_taken true y o t e = cc e
  first_taken false y o t e = cc t

  -- A tier of which none fits is passed.
  pass_tier :
      (transmits used : ℕ) (xs : List (Item B))
      → first (fits ops transmits (limit - used - overhead)) xs ≡ none
      → All (Passed transmits used) xs
      → All (Passed (transmits + 1) used) xs
  pass_tier transmits used [] e p = tt
  pass_tier transmits used (x ∷ xs) e (p, ps) =
      elim (Bool-cases (fits ops transmits (limit - used - overhead) x)) [
        | inl t ↦ absurd (
            first_taken (fits ops transmits (limit - used - overhead) x) x
              (first (fits ops transmits (limit - used - overhead)) xs) t e)
        | inr f ↦ (
          λ lt. elim (Bool-cases (ltb x.transmits transmits)) [
            | inl b ↦ p (ltb→lt x.transmits transmits b)
            | inr b ↦ unfit x transmits used f (ground (arith, b, lt))
          ],
          pass_tier transmits used xs (ground (arith, f, e)) ps,
        )
      ]

  still-Passed :
      (transmits used more : ℕ) (xs : List (Item B))
      → All (Passed transmits used) xs
      → All (Passed transmits (used + more)) xs
  still-Passed transmits used more [] p = tt
  still-Passed transmits used more (x ∷ xs) (p, ps) =
      (λ lt. omega (arith, p lt), still-Passed transmits used more xs ps)

  fits_room :
      (x : Item B) (transmits used : ℕ)
      → (limit - used - overhead == 0) ≡ false
      → fits ops transmits (limit - used - overhead) x ≡ true
      → used + (overhead + length (ops.message x.b)) ≤ limit
  unfolding fits
  fits_room x transmits used e t = ground (arith, e, t)

  found-In :
      (p : Item B → Bool) (x : Item B) (xs : List (Item B))
      → first p xs ≡ some x
      → In x xs × (p x ≡ true)
  found-In p x [] e = absurd (cc e)
  found-In p x (y ∷ ys) e = elim (Bool-cases (p y)) [
    | inl t ↦
        let same : y ≡ x = taken ops (p y) y x (first p ys) t e in
        (inl same, subst (λ z. p z ≡ true) same t)
    | inr f ↦ let (i, t) = found-In p x ys (ground (arith, f, e)) in (inr i, t)
  ]

  take_item-Begun :
      (transmit_limit max_tr transmits : ℕ) (x : Item B) (g : Gathering ops)
      → Begun max_tr transmits g
      → In x (entries g.queue)
      → g.bytes_used + (overhead + length (ops.message x.b)) ≤ limit
      → let g' = take_item ops overhead transmit_limit x g in
        Begun max_tr transmits g' × (rounds max_tr transmits g' + 1 ≤ rounds max_tr transmits g)
  take_item-Begun transmit_limit max_tr transmits x g b i room =
      let t = take_item-Took transmit_limit x g b.sound i room in
      let g' = take_item ops overhead transmit_limit x g in
      let more = overhead + length (ops.message x.b) in
      (
        record {
          sound = t.sound;
          passed =
              rw (t.left, t.used)
                (still-Passed transmits g.bytes_used more (remove_id x.id (entries g.queue))
                  (All-remove_id (Passed transmits g.bytes_used) x.id (entries g.queue) b.passed));
          low = rw t.left (All-remove_id (Low max_tr) x.id (entries g.queue) b.low);
        },
        omega (
          arith,
          t.sound.inv.counted,
          ap length t.left,
          length-remove_id x (entries g.queue) i,
          b.sound.inv.counted,
        ),
      )

  abbrev pub Done : Gathering ops → Type 0
  Done g = Sound g × Ended g

  gather_round :
      (fuel transmit_limit max_tr transmits : ℕ) (g : Gathering ops)
      → Begun max_tr transmits g
      → rounds max_tr transmits g ≤ suc fuel
      → transmits ≤ max_tr
      → (limit - g.bytes_used - overhead == 0) ≡ false
      → ((tr' : ℕ) (g' : Gathering ops)
          → Begun max_tr tr' g'
          → rounds max_tr tr' g' ≤ fuel
          → Done (gather ops fuel overhead limit transmit_limit max_tr tr' g'))
      → (o : Option (Item B))
      → o ≡ first (fits ops transmits (limit - g.bytes_used - overhead)) (entries g.queue)
      → Done (elim o as (λ _. Gathering ops) [
        | none ↦ gather ops fuel overhead limit transmit_limit max_tr (transmits + 1) g
        | some x ↦
            gather ops fuel overhead limit transmit_limit max_tr transmits
              (take_item ops overhead transmit_limit x g)
      ])
  gather_round fuel transmit_limit max_tr transmits g b f tier nz rest none e =
      rest (transmits + 1) g
        (record {
          sound = b.sound;
          passed = pass_tier transmits g.bytes_used (entries g.queue) (sym e) b.passed;
          low = b.low;
        })
        (omega (arith, f, tier))
  gather_round fuel transmit_limit max_tr transmits g b f tier nz rest (some x) e =
      let (i, t) =
        found-In (fits ops transmits (limit - g.bytes_used - overhead)) x (entries g.queue)
          (sym e) in
      let (b', r) =
        take_item-Begun transmit_limit max_tr transmits x g b i
          (fits_room x transmits g.bytes_used nz t) in
      rest transmits (take_item ops overhead transmit_limit x g) b' (omega (arith, r, f))

  pub gather-Ended :
      (fuel transmit_limit max_tr transmits : ℕ) (g : Gathering ops)
      → Begun max_tr transmits g
      → rounds max_tr transmits g ≤ fuel
      → let g' = gather ops fuel overhead limit transmit_limit max_tr transmits g in
        Sound g' × Ended g'
  unfolding gather
  gather-Ended zero transmit_limit max_tr transmits g b f = (
    b.sound,
    inr (
        All-Passed max_tr transmits g.bytes_used (entries g.queue) (omega (arith, f)) b.passed
          b.low),
  )
  gather-Ended (suc fuel) transmit_limit max_tr transmits g b f =
      on_if Done (not (leb transmits max_tr))
        (λ t. (
          b.sound,
          inr (
              All-Passed max_tr transmits g.bytes_used (entries g.queue) (ground (arith, t))
                b.passed b.low),
        ))
        (λ tier.
          on_if Done (limit - g.bytes_used - overhead == 0)
            (λ z. (b.sound, inl (ground (arith, z))))
            (λ nz.
              gather_round fuel transmit_limit max_tr transmits g b f (ground (arith, tier)) nz
                (λ tr' g' b' f'. gather-Ended fuel transmit_limit max_tr tr' g' b' f')
                (pick ops transmits (limit - g.bytes_used - overhead) g.queue)
                (pick-first ops transmits (limit - g.bytes_used - overhead) g.queue b.sound.inv
                  b.sound.small)))
