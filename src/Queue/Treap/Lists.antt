-- ===== src/Queue/Treap/Lists.antt =====
-- The entries of a treap from left to right, ordered lists, and the heap.
use mori.Prelude.{ℕ, ◌≤◌, ◌≡◌, refl, sym, ap, subst}
use mori.Prelude.{◌≢◌, ◌⊎◌, inl, inr, true, false}
use mori.Prelude.{List, [], ◌∷◌, ◌++◌, arith, ◌==◌, if◌then◌else◌}
use mori.Prelude.{Bool-cases}
use mori.Prelude.{All, All-append, All-append_left, All-append_right, All-imp}
use mori.Queue.Item.{Item, less, less_trans}
use mori.Queue.Treap.{Treap, leaf, node}

module _ {B : Type 0} where
  unfoldable pub to_list : Treap B → List (Item B)
  to_list leaf = []
  to_list (node l x p r) = to_list l ++ (x ∷ to_list r)

  abbrev pub Before : Item B → Item B → Type 0
  Before k x = less x k ≡ true

  abbrev pub After : Item B → Item B → Type 0
  After k x = less k x ≡ true

  abbrev pub NotBefore : Item B → Item B → Type 0
  NotBefore k x = less x k ≡ false

  -- Each entry orders before all that follow it.
  abbrev pub Ordered : List (Item B) → Type 0
  Ordered [] = Unit
  Ordered (x ∷ xs) = All (After x) xs × Ordered xs

  abbrev pub IsOrdered : Treap B → Type 0
  IsOrdered t = Ordered (to_list t)

  -- No entry has a higher priority than the one above it.
  abbrev pub TopAtMost : ℕ → Treap B → Type 0
  TopAtMost p leaf = Unit
  TopAtMost p (node l x q r) = q ≤ p

  abbrev pub IsHeap : Treap B → Type 0
  IsHeap leaf = Unit
  IsHeap (node l x p r) = TopAtMost p l × TopAtMost p r × IsHeap l × IsHeap r

  pub Ordered-append_left : (xs ys : List (Item B)) → Ordered (xs ++ ys) → Ordered xs
  Ordered-append_left [] ys h = tt
  Ordered-append_left (x ∷ xs) ys (a, h) =
      (All-append_left (After x) xs ys a, Ordered-append_left xs ys h)

  pub Ordered-append_right : (xs ys : List (Item B)) → Ordered (xs ++ ys) → Ordered ys
  Ordered-append_right [] ys h = h
  Ordered-append_right (x ∷ xs) ys (a, h) = Ordered-append_right xs ys h

  -- What stands left of an entry orders before it.
  pub Ordered-Before :
      (xs : List (Item B)) (k : Item B) (ys : List (Item B))
      → Ordered (xs ++ (k ∷ ys))
      → All (Before k) xs
  Ordered-Before [] k ys h = tt
  Ordered-Before (x ∷ xs) k ys (a, h) =
      ((All-append_right (After x) xs (k ∷ ys) a).0, Ordered-Before xs k ys h)

  pub Ordered-join :
      (xs : List (Item B)) (k : Item B) (ys : List (Item B))
      → Ordered xs
      → All (Before k) xs
      → All (After k) ys
      → Ordered ys
      → Ordered (xs ++ (k ∷ ys))
  Ordered-join [] k ys hx b a hy = (a, hy)
  Ordered-join (x ∷ xs) k ys (ax, hx) (bx, b) a hy = (
    All-append (After x) xs (k ∷ ys) ax
        (bx, All-imp (After k) (After x) ys (λ y q. less_trans x k y bx q) a),
    Ordered-join xs k ys hx b a hy,
  )

  pub Before-of_Before :
      (x k : Item B) (xs : List (Item B)) → All (Before x) xs → less x k ≡ true → All (Before k) xs
  Before-of_Before x k xs h p = All-imp (Before x) (Before k) xs (λ y q. less_trans y x k q p) h

  pub NotBefore-of_After :
      (x k : Item B) (xs : List (Item B))
      → All (After x) xs
      → less x k ≡ false
      → All (NotBefore k) xs
  NotBefore-of_After x k xs h p = All-imp (After x) (NotBefore k) xs (λ y q. over y q) h
    where
      over : (y : Item B) → less x y ≡ true → less y k ≡ false
      over y q = elim (Bool-cases (less y k)) [ inl e ↦ cc (less_trans x y k q e) | inr e ↦ e ]

  abbrev pub IdNot : ℕ → Item B → Type 0
  IdNot n x = x.id ≢ n

  -- No two entries have the same id.
  abbrev pub Unique : List (Item B) → Type 0
  Unique [] = Unit
  Unique (x ∷ xs) = All (IdNot x.id) xs × Unique xs

  abbrev pub In : Item B → List (Item B) → Type 0
  In x [] = ⊥
  In x (y ∷ ys) = (y ≡ x) ⊎ In x ys

  unfoldable pub remove_id : ℕ → List (Item B) → List (Item B)
  remove_id n [] = []
  remove_id n (x ∷ xs) = if x.id == n then xs else x ∷ remove_id n xs

  pub Unique-append_left : (xs ys : List (Item B)) → Unique (xs ++ ys) → Unique xs
  Unique-append_left [] ys h = tt
  Unique-append_left (x ∷ xs) ys (a, h) =
      (All-append_left (IdNot x.id) xs ys a, Unique-append_left xs ys h)

  pub Unique-append_right : (xs ys : List (Item B)) → Unique (xs ++ ys) → Unique ys
  Unique-append_right [] ys h = h
  Unique-append_right (x ∷ xs) ys (a, h) = Unique-append_right xs ys h

  pub All-In : (P : Item B → Type 0) (x : Item B) (xs : List (Item B)) → All P xs → In x xs → P x
  All-In P x [] ps i = elim i [ ]
  All-In P x (y ∷ ys) (p, ps) (inl e) = subst P e p
  All-In P x (y ∷ ys) (p, ps) (inr i) = All-In P x ys ps i

  pub In-append : (x : Item B) (xs ys : List (Item B)) → In x (xs ++ ys) → In x xs ⊎ In x ys
  In-append x [] ys i = inr i
  In-append x (y ∷ xs) ys (inl e) = inl (inl e)
  In-append x (y ∷ xs) ys (inr i) = elim (In-append x xs ys i) [
    | inl j ↦ inl (inr j)
    | inr j ↦ inr j
  ]

  -- An entry of the second part has another id than all of the first.
  pub Unique-apart :
      (xs ys : List (Item B)) (x : Item B) → Unique (xs ++ ys) → In x ys → All (IdNot x.id) xs
  Unique-apart [] ys x h i = tt
  Unique-apart (y ∷ xs) ys x (a, h) i = (
    λ e. All-In (IdNot y.id) x ys (All-append_right (IdNot y.id) xs ys a) i (sym e),
    Unique-apart xs ys x h i,
  )

  pub remove_id-append_left :
      (x : Item B) (xs ys : List (Item B))
      → In x xs
      → remove_id x.id (xs ++ ys) ≡ remove_id x.id xs ++ ys
  unfolding remove_id
  remove_id-append_left x [] ys i = elim i [ ]
  remove_id-append_left x (y ∷ xs) ys i = elim (Bool-cases (y.id == x.id)) [
    | inl e ↦ rw e
    | inr e ↦ rw e (ap (λ z. y ∷ z) (remove_id-append_left x xs ys (later e i)))
  ]
    where
      later : (y.id == x.id) ≡ false → (y ≡ x) ⊎ In x xs → In x xs
      later e (inl p) = absurd (ground (arith, e, ap (λ (z : Item B). z.id) p))
      later e (inr j) = j

  pub remove_id-append_right :
      (n : ℕ) (xs ys : List (Item B))
      → All (IdNot n) xs
      → remove_id n (xs ++ ys) ≡ xs ++ remove_id n ys
  unfolding remove_id
  remove_id-append_right n [] ys h = refl
  remove_id-append_right n (x ∷ xs) ys (p, h) = ground (arith, p, remove_id-append_right n xs ys h)
