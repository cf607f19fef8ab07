-- ===== src/Queue/Limited/Invariant/Lists.antt =====
-- Lists of entries, with one put in or taken out.
use mori.Prelude.{ℕ, suc, ◌+◌, ◌≤◌, ◌≡◌, refl, sym, ap, ◌∙◌, subst}
use mori.Prelude.{◌≢◌, ◌⊎◌, inl, inr, true, false, Option, none, some}
use mori.Prelude.{List, [], ◌∷◌, ◌++◌, arith, ◌==◌}
use mori.Prelude.{==_iff, Bool-contra, on_if}
use mori.Prelude.{length}
use mori.Prelude.{All, All-imp}
use mori.Prelude.{Bytes}
use mori.Queue.Item.{Item}
use mori.Queue.Treap.Lists.{to_list, IdNot, Unique, In, remove_id, All-In}
use mori.Queue.Treap.Updates.{All-remove_id}
use mori.Queue.Limited.{LimitedQueue, is_empty}

pub not_empty-ne : (s k : Bytes) → is_empty s ≡ true → is_empty k ≡ false → s ≢ k
not_empty-ne s k a b e = Bool-contra a (ap is_empty e ∙ b)

module _ {B : Type 0} where
  abbrev pub entries : LimitedQueue B → List (Item B)
  entries q = to_list q.root

  abbrev pub NameNot : Bytes → Item B → Type 0
  NameNot k x = x.name ≢ k

  -- The map has the one entry of a name, or no entry has it.
  abbrev pub NameFits : Bytes → List (Item B) → Option (Item B) → Type 0
  NameFits k xs none = All (NameNot k) xs
  NameFits k xs (some x) = In x xs × (x.name ≡ k) × All (λ y. (y.name ≡ k) → y.id ≡ x.id) xs

  abbrev pub IdAtMost : ℕ → Item B → Type 0
  IdAtMost n x = x.id ≤ n

  pub In-remove_id :
      (y : Item B) (n : ℕ) (xs : List (Item B)) → In y xs → y.id ≢ n → In y (remove_id n xs)
  unfolding remove_id
  In-remove_id y n [] i d = elim i [ ]
  In-remove_id y n (x ∷ xs) (inl e) d =
      on_if (In y) (x.id == n)
        (λ t. absurd (d (sym (ap (λ (z : Item B). z.id) e) ∙ (==_iff x.id n).0 t))) (λ _. inl e)
  In-remove_id y n (x ∷ xs) (inr i) d =
      on_if (In y) (x.id == n) (λ _. i) (λ _. inr (In-remove_id y n xs i d))

  pub length-remove_id :
      (x : Item B) (xs : List (Item B)) → In x xs → length (remove_id x.id xs) + 1 ≡ length xs
  unfolding remove_id
  length-remove_id x [] i = elim i [ ]
  length-remove_id x (y ∷ xs) (inl e) =
      rw ((==_iff y.id x.id).1 (ap (λ (z : Item B). z.id) e)) (omega arith)
  length-remove_id x (y ∷ xs) (inr i) =
      on_if (λ (zs : List (Item B)). length zs + 1 ≡ suc (length xs)) (y.id == x.id)
        (λ _. omega arith) (λ _. omega (arith, length-remove_id x xs i))

  -- What is left after taking an entry out has other ids.
  pub remove_id-IdNot :
      (x : Item B) (xs : List (Item B)) → Unique xs → In x xs → All (IdNot x.id) (remove_id x.id xs)
  unfolding remove_id
  remove_id-IdNot x [] u i = elim i [ ]
  remove_id-IdNot x (y ∷ xs) (a, u) i =
      on_if (All (IdNot x.id)) (y.id == x.id)
        (λ t. subst (λ n. All (IdNot n) xs) ((==_iff y.id x.id).0 t) a)
        (λ f. (λ e. Bool-contra ((==_iff y.id x.id).1 e) f, remove_id-IdNot x xs u (later f i)))
    where
      later : (y.id == x.id) ≡ false → (y ≡ x) ⊎ In x xs → In x xs
      later f (inl e) = absurd (Bool-contra ((==_iff y.id x.id).1 (ap (λ (z : Item B). z.id) e)) f)
      later f (inr j) = j

  pub Unique-eq :
      (x y : Item B) (xs : List (Item B)) → Unique xs → In x xs → In y xs → x.id ≡ y.id → x ≡ y
  Unique-eq x y [] u i j e = elim i [ ]
  Unique-eq x y (z ∷ zs) (a, u) (inl p) (inl q) e = sym p ∙ q
  Unique-eq x y (z ∷ zs) (a, u) (inl p) (inr j) e =
      absurd (All-In (IdNot z.id) y zs a j (sym e ∙ sym (ap (λ (w : Item B). w.id) p)))
  Unique-eq x y (z ∷ zs) (a, u) (inr i) (inl q) e =
      absurd (All-In (IdNot z.id) x zs a i (e ∙ sym (ap (λ (w : Item B). w.id) q)))
  Unique-eq x y (z ∷ zs) (a, u) (inr i) (inr j) e = Unique-eq x y zs u i j e

  -- Taking out an entry of another name.
  pub NameFits-remove_id :
      (k : Bytes) (x : Item B) (xs : List (Item B)) (o : Option (Item B))
      → Unique xs
      → In x xs
      → x.name ≢ k
      → NameFits k xs o
      → NameFits k (remove_id x.id xs) o
  NameFits-remove_id k x xs none u i n f = All-remove_id (NameNot k) x.id xs f
  NameFits-remove_id k x xs (some y) u i n (j, e, one) = (
    In-remove_id y x.id xs j
        (λ p. n (ap (λ (w : Item B). w.name) (Unique-eq x y xs u i j (sym p)) ∙ e)),
    e,
    All-remove_id (λ z. (z.name ≡ k) → z.id ≡ y.id) x.id xs one,
  )

module _ {B : Type 0} where
  -- An entry put between two parts of a list.
  pub All-put :
      (P : Item B → Type 0) (x : Item B) (lo hi : List (Item B))
      → P x
      → All P (lo ++ hi)
      → All P (lo ++ (x ∷ hi))
  All-put P x [] hi p h = (p, h)
  All-put P x (y ∷ lo) hi p (q, h) = (q, All-put P x lo hi p h)

  In-put : (y x : Item B) (lo hi : List (Item B)) → In y (lo ++ hi) → In y (lo ++ (x ∷ hi))
  In-put y x [] hi i = inr i
  In-put y x (z ∷ lo) hi (inl e) = inl e
  In-put y x (z ∷ lo) hi (inr i) = inr (In-put y x lo hi i)

  pub In-put_self : (x : Item B) (lo hi : List (Item B)) → In x (lo ++ (x ∷ hi))
  In-put_self x [] hi = inl refl
  In-put_self x (z ∷ lo) hi = inr (In-put_self x lo hi)

  pub Unique-put :
      (x : Item B) (lo hi : List (Item B))
      → All (IdNot x.id) (lo ++ hi)
      → Unique (lo ++ hi)
      → Unique (lo ++ (x ∷ hi))
  Unique-put x [] hi n u = (All-imp (IdNot x.id) (IdNot x.id) hi (λ _ p. p) n, u)
  Unique-put x (y ∷ lo) hi (n, ns) (a, u) =
      (All-put (IdNot y.id) x lo hi (λ e. n (sym e)) a, Unique-put x lo hi ns u)

  pub NameFits-put :
      (k : Bytes) (x : Item B) (lo hi : List (Item B)) (o : Option (Item B))
      → x.name ≢ k
      → NameFits k (lo ++ hi) o
      → NameFits k (lo ++ (x ∷ hi)) o
  NameFits-put k x lo hi none n f = All-put (NameNot k) x lo hi n f
  NameFits-put k x lo hi (some y) n (i, e, one) = (
    In-put y x lo hi i,
    e,
    All-put (λ z. (z.name ≡ k) → z.id ≡ y.id) x lo hi (λ p. absurd (n p)) one,
  )

  pub NameFits-put_self :
      (x : Item B) (lo hi : List (Item B))
      → All (NameNot x.name) (lo ++ hi)
      → NameFits x.name (lo ++ (x ∷ hi)) (some x)
  NameFits-put_self x lo hi free = (
    In-put_self x lo hi,
    refl,
    All-put (λ z. (z.name ≡ x.name) → z.id ≡ x.id) x lo hi (λ _. refl)
        (All-imp (NameNot x.name) (λ z. (z.name ≡ x.name) → z.id ≡ x.id) (lo ++ hi)
          (λ z n e. absurd (n e)) free),
  )
