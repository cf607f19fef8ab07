-- ===== src/Security/Keyring/Operations/Keys.antt =====
-- Lists of keys, with one moved to the front or taken out.
use mori.Prelude.{◌≡◌, sym, ap, ◌∙◌}
use mori.Prelude.{◌≢◌, inl, inr, true, false, not, ◌&&◌, ◌||◌, none, some}
use mori.Prelude.{List, [], ◌∷◌, arith}
use mori.Prelude.{Bytes, same, same_refl, same_iff, same-cases, same_comm}
use mori.Security.Keyring.{Keyring, has_key, others, get_primary_key, remove_first}
use mori.Security.Keyring.Laws.{
  DistinctKeys, has_key-others, has_key-remove_first, DistinctKeys-remove_first,
}

-- Moving a key to the front keeps the set of keys.
pub moved_front-has_key :
    (x key : Bytes) (ks : List Bytes)
    → has_key key ks ≡ true
    → has_key x (key ∷ others key ks) ≡ has_key x ks
unfolding has_key
moved_front-has_key x key ks e = elim (same-cases key x) [
  | inl (t, p) ↦ ground (arith, t, ap (λ y. has_key y ks) p, e)
  | inr (f, n) ↦ ground (arith, f, has_key-others x key ks, same_comm x key)
]

-- Putting the primary key in front of the others again, less a key.
pub primary_first-has_key :
    (x key primary : Bytes) (rest : List Bytes)
    → DistinctKeys rest
    → key ≢ primary
    → has_key x (primary ∷ others primary (primary ∷ remove_first key rest))
      ≡ (has_key x (primary ∷ rest) && not (same key x))
unfolding has_key others
primary_first-has_key x key primary rest d n = elim (same-cases primary x) [
  | inl (t, p) ↦ ground (arith, t, (same_iff key x).0, λ (q : key ≡ x). n (q ∙ sym p))
  | inr (f, m) ↦ ground (
    arith,
    f,
    same_refl primary,
    has_key-others x primary (remove_first key rest),
    has_key-remove_first x key rest d,
    same_comm x primary,
  )
]

pub left_distinct :
    (key primary : Bytes) (rest : List Bytes)
    → has_key primary rest ≡ false
    → DistinctKeys rest
    → DistinctKeys (primary ∷ remove_first key rest)
left_distinct key primary rest n d = (
  ground (arith, has_key-remove_first primary key rest d, n),
  DistinctKeys-remove_first key rest d,
)

-- Taking out a key that is not there changes nothing.
pub unknown-has_key :
    (x key : Bytes) (ks : List Bytes)
    → has_key key ks ≡ false
    → has_key x ks ≡ (has_key x ks && not (same key x))
unknown-has_key x key ks n = elim (same-cases key x) [
  | inl (t, p) ↦ ground (arith, ap (λ y. has_key y ks) p, n)
  | inr (f, m) ↦ ground (arith, f)
]

pub behind-has_key :
    (key primary : Bytes) (rest : List Bytes)
    → same key primary ≡ false
    → has_key key rest ≡ false
    → has_key key (primary ∷ rest) ≡ false
unfolding has_key
behind-has_key key primary rest f i = ground (arith, f, i, same_comm key primary)

pub known-has_key :
    (x key : Bytes) (ks : List Bytes)
    → has_key key ks ≡ true
    → has_key x ks ≡ (has_key x ks || same key x)
known-has_key x key ks i = elim (same-cases key x) [
  | inl (t, p) ↦ ground (arith, ap (λ y. has_key y ks) p, t, i)
  | inr (f, n) ↦ ground (arith, f)
]

head-has_key : (q : Bytes) (ks : List Bytes) → has_key q (q ∷ ks) ≡ true
unfolding has_key
head-has_key q ks = ground (arith, same_refl q)

pub front_primary :
    {C : Type 0} (k : Keyring C) {key : Bytes} {ks : List Bytes}
    → k.keys ≡ key ∷ ks
    → get_primary_key k ≡ some key
unfolding get_primary_key
front_primary k e = rw e

pub primary_front :
    {C : Type 0} (k : Keyring C) (key : Bytes)
    → get_primary_key k ≡ some key
    → (ks : List Bytes) × (k.keys ≡ key ∷ ks)
unfolding get_primary_key
primary_front k key p = go k.keys p
  where
    go :
        (xs : List Bytes)
        → (elim xs [ [] ↦ none | q ∷ qs ↦ some q ]) ≡ some key
        → (ks : List Bytes) × (xs ≡ key ∷ ks)
    go [] e = cc
    go (q ∷ qs) e = (qs, cc)

pub primary_known :
    {C : Type 0} (k : Keyring C) (q : Bytes) → get_primary_key k ≡ some q → has_key q k.keys ≡ true
primary_known k q z = let (ks, e) = primary_front k q z in ap (has_key q) e ∙ head-has_key q ks
