-- ===== src/Security/Keyring/Laws.antt =====
-- The consistency of a keyring of keyring.go.
use mori.Prelude.{◌≡◌, refl, sym, ap}
use mori.Prelude.{Bool, true, false, not, ◌&&◌, ◌||◌, Option, some}
use mori.Prelude.{List, [], ◌∷◌, ◌++◌, arith}
use mori.Prelude.{on_if}
use mori.Prelude.{All}
use mori.Prelude.{Bytes, same, same_refl, same→eq, same_iff, same_comm}
use mori.Security.Keyring.{
  Keyring, key_ok, validate_key, has_key, others, remove_first, make_aeads, install_keys,
}

abbrev pub DistinctKeys : List Bytes → Type 0
DistinctKeys [] = Unit
DistinctKeys (k ∷ ks) = (has_key k ks ≡ false) × DistinctKeys ks

abbrev pub IsValidKey : Bytes → Type 0
IsValidKey key = validate_key key ≡ true

pub has_key-others :
    (x primary : Bytes) (ks : List Bytes)
    → has_key x (others primary ks) ≡ (has_key x ks && not (same x primary))
unfolding has_key others
has_key-others x primary [] = refl
has_key-others x primary (k ∷ ks) =
    on_if (λ ys. has_key x ys ≡ ((same k x || has_key x ks) && not (same x primary)))
      (not (same k primary)) (λ t. ground (arith, t, has_key-others x primary ks, differ t))
      (λ f. ground (
        arith,
        f,
        has_key-others x primary ks,
        ap (same x) (same→eq k primary (not_false f)),
        same_comm k x,
      ))
  where
    not_false : {b : Bool} → not b ≡ false → b ≡ true
    not_false h = ground (arith, h)

    differ : not (same k primary) ≡ true → same k x ≡ true → same x primary ≡ false
    differ t e = rw (sym (same→eq k x e)) (ground (arith, t))

DistinctKeys-others :
    (primary : Bytes) (ks : List Bytes) → DistinctKeys ks → DistinctKeys (others primary ks)
unfolding others has_key
DistinctKeys-others primary [] d = tt
DistinctKeys-others primary (k ∷ ks) (n, d) =
    on_if DistinctKeys (not (same k primary))
      (λ t. (ground (arith, has_key-others k primary ks, n), DistinctKeys-others primary ks d))
      (λ f. DistinctKeys-others primary ks d)

valid-others :
    (primary : Bytes) (ks : List Bytes) → All IsValidKey ks → All IsValidKey (others primary ks)
unfolding others
valid-others primary [] v = tt
valid-others primary (k ∷ ks) (v, vs) =
    on_if (All IsValidKey) (not (same k primary)) (λ t. (v, valid-others primary ks vs))
      (λ f. valid-others primary ks vs)

pub valid-has_key :
    (x : Bytes) (ks : List Bytes) → All IsValidKey ks → has_key x ks ≡ true → IsValidKey x
unfolding has_key
valid-has_key x [] v h = cc
valid-has_key x (k ∷ ks) (v, vs) h = ground (arith, v, valid-has_key x ks vs, same_iff k x, h)

pub has_key-append :
    (x key : Bytes) (ks : List Bytes) → has_key x (ks ++ (key ∷ [])) ≡ (has_key x ks || same key x)
unfolding has_key
has_key-append x key [] = ground arith
has_key-append x key (k ∷ ks) = ground (arith, has_key-append x key ks)

pub DistinctKeys-append :
    (key : Bytes) (ks : List Bytes)
    → has_key key ks ≡ false
    → DistinctKeys ks
    → DistinctKeys (ks ++ (key ∷ []))
unfolding has_key
DistinctKeys-append key [] n d = (refl, tt)
DistinctKeys-append key (k ∷ ks) n (e, d) = (
  ground (arith, has_key-append k key ks, same_comm k key, n, e),
  DistinctKeys-append key ks (ground (arith, n)) d,
)

pub has_key-remove_first :
    (x key : Bytes) (ks : List Bytes)
    → DistinctKeys ks
    → has_key x (remove_first key ks) ≡ (has_key x ks && not (same key x))
unfolding has_key remove_first
has_key-remove_first x key [] d = refl
has_key-remove_first x key (k ∷ ks) (n, d) =
    ground (arith, has_key-remove_first x key ks d, n, same_iff key k, same_iff key x, same_iff k x)

pub DistinctKeys-remove_first :
    (key : Bytes) (ks : List Bytes) → DistinctKeys ks → DistinctKeys (remove_first key ks)
unfolding remove_first
DistinctKeys-remove_first key [] d = tt
DistinctKeys-remove_first key (k ∷ ks) (n, d) =
    on_if DistinctKeys (same key k) (λ t. d)
      (λ f.
        (ground (arith, has_key-remove_first k key ks d, n), DistinctKeys-remove_first key ks d))

pub valid-remove_first :
    (key : Bytes) (ks : List Bytes) → All IsValidKey ks → All IsValidKey (remove_first key ks)
unfolding remove_first
valid-remove_first key [] v = tt
valid-remove_first key (k ∷ ks) (v, vs) =
    on_if (All IsValidKey) (same key k) (λ t. vs) (λ f. (v, valid-remove_first key ks vs))

module _ {C : Type 0} (new_aead : Bytes → Option C)
    (builds : (key : Bytes) → IsValidKey key → (c : C) × (new_aead key ≡ some c)) where
  -- The ciphers are those of the keys, in order.
  pub record IsKeyring (k : Keyring C) : Type 0 where
    pub distinct : DistinctKeys k.keys
    pub valid : All IsValidKey k.keys
    pub built : make_aeads new_aead k.keys ≡ some k.aeads

  make_aeads-some :
      (ks : List Bytes) → All IsValidKey ks → (cs : List C) × (make_aeads new_aead ks ≡ some cs)
  unfolding make_aeads
  make_aeads-some [] v = ([], refl)
  make_aeads-some (k ∷ ks) (v, vs) =
      let (c, e) = builds k v in
      let (cs, es) = make_aeads-some ks vs in (c ∷ cs, rw (make_aeads, e, es) refl)

  -- Installing puts the primary key first, keeps the others in order, and cannot panic.
  pub install_keys-lem :
      (ks : List Bytes) (primary : Bytes) (k : Keyring C)
      → DistinctKeys ks
      → All IsValidKey ks
      → IsValidKey primary
      → let (k', r) = install_keys new_aead ks primary k in
        (r ≡ key_ok) × (k'.keys ≡ primary ∷ others primary ks) × IsKeyring k'
  unfolding install_keys has_key
  install_keys-lem ks primary k d v p =
      let (cs, e) = make_aeads-some (primary ∷ others primary ks) (p, valid-others primary ks v) in
      rw (install_keys, e)
        (
          refl,
          refl,
          record {
            distinct = (
              ground (arith, has_key-others primary primary ks, same_refl primary),
              DistinctKeys-others primary ks d,
            );
            valid = (p, valid-others primary ks v);
            built = e;
          },
        )
