-- ===== src/Security/Keyring/Operations.antt =====
-- The operations of keyring.go, and the keys.
mod Keys
unfoldable pub use Keys.*
use mori.Prelude.{◌≡◌, refl, sym, ap, ◌∙◌, subst}
use mori.Prelude.{◌≢◌, ◌⊎◌, inl, inr, true, false, not, ◌&&◌, ◌||◌, Option, none, some}
use mori.Prelude.{List, [], ◌∷◌, ◌++◌, arith}
use mori.Prelude.{Bool-cases, Option-cases, Bool-contra, on_if}
use mori.Prelude.{All, All-append}
use mori.Prelude.{Bytes, same, same_refl, same→eq, same_iff, same-cases, same_comm}
use mori.Security.Keyring.{
  Keyring, KeyResult, key_ok, key_size, key_unknown, key_primary, validate_key, has_key, others,
  get_primary_key, remove_first, install_keys, add_key, use_key, remove_from, remove_key,
}
use mori.Security.Keyring.Laws.{
  DistinctKeys, IsValidKey, has_key-others, has_key-append, has_key-remove_first,
  DistinctKeys-append, DistinctKeys-remove_first, valid-remove_first, valid-has_key, IsKeyring,
  install_keys-lem,
}

module _ {C : Type 0} (new_aead : Bytes → Option C)
    (builds : (key : Bytes) → IsValidKey key → (c : C) × (new_aead key ≡ some c)) where
  abbrev Consistent : Keyring C → Type 0
  Consistent = IsKeyring new_aead builds

  -- On a consistent keyring, where a cipher can be built for every valid key: UseKey succeeds
  -- exactly for an installed key. The key is then the primary one, and the set of keys is the same;
  -- otherwise the keyring is unchanged.
  pub use_key-effect :
      (key : Bytes) (k : Keyring C)
      → IsKeyring new_aead builds k
      → let (k', r) = use_key new_aead key k in
        IsKeyring new_aead builds k'
        × (((has_key key k.keys ≡ true)
              × (r ≡ key_ok)
              × (get_primary_key k' ≡ some key)
              × ((x : Bytes) → has_key x k'.keys ≡ has_key x k.keys))
            ⊎ ((has_key key k.keys ≡ false) × (r ≡ key_unknown) × (k' ≡ k)))
  unfolding use_key
  use_key-effect key k h = elim (Bool-cases (has_key key k.keys)) [
    | inl e ↦
        let f =
          install_keys-lem new_aead builds k.keys key k h.distinct h.valid
            (valid-has_key key k.keys h.valid e) in
        rw e (
          f.2,
          inl (
            refl,
            f.0,
            front_primary (install_keys new_aead k.keys key k).0 (f.1),
            λ x. ap (has_key x) (f.1) ∙ moved_front-has_key x key k.keys e,
          ),
        )
    | inr e ↦ rw e (h, inr (refl, refl, refl))
  ]

  abbrev Removed : Bytes → Bytes → Keyring C → Keyring C × KeyResult → Type 0
  Removed key primary k (k', r) =
      IsKeyring new_aead builds k'
      × (get_primary_key k' ≡ some primary)
      × (((key ≡ primary) × (r ≡ key_primary) × (k' ≡ k))
          ⊎ ((key ≢ primary)
              × (r ≡ key_ok)
              × ((x : Bytes) → has_key x k'.keys ≡ (has_key x k.keys && not (same key x)))))

  remove_from-effect :
      (key primary : Bytes) (rest : List Bytes) (k : Keyring C)
      → IsKeyring new_aead builds k
      → get_primary_key k ≡ some primary
      → k.keys ≡ primary ∷ rest
      → Removed key primary k (remove_from new_aead key k (primary ∷ rest))
  unfolding remove_from
  remove_from-effect key primary rest k h p e =
      let (n, d) : DistinctKeys (primary ∷ rest) = subst DistinctKeys e h.distinct in
      let (v, vs) : All IsValidKey (primary ∷ rest) = subst (All IsValidKey) e h.valid in
      let left = primary ∷ remove_first key rest in
      let g =
        install_keys-lem new_aead builds left primary k (left_distinct key primary rest n d)
          (v, valid-remove_first key rest vs) v in
      on_if (Removed key primary k) (same key primary)
        (λ t. (h, p, inl (same→eq key primary t, refl, refl)))
        (λ f.
          let m : key ≢ primary = λ q. Bool-contra ((same_iff key primary).1 q) f in
          on_if (Removed key primary k) (has_key key rest)
            (λ i. (
              g.2,
              front_primary (install_keys new_aead left primary k).0 (g.1),
              inr (
                m,
                g.0,
                λ x.
                    ap (has_key x) (g.1)
                    ∙ primary_first-has_key x key primary rest d m
                    ∙ sym (ap (λ ks. has_key x ks && not (same key x)) e),
              ),
            ))
            (λ i. (
              h,
              p,
              inr (
                m,
                refl,
                λ x.
                    unknown-has_key x key k.keys
                      (ap (has_key key) e ∙ behind-has_key key primary rest f i),
              ),
            )))

  -- On a consistent keyring with a primary key, where a cipher can be built for every valid key:
  -- RemoveKey refuses the primary key and changes nothing then. Any other key is not installed
  -- afterwards, all the rest stay, and the primary key is the same.
  pub remove_key-effect :
      (key primary : Bytes) (k : Keyring C)
      → IsKeyring new_aead builds k
      → get_primary_key k ≡ some primary
      → let (k', r) = remove_key new_aead key k in
        IsKeyring new_aead builds k'
        × (get_primary_key k' ≡ some primary)
        × (((key ≡ primary) × (r ≡ key_primary) × (k' ≡ k))
            ⊎ ((key ≢ primary)
                × (r ≡ key_ok)
                × ((x : Bytes) → has_key x k'.keys ≡ (has_key x k.keys && not (same key x)))))
  unfolding remove_key remove_from
  remove_key-effect key primary k h p =
      let (rest, e) = primary_front k primary p in
      subst (λ ks. Removed key primary k (remove_from new_aead key k ks)) (sym e)
        (remove_from-effect key primary rest k h p e)

  abbrev Grown : Bytes → Keyring C → Keyring C × KeyResult → Type 0
  Grown key k (k', r) =
      IsKeyring new_aead builds k'
      × (((validate_key key ≡ false) × (r ≡ key_size) × (k' ≡ k))
          ⊎ ((validate_key key ≡ true)
              × (r ≡ key_ok)
              × ((x : Bytes) → has_key x k'.keys ≡ (has_key x k.keys || same key x))
              × ((primary : Bytes)
                  → get_primary_key k ≡ some primary
                  → get_primary_key k' ≡ some primary)))

  install-Grown :
      (key primary : Bytes) (k : Keyring C)
      → IsKeyring new_aead builds k
      → IsValidKey key
      → has_key key k.keys ≡ false
      → has_key primary (k.keys ++ (key ∷ [])) ≡ true
      → ((q : Bytes) → get_primary_key k ≡ some q → q ≡ primary)
      → Grown key k (install_keys new_aead (k.keys ++ (key ∷ [])) primary k)
  install-Grown key primary k h valid i there keeps =
      let all = k.keys ++ (key ∷ []) in
      let vs : All IsValidKey all = All-append IsValidKey k.keys (key ∷ []) h.valid (valid, tt) in
      let g =
        install_keys-lem new_aead builds all primary k (DistinctKeys-append key k.keys i h.distinct)
          vs (valid-has_key primary all vs there) in
      (
        g.2,
        inr (
          valid,
          g.0,
          λ x.
              ap (has_key x) (g.1)
              ∙ moved_front-has_key x primary all there
              ∙ has_key-append x key k.keys,
          λ q p.
              front_primary (install_keys new_aead all primary k).0 (g.1)
              ∙ ap some (sym (keeps q p)),
        ),
      )

  abbrev AddedAs : Bytes → Keyring C → Option Bytes → Type 0
  AddedAs key k o = Grown key k (
      install_keys new_aead (k.keys ++ (key ∷ []))
        (elim o as (λ _. Bytes) [ none ↦ key | some primary ↦ primary ]) k)

  grown :
      (key : Bytes) (k : Keyring C)
      → IsKeyring new_aead builds k
      → IsValidKey key
      → has_key key k.keys ≡ false
      → Grown key k (
          install_keys new_aead
            (k.keys ++ (key ∷ []))
            (elim (get_primary_key k) as (λ _. Bytes) [ none ↦ key | some primary ↦ primary ])
            k)
  grown key k h valid i = elim (Option-cases (get_primary_key k)) [
    | inl z ↦ subst (AddedAs key k) (sym z) (
        install-Grown key key k h valid i
          (ground (arith, has_key-append key key k.keys, same_refl key)) (λ q p. cc))
    | inr (q, z) ↦ subst (AddedAs key k) (sym z) (
        install-Grown key q k h valid i
          (ground (arith, has_key-append q key k.keys, primary_known k q z)) (λ q' p. cc))
  ]

  -- On a consistent keyring, where a cipher can be built for every valid key: AddKey refuses a key
  -- that is not 16, 24 or 32 bytes long and changes nothing then. A valid key is installed
  -- afterwards, with all that were; an existing primary key stays.
  pub add_key-effect :
      (key : Bytes) (k : Keyring C)
      → IsKeyring new_aead builds k
      → let (k', r) = add_key new_aead key k in
        IsKeyring new_aead builds k'
        × (((validate_key key ≡ false) × (r ≡ key_size) × (k' ≡ k))
            ⊎ ((validate_key key ≡ true)
                × (r ≡ key_ok)
                × ((x : Bytes) → has_key x k'.keys ≡ (has_key x k.keys || same key x))
                × ((primary : Bytes)
                    → get_primary_key k ≡ some primary
                    → get_primary_key k' ≡ some primary)))
  unfolding add_key
  add_key-effect key k h =
      on_if (Grown key k) (not (validate_key key)) (λ t. (h, inl (ground (arith, t), refl, refl)))
        (λ f.
          let valid : IsValidKey key = ground (arith, f) in
          on_if (Grown key k) (has_key key k.keys)
            (λ i. (h, inr (valid, refl, λ x. known-has_key x key k.keys i, λ primary p. p)))
            (λ i. grown key k h valid i))
