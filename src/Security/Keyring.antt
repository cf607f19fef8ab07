-- ===== src/Security/Keyring.antt =====
-- keyring.go: the keys of a node. `new_aead` stands for the cipher that the standard library builds
-- for a key, none where it returns an error.
use mori.Prelude.{
  ℕ, zero, suc, ◌+◌, ◌-◌, ◌*◌, ◌/◌, ◌%◌, ◌^◌, ◌≤◌, ◌<◌, min, max, ◌≡◌, refl, sym, ap, ap₂, ◌∙◌,
  subst,
}
use mori.Prelude.{◌≢◌, ◌↔◌, ◌⊎◌, inl, inr, Bool, true, false, not, ◌&&◌, ◌||◌, Option, none, some}
use mori.Prelude.{
  List, [], ◌∷◌, ◌++◌, map, append-nil, append_assoc, arith, ltb, leb, ◌==◌, if◌then◌else◌,
}
use mori.Prelude.{
  ltb→lt, lt→ltb, leb→le, ==_iff, tests, Bool-cases, Option-cases, Bool-contra, on_if,
}
use mori.Prelude.{
  length, get_elem?, set, take, drop, replicate, length-append, length-set, take-append-drop,
  length-take,
}
use mori.Prelude.{
  length-drop, take-append, drop-append, All, All-append, All-append_left, All-append_right,
  All-imp,
}
use mori.Prelude.{Bytes, IsByte, same, same_refl, same→eq, same_iff, same-cases, same_comm}
pub mod Laws
pub mod Operations

pub record Keyring (C : Type 0) : Type 0 where
  pub keys : List Bytes
  pub aeads : List C

-- What an operation returns: nil, one of its errors, or a panic.
pub data KeyResult : Type 0 where
  key_ok : KeyResult
  key_size : KeyResult
  key_unknown : KeyResult
  key_primary : KeyResult
  key_empty : KeyResult
  key_panic : KeyResult

unfoldable pub validate_key : Bytes → Bool
validate_key key = (length key == 16) || (length key == 24) || (length key == 32)

unfoldable pub has_key : Bytes → List Bytes → Bool
has_key key [] = false
has_key key (k ∷ ks) = same k key || has_key key ks

-- `newKeys` of `installKeysLocked`, behind the primary key.
unfoldable pub others : Bytes → List Bytes → List Bytes
others primary [] = []
others primary (k ∷ ks) =
    let rest = others primary ks in if not (same k primary) then k ∷ rest else rest

unfoldable pub get_primary_key : {C : Type 0} → Keyring C → Option Bytes
get_primary_key k = elim k.keys [ [] ↦ none | key ∷ keys ↦ some key ]

-- The keys without the first one that is `key`.
unfoldable pub remove_first : Bytes → List Bytes → List Bytes
remove_first key [] = []
remove_first key (k ∷ ks) = let rest = remove_first key ks in if same key k then ks else k ∷ rest

module _ {C : Type 0} (new_aead : Bytes → Option C) where
  unfoldable pub make_aeads : List Bytes → Option (List C)
  make_aeads [] = some []
  make_aeads (k ∷ ks) = elim (new_aead k) [
    | none ↦ none
    | some c ↦ elim (make_aeads ks) [ none ↦ none | some cs ↦ some (c ∷ cs) ]
  ]

  unfoldable pub install_keys : List Bytes → Bytes → Keyring C → Keyring C × KeyResult
  unfolding others make_aeads
  install_keys keys primary k =
      let new_keys = primary ∷ others primary keys in
      elim (make_aeads new_keys) [
        | none ↦ (k, key_panic)
        | some aeads ↦ (record { keys = new_keys; aeads = aeads }, key_ok)
      ]

  unfoldable pub add_key : Bytes → Keyring C → Keyring C × KeyResult
  unfolding validate_key has_key install_keys get_primary_key
  add_key key k =
      if not (validate_key key)
      then (k, key_size)
      else if has_key key k.keys
      then (k, key_ok)
      else install_keys (k.keys ++ (key ∷ []))
          (elim (get_primary_key k) [ none ↦ key | some primary ↦ primary ]) k

  unfoldable pub use_key : Bytes → Keyring C → Keyring C × KeyResult
  unfolding has_key install_keys
  use_key key k = if has_key key k.keys then install_keys k.keys key k else (k, key_unknown)

  -- The loop runs on after it has removed the key, over the shifted array of the keys it started
  -- with; these are distinct, so it finds no second one. An empty ring panics at `k.keys[0]`.
  unfoldable pub remove_from : Bytes → Keyring C → List Bytes → Keyring C × KeyResult
  unfolding has_key install_keys remove_first
  remove_from key k [] = (k, key_panic)
  remove_from key k (primary ∷ rest) =
      if same key primary
      then (k, key_primary)
      else if has_key key rest
      then install_keys (primary ∷ remove_first key rest) primary k
      else (k, key_ok)

  unfoldable pub remove_key : Bytes → Keyring C → Keyring C × KeyResult
  unfolding remove_from
  remove_key key k = remove_from key k k.keys

  unfoldable pub add_keys : List Bytes → Keyring C → Keyring C × KeyResult
  unfolding add_key
  add_keys [] k = (k, key_ok)
  add_keys (key ∷ keys) k =
      let (k1, r) = add_key key k in
      elim r [
        | key_ok ↦ add_keys keys k1
        | key_size ↦ (k1, key_size)
        | key_unknown ↦ (k1, key_unknown)
        | key_primary ↦ (k1, key_primary)
        | key_empty ↦ (k1, key_empty)
        | key_panic ↦ (k1, key_panic)
      ]

  unfoldable pub new_keyring : List Bytes → Bytes → Keyring C × KeyResult
  unfolding add_keys
  new_keyring keys primary =
      let k : Keyring C = record { keys = []; aeads = [] } in
      if not (ltb 0 (length keys) || ltb 0 (length primary))
      then (k, key_ok)
      else if length primary == 0
      then (k, key_empty)
      else add_keys (primary ∷ keys) k

  unfoldable pub primary_aead : Keyring C → Option C
  primary_aead k = elim k.aeads [ [] ↦ none | c ∷ cs ↦ some c ]
