-- ===== src/Security/Payload.antt =====
-- security.go: padding, and the encryption of payloads. An `Aead` stands for AES-GCM under one key,
-- and the nonce for the random one.
use mori.Prelude.{
  ℕ, zero, suc, ◌+◌, ◌-◌, ◌*◌, ◌/◌, ◌%◌, ◌^◌, ◌≤◌, ◌<◌, min, max, ◌≡◌, refl, sym, ap, ap₂, ◌∙◌,
  subst,
}
use mori.Prelude.{◌≢◌, ◌↔◌, ◌⊎◌, inl, inr, Bool, true, false, not, ◌&&◌, ◌||◌, Option, none, some}
use mori.Prelude.{
  List, [], ◌∷◌, ◌++◌, map, append-nil, append_assoc, arith, ltb, leb, ◌==◌, if◌then◌else◌,
}
use mori.Prelude.{
  ltb→lt, lt→ltb, leb→le, ==_iff, tests, Bool-cases, Option-cases, Bool-contra, on_if,
}
use mori.Prelude.{
  length, get_elem?, set, take, drop, replicate, length-append, length-set, take-append-drop,
  length-take,
}
use mori.Prelude.{
  length-drop, take-append, drop-append, All, All-append, All-append_left, All-append_right,
  All-imp,
}
use mori.Prelude.{Bytes, IsByte, same, same_refl, same→eq, same_iff, same-cases, same_comm}
pub mod RoundTrip

pub record Aead : Type 0 where
  pub seal_with : Bytes → Bytes → Bytes → Bytes
  pub open_with : Bytes → Bytes → Bytes → Option Bytes

pub data Opened : Type 0 where
  opened : Bytes → Opened
  open_error : Opened

-- `aes.BlockSize`
abbrev pub block_size : ℕ
block_size = 16

abbrev pub last_of : Bytes → ℕ
last_of [] = 0
last_of (b ∷ []) = b
last_of (b ∷ c ∷ s) = last_of (c ∷ s)

-- The buffer after the call. The source's `int` may be negative before `%`; its callers ignore no
-- more bytes than there are.
unfoldable pub pkcs7_encode : Bytes → ℕ → ℕ → Bytes
pkcs7_encode buf ignore block =
    let n = length buf - ignore in
    let more = block - n % block in buf ++ replicate more (more % 256)

unfoldable pub pkcs7_decode : Bytes → ℕ → Opened
pkcs7_decode buf block =
    let pad = last_of buf in
    if length buf == 0
    then open_error
    else if ltb pad 1 || ltb block pad || ltb (length buf) pad
    then open_error
    else opened (take (length buf - pad) buf)

-- A version above 1 panics.
unfoldable pub encrypt_overhead : ℕ → Option ℕ
encrypt_overhead vsn = if vsn == 0 then some 45 else if vsn == 1 then some 29 else none

unfoldable pub encrypted_length : ℕ → ℕ → ℕ
encrypted_length vsn inp =
    if leb 1 vsn then 1 + 12 + inp + 16 else 1 + 12 + inp + (block_size - inp % block_size) + 16

unfoldable pub seal_payload : ℕ → Aead → Bytes → Bytes → Bytes → Bytes → Bytes
seal_payload vsn gcm nonce msg auth dst =
    let pad = block_size - length msg % block_size in
    let src = if vsn == 0 then msg ++ replicate pad pad else msg in
    dst ++ (vsn ∷ (nonce ++ gcm.seal_with nonce src auth))

-- The ciphers are tried in order.
unfoldable pub open_loop : List Aead → ℕ → Bytes → Bytes → Bytes → Opened
unfolding pkcs7_decode
open_loop [] vsn nonce ciphertext auth = open_error
open_loop (gcm ∷ gcms) vsn nonce ciphertext auth =
    let rest = open_loop gcms vsn nonce ciphertext auth in
    elim (gcm.open_with nonce ciphertext auth) [
      | none ↦ rest
      | some plain ↦ if vsn == 0 then pkcs7_decode plain block_size else opened plain
    ]

unfoldable pub open_payload : List Aead → Bytes → Bytes → Opened
unfolding open_loop encrypted_length
open_payload aeads [] auth = open_error
open_payload aeads (vsn ∷ rest) auth =
    if ltb 1 vsn
    then open_error
    else if ltb (length (vsn ∷ rest)) (encrypted_length vsn 0)
    then open_error
    else open_loop aeads vsn (take 12 rest) (drop 12 rest) auth
