-- ===== src/Security/Payload/RoundTrip.antt =====
-- security.go: sealing and opening, padding and unpadding.
use mori.Prelude.{ℕ, zero, suc, ◌+◌, ◌-◌, ◌%◌, ◌≤◌, ◌<◌, ◌≡◌, refl, sym, ap, ◌∙◌}
use mori.Prelude.{none, some}
use mori.Prelude.{List, [], ◌∷◌, ◌++◌, arith, ◌==◌, if◌then◌else◌}
use mori.Prelude.{length, take, drop, replicate, length-append}
use mori.Prelude.{take-append, drop-append, All}
use mori.Prelude.{Bytes}
use mori.Security.Payload.{
  Aead, opened, block_size, last_of, pkcs7_encode, pkcs7_decode, encrypted_length, seal_payload,
  open_loop, open_payload,
}
use native.Mathlib.Nat.{mod-lt}

mod-lt_id : (n : ℕ) → n < 256 → n % 256 ≡ n
mod-lt_id n h = omega arith

last_of-replicate : (n b : ℕ) → last_of (replicate (suc n) b) ≡ b
last_of-replicate zero b = refl
last_of-replicate (suc n) b = last_of-replicate n b

last_of-append : (s : Bytes) (b : ℕ) (t : Bytes) → last_of (s ++ (b ∷ t)) ≡ last_of (b ∷ t)
last_of-append [] b t = refl
last_of-append (a ∷ []) b t = refl
last_of-append (a ∷ c ∷ s) b t = last_of-append (c ∷ s) b t

length-replicate : (n b : ℕ) → length (replicate n b) ≡ n
length-replicate zero b = refl
length-replicate (suc n) b = ap suc (length-replicate n b)

last_of-pad : (s : Bytes) (n : ℕ) (b : ℕ) → 1 ≤ n → last_of (s ++ replicate n b) ≡ b
last_of-pad s zero b h = absurd (omega arith)
last_of-pad s (suc n) b h = last_of-append s b (replicate n b) ∙ last_of-replicate n b

unpad_lem :
    (msg : Bytes) (n block : ℕ)
    → 1 ≤ n
    → n ≤ block
    → pkcs7_decode (msg ++ replicate n n) block ≡ opened msg
unfolding pkcs7_decode
unpad_lem msg n block h g =
    let len : length (msg ++ replicate n n) ≡ length msg + n =
      length-append msg (replicate n n) ∙ ap (λ k. length msg + k) (length-replicate n n) in
    let cut : length msg + n - n ≡ length msg = omega arith in
    rw (last_of-pad msg n n h, len, cut, take-append msg (replicate n n)) (ground arith)

-- For a block size from 1 to 255, and no more bytes to ignore than there are, padding adds at least
-- one byte and at most a block, and decoding takes exactly the padding off.
pub pkcs7_decode-encode :
    (msg : Bytes) (ignore block : ℕ)
    → 1 ≤ block
    → block < 256
    → ignore ≤ length msg
    → let padded = pkcs7_encode msg ignore block in
      (pkcs7_decode padded block ≡ opened msg)
      × (length msg < length padded)
      × (length padded ≤ length msg + block)
unfolding pkcs7_encode
pkcs7_decode-encode msg ignore block low high fits =
    let more = block - (length msg - ignore) % block in
    let small : (length msg - ignore) % block < block =
      mod-lt (length msg - ignore) (omega arith) in
    let byte : more % 256 ≡ more = mod-lt_id more (omega arith) in
    let len = length-append msg (replicate more more) in
    rw byte (
      unpad_lem msg more block (omega arith) (omega arith),
      omega (arith, len, length-replicate more more),
      omega (arith, len, length-replicate more more),
    )

module _ (gcm : Aead) (nonce msg auth : Bytes) (nonce_size : length nonce ≡ 12) where
  -- What the cipher is given to seal.
  abbrev pub padded : ℕ → Bytes
  padded vsn =
      let pad = block_size - length msg % block_size in
      if vsn == 0 then msg ++ replicate pad pad else msg

  -- A cipher that opens what it sealed, 16 bytes longer, and that the ciphers before it refuse.
  pub record Reopens (before : List Aead) (vsn : ℕ) : Type 0 where
    pub tagged : length (gcm.seal_with nonce (padded vsn) auth) ≡ length (padded vsn) + 16
    pub reopened :
        gcm.open_with nonce (gcm.seal_with nonce (padded vsn) auth) auth ≡ some (padded vsn)
    pub refused :
        All
          (λ (g : Aead). g.open_with nonce (gcm.seal_with nonce (padded vsn) auth) auth ≡ none)
          before

  open_loop-skip :
      (before after : List Aead) (vsn : ℕ) (text : Bytes)
      → All (λ (g : Aead). g.open_with nonce text auth ≡ none) before
      → open_loop (before ++ (gcm ∷ after)) vsn nonce text auth
        ≡ open_loop (gcm ∷ after) vsn nonce text auth
  unfolding open_loop
  open_loop-skip [] after vsn text h = refl
  open_loop-skip (g ∷ before) after vsn text (e, h) = rw e (open_loop-skip before after vsn text h)

  open_payload-frame :
      (aeads : List Aead) (vsn : ℕ) (text : Bytes)
      → vsn ≤ 1
      → encrypted_length vsn 0 ≤ 13 + length text
      → open_payload aeads (vsn ∷ (nonce ++ text)) auth ≡ open_loop aeads vsn nonce text auth
  unfolding open_payload
  open_payload-frame aeads vsn text low long =
      let front : take 12 (nonce ++ text) ≡ nonce = rw (sym nonce_size) (take-append nonce text) in
      let back : drop 12 (nonce ++ text) ≡ text = rw (sym nonce_size) (drop-append nonce text) in
      rw (front, back) (ground (arith, length-append nonce text, nonce_size))

  open_loop-reopens :
      (after : List Aead) (vsn : ℕ) (text : Bytes)
      → gcm.open_with nonce text auth ≡ some (padded vsn)
      → open_loop (gcm ∷ after) vsn nonce text auth ≡ opened msg
  unfolding open_loop
  open_loop-reopens after vsn text e = rw e (
      ground (
        arith,
        unpad_lem msg (16 - length msg % 16) 16
            (omega (arith, mod-lt (length msg) {m = 16} (omega arith))) (omega arith),
      ))

  length-padded : (vsn : ℕ) → vsn ≤ 1 → encrypted_length vsn (length msg) ≡ 29 + length (padded vsn)
  unfolding encrypted_length
  length-padded vsn low =
      let pad = 16 - length msg % 16 in
      ground (arith, length-append msg (replicate pad pad), length-replicate pad pad)

  encrypted_length-least : (vsn : ℕ) → encrypted_length vsn 0 ≤ encrypted_length vsn (length msg)
  unfolding encrypted_length
  encrypted_length-least vsn = ground (arith, mod-lt (length msg) {m = 16} (omega arith))

  -- In either version, with a nonce of 12 bytes, a payload sealed with an installed key is opened
  -- to the message that it was sealed from, provided that the cipher opens what it sealed and no
  -- key tried before does, and it has the length that was computed for it.
  pub open-seal_payload :
      (before after : List Aead) (vsn : ℕ)
      → vsn ≤ 1
      → Reopens before vsn
      → let sealed = seal_payload vsn gcm nonce msg auth [] in
        (open_payload (before ++ (gcm ∷ after)) sealed auth ≡ opened msg)
        × (length sealed ≡ encrypted_length vsn (length msg))
  unfolding seal_payload
  open-seal_payload before after vsn low r =
      let text = gcm.seal_with nonce (padded vsn) auth in
      let long : encrypted_length vsn (length msg) ≡ 13 + length text =
        omega (arith, length-padded vsn low, r.tagged) in
      (
        open_payload-frame (before ++ (gcm ∷ after)) vsn text low
              (omega (arith, long, encrypted_length-least vsn))
            ∙ open_loop-skip before after vsn text r.refused
            ∙ open_loop-reopens after vsn text r.reopened,
        omega (arith, long, length-append nonce text, nonce_size),
      )
