-- ===== src/Msgpack/SkipValue.antt =====
-- msgpack.go: `Skip` on the values that the encoders write.
use mori.Prelude.{ℕ, ◌+◌, ◌-◌, ◌%◌, ◌^◌, ◌<◌, ◌≡◌, refl, ◌∙◌, subst}
use mori.Prelude.{Bool, true, false, some}
use mori.Prelude.{[], ◌∷◌, ◌++◌, append_assoc, arith, ltb, leb}
use mori.Prelude.{on_if}
use mori.Prelude.{length}
use mori.Prelude.{Bytes}
use mori.Prelude.Int.{ℤ, pos, negsuc}
use mori.Msgpack.Reader.{ok, Reader, pure, ◌>>=◌, read_byte, read_into, read_fixed, discard}
use mori.Msgpack.Skip.{bytes_extent, sized_extent, extent, skip_extent, skip_within, skip}
use mori.Msgpack.Append.{
  to_bytes, append_nil, append_bool, append_uint, wrap_to, append_int, append_raw_header,
  append_string, append_bytes,
}
use mori.Msgpack.RoundTrip.{FitsIn, length-to_bytes, read_into-append, fixed_then}
use mori.Msgpack.Reader.{>>=-ok}

discard-append : (p rest : Bytes) → discard (length p) (p ++ rest) ≡ ok tt rest
unfolding discard
discard-append p rest =
    >>=-ok (read_into (length p)) (λ p. pure tt) (p ++ rest) (read_into-append p rest)

discard-to_bytes : (n v : ℕ) (rest : Bytes) → discard n (to_bytes n v ++ rest) ≡ ok tt rest
discard-to_bytes n v rest =
    subst (λ k. discard k (to_bytes n v ++ rest) ≡ ok tt rest) (length-to_bytes n v)
      (discard-append (to_bytes n v) rest)

-- One value, whose elements are skipped by `element`.
abbrev value : Bool → Reader (Unit {0}) → Reader (Unit {0})
value stream element = read_byte >>= λ c. extent c >>= λ e. skip_extent stream element e

module _ (stream : Bool) (element : Reader (Unit {0})) where
  abbrev Skips : Bytes → Bytes → Type 0
  Skips rest xs = value stream element (xs ++ rest) ≡ ok tt rest

  -- A value of one byte.
  one_byte :
      (c : ℕ) (rest : Bytes)
      → extent c rest ≡ ok (record { payload = 0; elems = 0 }) rest
      → Skips rest (c ∷ [])
  unfolding skip_extent read_byte
  one_byte c rest e =
      >>=-ok (extent c) (λ e. skip_extent stream element e) rest e ∙ discard-append [] rest

  value-append_uint : (v : ℕ) (rest : Bytes) → Skips rest (append_uint v)
  unfolding skip_extent read_byte extent append_uint
  value-append_uint v rest =
      on_if (Skips rest) (leb v 127) (λ t. one_byte v rest (ground (arith, t)))
        (λ a.
          on_if (Skips rest) (leb v 255) (λ t. discard-to_bytes 1 v rest)
            (λ b.
              on_if (Skips rest) (leb v 65535) (λ t. discard-to_bytes 2 v rest)
                (λ c.
                  on_if (Skips rest) (leb v 4294967295) (λ t. discard-to_bytes 4 v rest)
                    (λ d. discard-to_bytes 8 v rest))))

  value-append_int : (z : ℤ) (rest : Bytes) → Skips rest (append_int z)
  unfolding skip_extent read_byte extent append_int wrap_to
  value-append_int (pos n) rest =
      on_if (Skips rest) (leb n 127) (λ t. one_byte n rest (ground (arith, t)))
        (λ b.
          on_if (Skips rest) (leb n 32767) (λ t. discard-to_bytes 2 (n % 2 ^ 16) rest)
            (λ c.
              on_if (Skips rest) (leb n 2147483647) (λ t. discard-to_bytes 4 (n % 2 ^ 32) rest)
                (λ d. discard-to_bytes 8 (n % 2 ^ 64) rest)))
  value-append_int (negsuc n) rest =
      on_if (Skips rest) (leb n 31) (λ t. one_byte (256 - 1 - n % 256) rest (ground (arith, t)))
        (λ a.
          on_if (Skips rest) (leb n 127) (λ t. discard-to_bytes 1 (256 - 1 - n % 256) rest)
            (λ b.
              on_if (Skips rest) (leb n 32767)
                (λ t. discard-to_bytes 2 (2 ^ 16 - 1 - n % 2 ^ 16) rest)
                (λ c.
                  on_if (Skips rest) (leb n 2147483647)
                    (λ t. discard-to_bytes 4 (2 ^ 32 - 1 - n % 2 ^ 32) rest)
                    (λ d. discard-to_bytes 8 (2 ^ 64 - 1 - n % 2 ^ 64) rest))))

  -- The payload behind its length.
  skip_payload :
      (p rest : Bytes)
      → skip_extent stream element (record { payload = length p; elems = 0 }) (p ++ rest)
        ≡ ok tt rest
  unfolding skip_extent
  skip_payload p rest = discard-append p rest

  sized :
      (n : ℕ) (p rest : Bytes)
      → FitsIn n (length p)
      → ((read_fixed n >>= bytes_extent) >>= λ e. skip_extent stream element e)
          (to_bytes n (length p) ++ (p ++ rest))
        ≡ ok tt rest
  sized n p rest h =
      >>=-ok (read_fixed n >>= bytes_extent) (λ e. skip_extent stream element e)
        (to_bytes n (length p) ++ (p ++ rest)) (fixed_then bytes_extent n (length p) (p ++ rest) h)
      ∙ skip_payload p rest

  value-append_raw :
      (p rest : Bytes) → length p < 2 ^ 32 → Skips rest (append_raw_header (length p) ++ p)
  unfolding read_byte extent sized_extent append_raw_header
  value-append_raw p rest h = rw (append_assoc (append_raw_header (length p)) p rest) (
      on_if (Skips_before p) (ltb (length p) 32)
        (λ t.
          >>=-ok (extent (160 + length p)) (λ e. skip_extent stream element e) (p ++ rest)
            {a = record { payload = length p; elems = 0 }} (ground (arith, t))
          ∙ skip_payload p rest)
        (λ a.
          on_if (Skips_before p) (ltb (length p) 65536) (λ t. sized 2 p rest (ground (arith, t)))
            (λ b. sized 4 p rest (omega (arith, h)))))
    where
      Skips_before : Bytes → Bytes → Type 0
      Skips_before p xs = value stream element (xs ++ (p ++ rest)) ≡ ok tt rest

-- The values that the encoders write.
pub data Value : Type 0 where
  nil_value : Value
  bool_value : Bool → Value
  uint_value : ℕ → Value
  int_value : ℤ → Value
  string_value : Bytes → Value
  bytes_value : Bytes → Value

abbrev pub append_value : Value → Bytes
append_value nil_value = append_nil
append_value (bool_value v) = append_bool v
append_value (uint_value v) = append_uint v
append_value (int_value v) = append_int v
append_value (string_value s) = append_string s
append_value (bytes_value p) = append_bytes (some p)

-- Strings and byte slices have a length of 32 bits.
abbrev pub IsSized : Value → Type 0
IsSized (string_value s) = length s < 2 ^ 32
IsSized (bytes_value p) = length p < 2 ^ 32
IsSized _ = Unit {0}

pub skip-append_value :
    (stream : Bool) (v : Value) (rest : Bytes)
    → IsSized v
    → skip stream (append_value v ++ rest) ≡ ok tt rest
unfolding skip skip_within append_nil append_bool append_string append_bytes extent
skip-append_value stream nil_value rest h = one_byte stream (skip_within stream 32) 192 rest refl
skip-append_value stream (bool_value true) rest h =
    one_byte stream (skip_within stream 32) 195 rest refl
skip-append_value stream (bool_value false) rest h =
    one_byte stream (skip_within stream 32) 194 rest refl
skip-append_value stream (uint_value v) rest h =
    value-append_uint stream (skip_within stream 32) v rest
skip-append_value stream (int_value v) rest h =
    value-append_int stream (skip_within stream 32) v rest
skip-append_value stream (string_value s) rest h =
    value-append_raw stream (skip_within stream 32) s rest h
skip-append_value stream (bytes_value p) rest h =
    value-append_raw stream (skip_within stream 32) p rest h
