-- ===== src/Msgpack/RawRoundTrip.antt =====
-- msgpack.go: strings, byte slices, keys, booleans and map headers, written and read again.
use mori.Prelude.{ℕ, ◌^◌, ◌≤◌, ◌<◌, ◌≡◌, refl, sym, ap, ◌∙◌}
use mori.Prelude.{Bool, true, false, Option, none, some}
use mori.Prelude.{[], ◌∷◌, ◌++◌, append_assoc, arith, ltb, ◌==◌, if◌then◌else◌}
use mori.Prelude.{on_if}
use mori.Prelude.{length}
use mori.Prelude.{Bytes}
use mori.Msgpack.Reader.{ok, Reader, pure, ◌>>=◌, ◌>>◌, >>=-ok, read_byte, read_into, discard}
use mori.Msgpack.Append.{
  append_nil, append_bool, append_raw_header, append_string, append_bytes, append_map_header,
}
use mori.Msgpack.Read.{
  map_header_at, read_map_header, raw_len_at, raw_len, bytes_of, read_bytes, string_of, read_string,
  key_of, read_key, bool_at, read_bool,
}
use mori.Msgpack.RoundTrip.{fixed_then, read_into-append}

raw_len-append_raw_header :
    (n : ℕ) (rest : Bytes) → n < 2 ^ 32 → raw_len (append_raw_header n ++ rest) ≡ ok (some n) rest
unfolding raw_len read_byte raw_len_at append_raw_header
raw_len-append_raw_header n rest h =
    on_if Reads (ltb n 32) (λ t. ground (arith, t))
      (λ a.
        on_if Reads (ltb n 65536)
          (λ t. fixed_then (λ k. pure (some k)) 2 n rest (ground (arith, t)))
          (λ b. fixed_then (λ k. pure (some k)) 4 n rest (omega (arith, h))))
  where
    Reads : Bytes → Type 0
    Reads xs = raw_len (xs ++ rest) ≡ ok (some n) rest

-- What a reader of raw values does with the length of `p`, before `p`.
-- A byte slice is nil, or it has at most `limit` bytes.
abbrev pub Holds : ℕ → Option Bytes → Type 0
Holds limit none = Unit {0}
Holds limit (some p) = (length p ≤ limit) × (length p < 2 ^ 32)

raw_then :
    {A : Type 0} (f : Option ℕ → Reader A) (p rest : Bytes)
    → length p < 2 ^ 32
    → (raw_len >>= f) ((append_raw_header (length p) ++ p) ++ rest)
      ≡ f (some (length p)) (p ++ rest)
raw_then f p rest h = rw (append_assoc (append_raw_header (length p)) p rest) (
    >>=-ok raw_len f (append_raw_header (length p) ++ (p ++ rest))
      (raw_len-append_raw_header (length p) (p ++ rest) h))

length_zero : (p : Bytes) → length p ≡ 0 → [] ≡ p
length_zero [] e = refl
length_zero (b ∷ p) e = absurd (omega (arith, e))

pub read_string-append_string :
    (limit : ℕ) (s rest : Bytes)
    → length s ≤ limit
    → length s < 2 ^ 32
    → read_string limit (append_string s ++ rest) ≡ ok s rest
unfolding read_string append_string string_of
read_string-append_string limit s rest le h = raw_then (string_of limit) s rest h ∙ body
  where
    Reads : Reader Bytes → Type 0
    Reads r = r (s ++ rest) ≡ ok s rest

    body : Reads (string_of limit (some (length s)))
    body =
        on_if Reads (length s == 0)
          (λ t.
            ap (λ x. ok x (s ++ rest)) (length_zero s (ground (arith, t)))
            ∙ ap (λ x. ok s (x ++ rest)) (sym (length_zero s (ground (arith, t)))))
          (λ t.
            on_if Reads (ltb limit (length s)) (λ u. absurd (ground (arith, le, u)))
              (λ u. read_into-append s rest))

-- The two tests of `bytes_of`, in the order of `bytes_of`.
pub read_bytes-append_bytes :
    (limit : ℕ) (o : Option Bytes) (rest : Bytes)
    → Holds limit o
    → read_bytes limit (append_bytes o ++ rest) ≡ ok o rest
unfolding read_bytes append_bytes bytes_of raw_len read_byte raw_len_at append_nil
read_bytes-append_bytes limit none rest h = refl
read_bytes-append_bytes limit (some p) rest (le, h) = raw_then (bytes_of limit) p rest h ∙ body
  where
    Reads : Reader (Option Bytes) → Type 0
    Reads r = r (p ++ rest) ≡ ok (some p) rest

    body : Reads (bytes_of limit (some (length p)))
    body =
        on_if Reads (ltb limit (length p)) (λ u. absurd (ground (arith, le, u)))
          (λ u.
            on_if Reads (length p == 0)
              (λ t.
                ap (λ x. ok (some x) (p ++ rest)) (length_zero p (ground (arith, t)))
                ∙ ap (λ x. ok (some p) (x ++ rest)) (sym (length_zero p (ground (arith, t)))))
              (λ t.
                >>=-ok (read_into (length p)) (λ q. pure (some q)) (p ++ rest)
                  (read_into-append p rest)))

pub read_key-append_string :
    (key rest : Bytes) → length key ≤ 64 → read_key (append_string key ++ rest) ≡ ok key rest
unfolding read_key append_string key_of
read_key-append_string key rest le =
    raw_then key_of key rest (omega (arith, le))
    ∙ on_if Reads (ltb 64 (length key)) (λ u. absurd (ground (arith, le, u)))
        (λ u. read_into-append key rest)
  where
    Reads : Reader Bytes → Type 0
    Reads r = r (key ++ rest) ≡ ok key rest

-- What `ReadKey` makes of a key: one of more than `maxKeyLen` bytes is taken as the empty key.
abbrev pub key_kept : Bytes → Bytes
key_kept key = if ltb 64 (length key) then [] else key

pub read_key-append_any :
    (key rest : Bytes)
    → length key < 2 ^ 32
    → read_key (append_string key ++ rest) ≡ ok (key_kept key) rest
unfolding read_key append_string key_of discard
read_key-append_any key rest h = raw_then key_of key rest h ∙ at (ltb 64 (length key))
  where
    at :
        (b : Bool)
        → (if b then (do discard (length key); pure []) else read_into (length key)) (key ++ rest)
          ≡ ok (if b then [] else key) rest
    at true =
        >>=-ok (discard (length key)) (λ _. pure []) (key ++ rest)
          (>>=-ok (read_into (length key)) (λ p. pure tt) (key ++ rest) (read_into-append key rest))
    at false = read_into-append key rest

pub read_bool-append_bool :
    (v : Bool) (rest : Bytes) → read_bool (append_bool v ++ rest) ≡ ok v rest
unfolding read_bool read_byte bool_at append_bool
read_bool-append_bool true rest = refl
read_bool-append_bool false rest = refl

-- A header of at most fifteen entries, in one byte.
pub read_map_header-append_map_header :
    (stream : Bool) (n : ℕ) (rest : Bytes)
    → n < 16
    → read_map_header stream (append_map_header n ++ rest) ≡ ok n rest
unfolding read_map_header read_byte map_header_at append_map_header
read_map_header-append_map_header stream n rest h = ground arith
