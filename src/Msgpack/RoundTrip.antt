-- ===== src/Msgpack/RoundTrip.antt =====
-- msgpack.go: numbers, written and read again.
use mori.Prelude.{ℕ, zero, suc, ◌+◌, ◌-◌, ◌*◌, ◌/◌, ◌%◌, ◌^◌, ◌≤◌, ◌<◌, ◌≡◌, refl, ap, ◌∙◌, subst}
use mori.Prelude.{false}
use mori.Prelude.{[], ◌∷◌, ◌++◌, arith, leb}
use mori.Prelude.{on_if}
use mori.Prelude.{length, length-append}
use mori.Prelude.{take-append, drop-append}
use mori.Prelude.{Bytes}
use mori.Prelude.Int.{ℤ, pos, negsuc, ltb_ℤ, IsInt64}
use mori.Msgpack.Reader.{
  ok, Reader, pure, ◌>>=◌, >>=-ok, read_byte, read_into, read_fixed, from_bytes,
}
use mori.Msgpack.Append.{to_bytes, append_uint, wrap_to, append_int}
use mori.Msgpack.Read.{
  sign_extend, integer_at, read_integer, uint_of, read_uint, as_int64, min_int, max_int, int_of,
  read_int,
}

-- The number has at most n bytes.
abbrev pub FitsIn : ℕ → ℕ → Type 0
FitsIn zero v = v < 1
FitsIn (suc n) v = FitsIn n (v / 256)

from_bytes-append :
    (v : ℕ) (p : Bytes) (c : ℕ) → from_bytes v (p ++ (c ∷ [])) ≡ from_bytes v p * 256 + c
from_bytes-append v [] c = refl
from_bytes-append v (b ∷ p) c = from_bytes-append (v * 256 + b) p c

pub from_bytes-to_bytes : (n v : ℕ) → FitsIn n v → from_bytes 0 (to_bytes n v) ≡ v
from_bytes-to_bytes zero v f = omega (arith, f)
from_bytes-to_bytes (suc n) v f =
    from_bytes-append 0 (to_bytes n (v / 256)) (v % 256)
    ∙ ap (λ t. t * 256 + v % 256) (from_bytes-to_bytes n (v / 256) f)
    ∙ omega arith

pub length-to_bytes : (n v : ℕ) → length (to_bytes n v) ≡ n
length-to_bytes zero v = refl
length-to_bytes (suc n) v =
    length-append (to_bytes n (v / 256)) ((v % 256) ∷ [])
    ∙ omega (arith, length-to_bytes n (v / 256))

pub read_into-append : (p rest : Bytes) → read_into (length p) (p ++ rest) ≡ ok p rest
unfolding read_into
read_into-append p rest =
    rw (take-append p rest, drop-append p rest) (ground (arith, length-append p rest))

read_fixed-to_bytes :
    (n v : ℕ) (rest : Bytes) → FitsIn n v → read_fixed n (to_bytes n v ++ rest) ≡ ok v rest
unfolding read_fixed
read_fixed-to_bytes n v rest f =
    let step : read_into n (to_bytes n v ++ rest) ≡ ok (to_bytes n v) rest =
      subst (λ k. read_into k (to_bytes n v ++ rest) ≡ ok (to_bytes n v) rest) (length-to_bytes n v)
        (read_into-append (to_bytes n v) rest) in
    >>=-ok (read_into n) (λ p. pure (from_bytes 0 p)) (to_bytes n v ++ rest) step
    ∙ ap (λ k. ok k rest) (from_bytes-to_bytes n v f)

-- A number behind the format byte that announces it.
pub fixed_then :
    {A : Type 0} (f : ℕ → Reader A) (n v : ℕ) (rest : Bytes)
    → FitsIn n v
    → (read_fixed n >>= f) (to_bytes n v ++ rest) ≡ f v rest
fixed_then f n v rest h =
    >>=-ok (read_fixed n) f (to_bytes n v ++ rest) (read_fixed-to_bytes n v rest h)

read_integer-append_uint :
    (v : ℕ) (rest : Bytes) → v < 2 ^ 64 → read_integer (append_uint v ++ rest) ≡ ok (v, false) rest
unfolding read_integer read_byte integer_at append_uint
read_integer-append_uint v rest h =
    on_if Reads (leb v 127) (λ t. ground (arith, t))
      (λ a.
        on_if Reads (leb v 255)
          (λ t. fixed_then (λ k. pure (k, false)) 1 v rest (ground (arith, t)))
          (λ b.
            on_if Reads (leb v 65535)
              (λ t. fixed_then (λ k. pure (k, false)) 2 v rest (ground (arith, t)))
              (λ c.
                on_if Reads (leb v 4294967295)
                  (λ t. fixed_then (λ k. pure (k, false)) 4 v rest (ground (arith, t)))
                  (λ d. fixed_then (λ k. pure (k, false)) 8 v rest (omega (arith, h))))))
  where
    Reads : Bytes → Type 0
    Reads xs = read_integer (xs ++ rest) ≡ ok (v, false) rest

pub read_uint-append_uint :
    (limit v : ℕ) (rest : Bytes)
    → v ≤ limit
    → v < 2 ^ 64
    → read_uint limit (append_uint v ++ rest) ≡ ok v rest
unfolding read_uint uint_of
read_uint-append_uint limit v rest le h =
    >>=-ok read_integer (uint_of limit) (append_uint v ++ rest) (read_integer-append_uint v rest h)
    ∙ ground (arith, le)

read_integer-append_int :
    (z : ℤ) (rest : Bytes)
    → IsInt64 z
    → read_integer (append_int z ++ rest) ≡ ok (wrap_to (2 ^ 64) z, ltb_ℤ z (pos 0)) rest
unfolding read_integer read_byte integer_at append_int sign_extend wrap_to
read_integer-append_int (pos n) rest (h, g) =
    on_if Reads (leb n 127) (λ t. ground (arith, t))
      (λ a.
        on_if Reads (leb n 32767)
          (λ t.
            fixed_then (λ v. pure (sign_extend (2 ^ 16) v)) 2 (n % 2 ^ 16) rest (omega arith)
            ∙ ground (arith, t))
          (λ b.
            on_if Reads (leb n 2147483647)
              (λ t.
                fixed_then (λ v. pure (sign_extend (2 ^ 32) v)) 4 (n % 2 ^ 32) rest (omega arith)
                ∙ ground (arith, t))
              (λ c.
                fixed_then (λ v. pure (sign_extend (2 ^ 64) v)) 8 (n % 2 ^ 64) rest (omega arith)
                ∙ ground (arith, h))))
  where
    Reads : Bytes → Type 0
    Reads xs = read_integer (xs ++ rest) ≡ ok (wrap_to (2 ^ 64) (pos n), ltb_ℤ (pos n) (pos 0)) rest
read_integer-append_int (negsuc n) rest (h, g) =
    on_if Reads (leb n 31) (λ t. ground (arith, t))
      (λ a.
        on_if Reads (leb n 127)
          (λ t.
            fixed_then (λ v. pure (sign_extend 256 v)) 1 (256 - 1 - n % 256) rest (omega arith)
            ∙ ground (arith, t))
          (λ b.
            on_if Reads (leb n 32767)
              (λ t.
                fixed_then (λ v. pure (sign_extend (2 ^ 16) v)) 2 (2 ^ 16 - 1 - n % 2 ^ 16) rest
                  (omega arith)
                ∙ ground (arith, t))
              (λ c.
                on_if Reads (leb n 2147483647)
                  (λ t.
                    fixed_then (λ v. pure (sign_extend (2 ^ 32) v)) 4 (2 ^ 32 - 1 - n % 2 ^ 32) rest
                      (omega arith)
                    ∙ ground (arith, t))
                  (λ d.
                    fixed_then (λ v. pure (sign_extend (2 ^ 64) v)) 8 (2 ^ 64 - 1 - n % 2 ^ 64) rest
                      (omega arith)
                    ∙ ground (arith, g)))))
  where
    Reads : Bytes → Type 0
    Reads xs =
        read_integer (xs ++ rest) ≡ ok (wrap_to (2 ^ 64) (negsuc n), ltb_ℤ (negsuc n) (pos 0)) rest

as_int64-wrap_to : (z : ℤ) → IsInt64 z → as_int64 (wrap_to (2 ^ 64) z) ≡ z
unfolding as_int64 wrap_to
as_int64-wrap_to (pos n) (h, g) = ground arith
as_int64-wrap_to (negsuc n) (h, g) = ground arith

-- `ReadInt` with the bounds of an `int`.
pub read_int-append_int :
    (z : ℤ) (rest : Bytes) → IsInt64 z → read_int min_int max_int (append_int z ++ rest) ≡ ok z rest
unfolding read_int int_of as_int64 wrap_to
read_int-append_int z rest h =
    >>=-ok read_integer (int_of min_int max_int) (append_int z ++ rest)
      (read_integer-append_int z rest h)
    ∙ in_bounds z h
  where
    in_bounds :
        (z : ℤ)
        → IsInt64 z
        → int_of min_int max_int (wrap_to (2 ^ 64) z, ltb_ℤ z (pos 0)) rest ≡ ok z rest
    in_bounds (pos n) (h, g) = ground arith
    in_bounds (negsuc n) (h, g) = ground arith
