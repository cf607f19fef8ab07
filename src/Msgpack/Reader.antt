-- ===== src/Msgpack/Reader.antt =====
-- The decoder of msgpack.go: what it reads from, its errors, and its primitive steps. A decoder is the
-- input that it has not read. In slice mode it knows how much that is; a stream ends with EOF there.
use mori.Prelude.{ℕ, ◌+◌, ◌*◌, ◌≡◌, ap}
use mori.Prelude.{Bool, not, ◌&&◌}
use mori.Prelude.{[], ◌∷◌, ltb, if◌then◌else◌}
use mori.Prelude.{length, take, drop}
use mori.Prelude.{Bytes}
use mori.Prelude.Int.{ℤ, pos, negsuc}

pub data Error : Type 0 where
  truncated type_error negative_length too_long count_limit negative_value overflow too_deep : Error

pub data Result (A : Type 0) : Type 0 where
  ok : A → Bytes → Result A
  err : Error → Result A

abbrev pub Reader : Type 0 → Type 0
Reader A = Bytes → Result A

abbrev pub pure : {A : Type 0} → A → Reader A
pure a buf = ok a buf

abbrev pub throw : {A : Type 0} → Error → Reader A
throw e buf = err e

abbrev pub and_then : {A B : Type 0} → Result A → (A → Reader B) → Result B
and_then (ok a rest) f = f a rest
and_then (err e) f = err e

infixl 5 ◌>>=◌ ◌>>◌
abbrev pub ◌>>=◌ : {A B : Type 0} → Reader A → (A → Reader B) → Reader B
◌>>=◌ m f buf = and_then (m buf) f

abbrev pub ◌>>◌ : {A B : Type 0} → Reader A → Reader B → Reader B
m >> k = m >>= λ _. k

unfoldable pub read_byte : Reader ℕ
read_byte [] = err truncated
read_byte (c ∷ buf) = ok c buf

-- `readInto`: the next n bytes. A stream hands them over in chunks.
unfoldable pub read_into : ℕ → Reader Bytes
read_into n buf = if ltb (length buf) n then err truncated else ok (take n buf) (drop n buf)

-- The big-endian value of bytes, at most eight.
abbrev pub from_bytes : ℕ → Bytes → ℕ
from_bytes v [] = v
from_bytes v (c ∷ p) = from_bytes (v * 256 + c) p

unfoldable pub read_fixed : ℕ → Reader ℕ
unfolding read_into
read_fixed n = do p ← read_into n; pure (from_bytes 0 p)

unfoldable pub discard : ℕ → Reader (Unit {0})
unfolding read_into
discard n = do p ← read_into n; pure tt

-- The checks on `Remaining`, which a stream does not know.
unfoldable pub remaining_at_least : Bool → ℕ → Reader (Unit {0})
remaining_at_least stream n buf =
    if not stream && ltb (length buf) n then err truncated else ok tt buf

-- `ReadRaw`, of a length that may be negative.
unfoldable pub read_raw : ℤ → Reader Bytes
unfolding read_into
read_raw (pos n) = read_into n
read_raw (negsuc n) = throw negative_length

pub >>=-ok :
    {A B : Type 0} (m : Reader A) (f : A → Reader B) (buf : Bytes) {a : A} {rest : Bytes}
    → m buf ≡ ok a rest
    → (m >>= f) buf ≡ f a rest
>>=-ok m f buf e = ap (λ r. and_then r f) e
