-- ===== src/Msgpack/Stable.antt =====
-- msgpack.go: the decoders on longer inputs.
use mori.Prelude.{ℕ, zero, suc, ◌≤◌, ◌≡◌, refl, ap, ap₂}
use mori.Prelude.{◌⊎◌, inl, inr, Bool, true, false, Option, none, some}
use mori.Prelude.{[], ◌∷◌, ◌++◌, arith, ltb, ◌==◌, if◌then◌else◌}
use mori.Prelude.{Bool-cases, on_if}
use mori.Prelude.{length, take, drop, length-append}
use mori.Prelude.{Bytes}
use mori.Prelude.Int.{ℤ}
use mori.Msgpack.Reader.{
  Error, truncated, too_deep, and_then, Result, ok, err, Reader, pure, throw, ◌>>=◌, read_byte,
  read_into, from_bytes, read_fixed, discard, remaining_at_least,
}
use mori.Msgpack.Read.{
  map_count, map_header_at, read_map_header, raw_len_at, raw_len, bytes_of, read_bytes, string_of,
  read_string, key_of, read_key, integer_at, read_integer, uint_of, read_uint, int_of, read_int,
  bool_at, read_bool,
}
use mori.Msgpack.Skip.{sized_extent, extent, repeat, skip_extent, skip_within, skip}

-- The result x, with `more` behind the input, of a decoder whose result was r.
abbrev pub Extends : {A : Type 0} → Bytes → Result A → Result A → Type 0
Extends more (ok a rest) x = x ≡ ok a (rest ++ more)
Extends more (err e) x = (e ≡ truncated) ⊎ (x ≡ err e)

pub record IsStable {A : Type 0} (m : Reader A) : Type 0 where
  pub extends : (buf more : Bytes) → Extends more (m buf) (m (buf ++ more))

pub pure-IsStable : {A : Type 0} (a : A) → IsStable (pure a)
pure-IsStable a = record { extends = λ buf more. refl }

pub throw-IsStable : {A : Type 0} (e : Error) → IsStable (throw {A = A} e)
throw-IsStable e = record { extends = λ buf more. inr refl }

pub >>=-IsStable :
    {A B : Type 0} {m : Reader A} {f : A → Reader B}
    → IsStable m
    → ((a : A) → IsStable (f a))
    → IsStable (m >>= f)
>>=-IsStable {A} {B} {m} {f} p q = record {
  extends = λ buf more. step more (m buf) (m (buf ++ more)) (p.extends buf more);
}
  where
    step :
        (more : Bytes) (r x : Result A)
        → Extends more r x
        → Extends more (and_then r f) (and_then x f)
    step more (ok a rest) x e = rw e ((q a).extends rest more)
    step more (err g) x (inl e) = inl e
    step more (err g) x (inr e) = rw e (inr refl)

pub if-IsStable :
    {A : Type 0} (b : Bool) {m n : Reader A}
    → IsStable m
    → IsStable n
    → IsStable (if b then m else n)
if-IsStable b p q = on_if IsStable b (λ _. p) (λ _. q)

pub read_byte-IsStable : IsStable read_byte
unfolding read_byte
read_byte-IsStable = record { extends = at }
  where
    at : (buf more : Bytes) → Extends more (read_byte buf) (read_byte (buf ++ more))
    at [] more = inl refl
    at (c ∷ buf) more = refl

take-append_short : (n : ℕ) (buf more : Bytes) → n ≤ length buf → take n (buf ++ more) ≡ take n buf
take-append_short zero buf more h = refl
take-append_short (suc n) [] more h = absurd (omega (arith, h))
take-append_short (suc n) (b ∷ buf) more h =
    ap (λ p. b ∷ p) (take-append_short n buf more (omega (arith, h)))

drop-append_short :
    (n : ℕ) (buf more : Bytes) → n ≤ length buf → drop n (buf ++ more) ≡ drop n buf ++ more
drop-append_short zero buf more h = refl
drop-append_short (suc n) [] more h = absurd (omega (arith, h))
drop-append_short (suc n) (b ∷ buf) more h = drop-append_short n buf more (omega (arith, h))

still_enough :
    (n : ℕ) (buf more : Bytes) → ltb (length buf) n ≡ false → ltb (length (buf ++ more)) n ≡ false
still_enough n buf more e = ground (arith, length-append buf more, e)

pub read_into-IsStable : (n : ℕ) → IsStable (read_into n)
unfolding read_into
read_into-IsStable n = record {
  extends = λ buf more. at buf more (Bool-cases (ltb (length buf) n));
}
  where
    at :
        (buf more : Bytes)
        → (ltb (length buf) n ≡ true) ⊎ (ltb (length buf) n ≡ false)
        → Extends more (read_into n buf) (read_into n (buf ++ more))
    at buf more (inl e) = rw e (inl refl)
    at buf more (inr e) =
        let le : n ≤ length buf = ground (arith, e) in
        rw (e, still_enough n buf more e)
          (ap₂ ok (take-append_short n buf more le) (drop-append_short n buf more le))

pub remaining_at_least-IsStable : (stream : Bool) (n : ℕ) → IsStable (remaining_at_least stream n)
unfolding remaining_at_least
remaining_at_least-IsStable true n = record { extends = λ buf more. refl }
remaining_at_least-IsStable false n = record {
  extends = λ buf more. at buf more (Bool-cases (ltb (length buf) n));
}
  where
    at :
        (buf more : Bytes)
        → (ltb (length buf) n ≡ true) ⊎ (ltb (length buf) n ≡ false)
        → Extends more (remaining_at_least false n buf) (remaining_at_least false n (buf ++ more))
    at buf more (inl e) = rw e (inl refl)
    at buf more (inr e) = rw (e, still_enough n buf more e) refl

pub read_fixed-IsStable : (n : ℕ) → IsStable (read_fixed n)
unfolding read_fixed
read_fixed-IsStable n = >>=-IsStable (read_into-IsStable n) (λ p. pure-IsStable (from_bytes 0 p))

pub discard-IsStable : (n : ℕ) → IsStable (discard n)
unfolding discard
discard-IsStable n = >>=-IsStable (read_into-IsStable n) (λ p. pure-IsStable tt)

pub ruleset stable = (
  pure-IsStable, throw-IsStable, >>=-IsStable, if-IsStable, read_byte-IsStable, read_into-IsStable,
  remaining_at_least-IsStable, read_fixed-IsStable, discard-IsStable,
)

pub map_count-IsStable : (stream : Bool) (n : ℕ) → IsStable (map_count stream n)
unfolding map_count
map_count-IsStable stream n = search stable depth 9

pub read_map_header-IsStable : (stream : Bool) → IsStable (read_map_header stream)
unfolding read_map_header map_header_at
read_map_header-IsStable stream = search (stable, map_count-IsStable) depth 12

pub raw_len-IsStable : IsStable raw_len
unfolding raw_len raw_len_at
raw_len-IsStable = search stable depth 12

pub read_integer-IsStable : IsStable read_integer
unfolding read_integer integer_at
read_integer-IsStable = search stable depth 18

pub read_bytes-IsStable : (limit : ℕ) → IsStable (read_bytes limit)
unfolding read_bytes bytes_of
read_bytes-IsStable limit = >>=-IsStable raw_len-IsStable at
  where
    at : (o : Option ℕ) → IsStable (bytes_of limit o)
    at none = pure-IsStable none
    at (some n) = search stable depth 7

pub read_string-IsStable : (limit : ℕ) → IsStable (read_string limit)
unfolding read_string string_of
read_string-IsStable limit = >>=-IsStable raw_len-IsStable at
  where
    at : (o : Option ℕ) → IsStable (string_of limit o)
    at none = pure-IsStable []
    at (some n) = search stable depth 7

pub read_key-IsStable : IsStable read_key
unfolding read_key key_of
read_key-IsStable = >>=-IsStable raw_len-IsStable at
  where
    at : (o : Option ℕ) → IsStable (key_of o)
    at none = pure-IsStable []
    at (some n) = search stable depth 7

pub read_uint-IsStable : (limit : ℕ) → IsStable (read_uint limit)
unfolding read_uint uint_of
read_uint-IsStable limit = >>=-IsStable read_integer-IsStable (λ (v, neg). search stable depth 7)

pub read_int-IsStable : (lo hi : ℤ) → IsStable (read_int lo hi)
unfolding read_int int_of
read_int-IsStable lo hi = >>=-IsStable read_integer-IsStable (λ (v, neg). search stable depth 7)

pub read_bool-IsStable : IsStable read_bool
unfolding read_bool bool_at
read_bool-IsStable = search stable depth 7

extent-IsStable : (c : ℕ) → IsStable (extent c)
unfolding extent sized_extent
extent-IsStable c = search stable depth 28

repeat-IsStable : (n : ℕ) (m : Reader (Unit {0})) → IsStable m → IsStable (repeat n m)
repeat-IsStable zero m p = pure-IsStable tt
repeat-IsStable (suc n) m p = >>=-IsStable p (λ _. repeat-IsStable n m p)

skip_within-IsStable : (stream : Bool) (levels : ℕ) → IsStable (skip_within stream levels)
unfolding skip_within skip_extent
skip_within-IsStable stream zero = throw-IsStable too_deep
skip_within-IsStable stream (suc levels) = >>=-IsStable read_byte-IsStable (λ c.
    >>=-IsStable (extent-IsStable c) (λ e. if-IsStable (e.elems == 0) (discard-IsStable e.payload) (
      >>=-IsStable (remaining_at_least-IsStable stream e.elems) (λ _.
        repeat-IsStable e.elems (skip_within stream levels) (skip_within-IsStable stream levels)))))

pub skip-IsStable : (stream : Bool) → IsStable (skip stream)
unfolding skip
skip-IsStable stream = skip_within-IsStable stream 33
