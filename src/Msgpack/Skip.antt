-- ===== src/Msgpack/Skip.antt =====
-- msgpack.go: `Skip`, which consumes one value of any type.
use mori.Prelude.{ℕ, zero, suc, ◌+◌, ◌-◌, ◌*◌, ◌%◌, ◌^◌}
use mori.Prelude.{Bool, ◌||◌}
use mori.Prelude.{leb, ◌==◌, if◌then◌else◌}
use mori.Msgpack.Reader.{
  type_error, too_deep, Reader, pure, throw, ◌>>=◌, ◌>>◌, read_byte, read_fixed, discard,
  remaining_at_least,
}
use mori.Msgpack.Read.{in_range}

-- What follows a format byte: payload bytes, or elements. Both are zero after a value of one byte.
pub record Extent : Type 0 where
  pub payload : ℕ
  pub elems : ℕ

abbrev pub bytes_extent : ℕ → Reader Extent
bytes_extent n = pure (record { payload = n; elems = 0 })

abbrev pub elems_extent : ℕ → Reader Extent
elems_extent n = pure (record { payload = 0; elems = n })

-- The sizes that are written after the format byte.
unfoldable pub sized_extent : ℕ → Reader Extent
unfolding read_fixed
sized_extent c =
    if c == 217 || c == 196
    then (read_fixed 1 >>= bytes_extent)
    else if c == 218 || c == 197
    then (read_fixed 2 >>= bytes_extent)
    else if c == 219 || c == 198
    then (read_fixed 4 >>= bytes_extent)
    else if c == 199
    then (read_fixed 1 >>= λ n. bytes_extent (n + 1))
    else if c == 200
    then (read_fixed 2 >>= λ n. bytes_extent (n + 1))
    else if c == 201
    then (read_fixed 4 >>= λ n. bytes_extent (n + 1))
    else if c == 220
    then (read_fixed 2 >>= elems_extent)
    else if c == 221
    then (read_fixed 4 >>= elems_extent)
    else if c == 222
    then (read_fixed 2 >>= λ n. elems_extent (2 * n))
    else if c == 223
    then (read_fixed 4 >>= λ n. elems_extent (2 * n))
    else throw type_error

unfoldable pub extent : ℕ → Reader Extent
unfolding sized_extent
extent c =
    if leb c 127 || leb 224 c || c == 192 || c == 194 || c == 195
    then bytes_extent 0
    else if in_range 128 143 c
    then elems_extent (2 * (c % 16))
    else if in_range 144 159 c
    then elems_extent (c % 16)
    else if in_range 160 191 c
    then bytes_extent (c % 32)
    else if c == 204 || c == 208
    then bytes_extent 1
    else if c == 205 || c == 209
    then bytes_extent 2
    else if c == 206 || c == 210 || c == 202
    then bytes_extent 4
    else if c == 207 || c == 211 || c == 203
    then bytes_extent 8
    else if in_range 212 216 c
    then bytes_extent (1 + 2 ^ (c - 212))
    else sized_extent c

abbrev pub repeat : ℕ → Reader (Unit {0}) → Reader (Unit {0})
repeat zero m = pure tt
repeat (suc n) m = m >>= λ _. repeat n m

-- The payload, or the elements, each skipped by `element`.
unfoldable pub skip_extent : Bool → Reader (Unit {0}) → Extent → Reader (Unit {0})
unfolding discard remaining_at_least
skip_extent stream element e =
    if e.elems == 0
    then discard e.payload
    else (do remaining_at_least stream e.elems; repeat e.elems element)

-- `levels` is `maxSkipDepth + 1 - depth`: none are left where the source refuses the depth.
unfoldable pub skip_within : Bool → ℕ → Reader (Unit {0})
unfolding read_byte extent skip_extent
skip_within stream zero = throw too_deep
skip_within stream (suc levels) = do
  c ← read_byte
  e ← extent c
  skip_extent stream (skip_within stream levels) e

unfoldable pub skip : Bool → Reader (Unit {0})
unfolding skip_within
skip stream = skip_within stream 33
