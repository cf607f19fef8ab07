-- ===== src/Msgpack/Read.antt =====
-- msgpack.go: the reading of values. `stream` tells the mode of the decoder.
use mori.Prelude.{ℕ, ◌+◌, ◌-◌, ◌*◌, ◌/◌, ◌%◌, ◌^◌}
use mori.Prelude.{Bool, true, false, not, ◌&&◌, ◌||◌, Option, none, some}
use mori.Prelude.{[], ltb, leb, ◌==◌, if◌then◌else◌}
use mori.Prelude.{Bytes}
use mori.Prelude.Int.{ℤ, pos, negsuc, ltb_ℤ}
use mori.Msgpack.Reader.{
  type_error, too_long, count_limit, negative_value, overflow, Reader, pure, throw, ◌>>=◌, ◌>>◌,
  read_byte, read_into, read_fixed, discard, remaining_at_least,
}

abbrev pub in_range : ℕ → ℕ → ℕ → Bool
in_range lo hi c = leb lo c && leb c hi

-- `ReadMapHeader`
unfoldable pub map_count : Bool → ℕ → Reader ℕ
unfolding remaining_at_least
map_count stream n =
    if ltb 2147483647 n then throw count_limit else (do remaining_at_least stream (2 * n); pure n)

unfoldable pub map_header_at : Bool → ℕ → Reader ℕ
unfolding read_fixed map_count
map_header_at stream c =
    if in_range 128 143 c
    then pure (c % 16)
    else if c == 192
    then pure 0
    else if c == 222
    then read_fixed 2 >>= map_count stream
    else if c == 223
    then read_fixed 4 >>= map_count stream
    else throw type_error

unfoldable pub read_map_header : Bool → Reader ℕ
unfolding read_byte map_header_at
read_map_header stream = read_byte >>= map_header_at stream

-- `rawLen`: the length, or none for nil.
unfoldable pub raw_len_at : ℕ → Reader (Option ℕ)
unfolding read_fixed
raw_len_at c =
    if in_range 160 191 c
    then pure (some (c % 32))
    else if c == 192
    then pure none
    else if c == 217 || c == 196
    then (read_fixed 1 >>= λ n. pure (some n))
    else if c == 218 || c == 197
    then (read_fixed 2 >>= λ n. pure (some n))
    else if c == 219 || c == 198
    then (read_fixed 4 >>= λ n. pure (some n))
    else throw type_error

unfoldable pub raw_len : Reader (Option ℕ)
unfolding read_byte raw_len_at
raw_len = read_byte >>= raw_len_at

unfoldable pub bytes_of : ℕ → Option ℕ → Reader (Option Bytes)
unfolding read_into
bytes_of limit none = pure none
bytes_of limit (some n) =
    if ltb limit n
    then throw too_long
    else if n == 0
    then pure (some [])
    else (do p ← read_into n; pure (some p))

unfoldable pub read_bytes : ℕ → Reader (Option Bytes)
unfolding raw_len bytes_of
read_bytes limit = raw_len >>= bytes_of limit

unfoldable pub string_of : ℕ → Option ℕ → Reader Bytes
unfolding read_into
string_of limit none = pure []
string_of limit (some n) =
    if n == 0 then pure [] else if ltb limit n then throw too_long else read_into n

unfoldable pub read_string : ℕ → Reader Bytes
unfolding raw_len string_of
read_string limit = raw_len >>= string_of limit

-- `ReadKey`; a nil key and one of more than `maxKeyLen` bytes read as the empty string.
unfoldable pub key_of : Option ℕ → Reader Bytes
unfolding read_into discard
key_of none = pure []
key_of (some n) = if ltb 64 n then (do discard n; pure []) else read_into n

unfoldable pub read_key : Reader Bytes
unfolding raw_len key_of
read_key = raw_len >>= key_of

-- An integer of `m` values from its unsigned bits, as a uint64, and whether it is negative.
unfoldable pub sign_extend : ℕ → ℕ → ℕ × Bool
sign_extend m v = if ltb v (m / 2) then (v, false) else (v + (2 ^ 64 - m), true)

unfoldable pub integer_at : ℕ → Reader (ℕ × Bool)
unfolding read_fixed sign_extend
integer_at c =
    if leb c 127
    then pure (c, false)
    else if leb 224 c
    then pure (sign_extend 256 c)
    else if c == 192
    then pure (0, false)
    else if c == 204
    then (read_fixed 1 >>= λ v. pure (v, false))
    else if c == 205
    then (read_fixed 2 >>= λ v. pure (v, false))
    else if c == 206
    then (read_fixed 4 >>= λ v. pure (v, false))
    else if c == 207
    then (read_fixed 8 >>= λ v. pure (v, false))
    else if c == 208
    then (read_fixed 1 >>= λ v. pure (sign_extend 256 v))
    else if c == 209
    then (read_fixed 2 >>= λ v. pure (sign_extend (2 ^ 16) v))
    else if c == 210
    then (read_fixed 4 >>= λ v. pure (sign_extend (2 ^ 32) v))
    else if c == 211
    then (read_fixed 8 >>= λ v. pure (sign_extend (2 ^ 64) v))
    else throw type_error

unfoldable pub read_integer : Reader (ℕ × Bool)
unfolding read_byte integer_at
read_integer = read_byte >>= integer_at

unfoldable pub uint_of : ℕ → ℕ × Bool → Reader ℕ
uint_of limit (v, neg) =
    if neg then throw negative_value else if ltb limit v then throw overflow else pure v

unfoldable pub read_uint : ℕ → Reader ℕ
unfolding read_integer uint_of
read_uint limit = read_integer >>= uint_of limit

-- `math.MinInt` and `math.MaxInt`
abbrev pub min_int : ℤ
min_int = negsuc (2 ^ 63 - 1)

abbrev pub max_int : ℤ
max_int = pos (2 ^ 63 - 1)

-- `int64(v)`
unfoldable pub as_int64 : ℕ → ℤ
as_int64 v = if ltb v (2 ^ 63) then pos v else negsuc (2 ^ 64 - 1 - v)

unfoldable pub int_of : ℤ → ℤ → ℕ × Bool → Reader ℤ
unfolding as_int64
int_of lo hi (v, neg) =
    if not neg && ltb (2 ^ 63 - 1) v
    then throw overflow
    else if ltb_ℤ (as_int64 v) lo || ltb_ℤ hi (as_int64 v)
    then throw overflow
    else pure (as_int64 v)

unfoldable pub read_int : ℤ → ℤ → Reader ℤ
unfolding read_integer int_of
read_int lo hi = read_integer >>= int_of lo hi

unfoldable pub bool_at : ℕ → Reader Bool
bool_at c =
    if c == 195 || c == 1
    then pure true
    else if c == 194 || c == 0 || c == 192
    then pure false
    else throw type_error

unfoldable pub read_bool : Reader Bool
unfolding read_byte bool_at
read_bool = read_byte >>= bool_at
