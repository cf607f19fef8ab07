-- ===== src/Msgpack/Append.antt =====
-- msgpack.go: the encoders. Each gives the bytes that its source function appends.
use mori.Prelude.{ℕ, zero, suc, ◌+◌, ◌-◌, ◌/◌, ◌%◌, ◌^◌}
use mori.Prelude.{Bool, Option, none, some}
use mori.Prelude.{[], ◌∷◌, ◌++◌, ltb, leb, if◌then◌else◌}
use mori.Prelude.{length}
use mori.Prelude.{Bytes}
use mori.Prelude.Int.{ℤ, pos, negsuc}

-- The low bytes of a number, the first the most significant.
abbrev pub to_bytes : ℕ → ℕ → Bytes
to_bytes zero v = []
to_bytes (suc n) v = to_bytes n (v / 256) ++ ((v % 256) ∷ [])

unfoldable pub append_nil : Bytes
append_nil = 192 ∷ []

unfoldable pub append_bool : Bool → Bytes
append_bool v = if v then 195 ∷ [] else 194 ∷ []

-- `v` is a uint64.
unfoldable pub append_uint : ℕ → Bytes
append_uint v =
    if leb v 127
    then v ∷ []
    else if leb v 255
    then 204 ∷ to_bytes 1 v
    else if leb v 65535
    then 205 ∷ to_bytes 2 v
    else if leb v 4294967295
    then 206 ∷ to_bytes 4 v
    else 207 ∷ to_bytes 8 v

-- The conversion of an int64 to an unsigned type of `m` values.
unfoldable pub wrap_to : ℕ → ℤ → ℕ
wrap_to m (pos n) = n % m
wrap_to m (negsuc n) = m - 1 - n % m

-- `v` is an int64.
unfoldable pub append_int : ℤ → Bytes
unfolding wrap_to
append_int (pos n) =
    if leb n 127
    then n ∷ []
    else if leb n 32767
    then 209 ∷ to_bytes 2 (wrap_to (2 ^ 16) (pos n))
    else if leb n 2147483647
    then 210 ∷ to_bytes 4 (wrap_to (2 ^ 32) (pos n))
    else 211 ∷ to_bytes 8 (wrap_to (2 ^ 64) (pos n))
append_int (negsuc n) =
    if leb n 31
    then wrap_to 256 (negsuc n) ∷ []
    else if leb n 127
    then 208 ∷ to_bytes 1 (wrap_to 256 (negsuc n))
    else if leb n 32767
    then 209 ∷ to_bytes 2 (wrap_to (2 ^ 16) (negsuc n))
    else if leb n 2147483647
    then 210 ∷ to_bytes 4 (wrap_to (2 ^ 32) (negsuc n))
    else 211 ∷ to_bytes 8 (wrap_to (2 ^ 64) (negsuc n))

unfoldable pub append_raw_header : ℕ → Bytes
append_raw_header n =
    if ltb n 32
    then (160 + n) ∷ []
    else if ltb n 65536
    then 218 ∷ to_bytes 2 n
    else 219 ∷ to_bytes 4 n

unfoldable pub append_string : Bytes → Bytes
unfolding append_raw_header
append_string s = append_raw_header (length s) ++ s

-- A byte slice may be nil.
unfoldable pub append_bytes : Option Bytes → Bytes
unfolding append_nil append_raw_header
append_bytes none = append_nil
append_bytes (some p) = append_raw_header (length p) ++ p

unfoldable pub append_map_header : ℕ → Bytes
append_map_header n =
    if ltb n 16
    then (128 + n) ∷ []
    else if ltb n 65536
    then 222 ∷ to_bytes 2 n
    else 223 ∷ to_bytes 4 n
