-- ===== src/Wire/Compound.antt =====
-- util.go: compound messages.
use mori.Prelude.{
  ℕ, zero, suc, ◌+◌, ◌-◌, ◌*◌, ◌/◌, ◌%◌, ◌^◌, ◌≤◌, ◌<◌, min, max, ◌≡◌, refl, sym, ap, ap₂, ◌∙◌,
  subst,
}
use mori.Prelude.{◌≢◌, ◌↔◌, ◌⊎◌, inl, inr, Bool, true, false, not, ◌&&◌, ◌||◌, Option, none, some}
use mori.Prelude.{
  List, [], ◌∷◌, ◌++◌, map, append-nil, append_assoc, arith, ltb, leb, ◌==◌, if◌then◌else◌,
}
use mori.Prelude.{
  ltb→lt, lt→ltb, leb→le, ==_iff, tests, Bool-cases, Option-cases, Bool-contra, on_if,
}
use mori.Prelude.{
  length, get_elem?, set, take, drop, replicate, length-append, length-set, take-append-drop,
  length-take,
}
use mori.Prelude.{
  length-drop, take-append, drop-append, All, All-append, All-append_left, All-append_right,
  All-imp,
}
use mori.Prelude.{Bytes, IsByte, same, same_refl, same→eq, same_iff, same-cases, same_comm}
pub mod RoundTrip

-- `decodeCompoundMessage` returns the number of truncated messages and the parts, or an error.
pub data Decoded : Type 0 where
  decoded : ℕ → List Bytes → Decoded
  decode_error : Decoded

-- `compoundMsg`
abbrev compound_msg : ℕ
compound_msg = 7

-- `binary.BigEndian.AppendUint16` of a length.
unfoldable pub put_uint16 : ℕ → Bytes
put_uint16 n = (n / 256 % 256) ∷ (n % 256) ∷ []

unfoldable pub put_lengths : List Bytes → Bytes
unfolding put_uint16
put_lengths [] = []
put_lengths (m ∷ ms) = put_uint16 (length m) ++ put_lengths ms

unfoldable pub put_parts : List Bytes → Bytes
put_parts [] = []
put_parts (m ∷ ms) = m ++ put_parts ms

unfoldable pub make_compound_message : List Bytes → Bytes
unfolding put_lengths put_parts
make_compound_message msgs =
    compound_msg ∷ (length msgs % 256) ∷ (put_lengths msgs ++ put_parts msgs)

-- Each round takes 255 messages off, so their number is enough fuel.
unfoldable pub make_compound_loop : ℕ → List Bytes → List Bytes
unfolding make_compound_message
make_compound_loop zero msgs = []
make_compound_loop (suc fuel) msgs =
    let rest = make_compound_loop fuel (drop 255 msgs) in
    if ltb 255 (length msgs)
    then make_compound_message (take 255 msgs) ∷ rest
    else if ltb 0 (length msgs)
    then make_compound_message msgs ∷ []
    else []

unfoldable pub make_compound_messages : List Bytes → List Bytes
unfolding make_compound_loop
make_compound_messages msgs = make_compound_loop (length msgs + 1) msgs

-- The lengths, from a buffer that holds them all.
unfoldable pub get_lengths : ℕ → Bytes → List ℕ
get_lengths (suc n) (hi ∷ lo ∷ buf) = (hi * 256 + lo) ∷ get_lengths n buf
get_lengths _ _ = []

unfoldable pub split_parts : List ℕ → Bytes → ℕ × List Bytes
split_parts [] buf = (0, [])
split_parts (n ∷ ns) buf =
    let (trunc, parts) = split_parts ns (drop n buf) in
    if ltb (length buf) n then (length (n ∷ ns), []) else (trunc, take n buf ∷ parts)

unfoldable pub decode_compound_message : Bytes → Decoded
unfolding get_lengths split_parts
decode_compound_message [] = decode_error
decode_compound_message (num_parts ∷ buf) =
    if ltb (length buf) (num_parts * 2)
    then decode_error
    else let (trunc, parts) = split_parts (get_lengths num_parts buf) (drop (num_parts * 2) buf) in
      decoded trunc parts
