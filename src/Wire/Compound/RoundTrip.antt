-- ===== src/Wire/Compound/RoundTrip.antt =====
-- util.go: compound messages, packed and decoded again.
use mori.Prelude.{ℕ, zero, suc, ◌+◌, ◌*◌, ◌%◌, ◌^◌, ◌≤◌, ◌<◌, ◌≡◌, refl, sym, ap, ap₂, ◌∙◌}
use mori.Prelude.{true, Option, none, some}
use mori.Prelude.{List, [], ◌∷◌, ◌++◌, map, append-nil, arith, ltb}
use mori.Prelude.{ltb→lt, on_if}
use mori.Prelude.{length, take, drop, length-append, take-append-drop, length-take}
use mori.Prelude.{length-drop, take-append, drop-append, All}
use mori.Prelude.{Bytes}
use mori.Wire.Compound.{
  decoded, decode_error, put_uint16, put_lengths, put_parts, make_compound_message,
  make_compound_loop, make_compound_messages, get_lengths, split_parts, decode_compound_message,
}

-- The length fits a uint16.
abbrev pub Fits : Bytes → Type 0
Fits m = length m < 2 ^ 16

length-put_lengths : (ms : List Bytes) → length (put_lengths ms) ≡ length ms * 2
unfolding put_lengths put_uint16
length-put_lengths [] = refl
length-put_lengths (m ∷ ms) = omega (arith, length-put_lengths ms)

get-put_lengths :
    (ms : List Bytes) (rest : Bytes)
    → All Fits ms
    → get_lengths (length ms) (put_lengths ms ++ rest) ≡ map length ms
unfolding put_lengths put_uint16 get_lengths
get-put_lengths [] rest f = refl
get-put_lengths (m ∷ ms) rest (f, fs) =
    ap₂ (λ a b. a ∷ b) (omega arith) (get-put_lengths ms rest fs)

split-put_parts : (ms : List Bytes) → split_parts (map length ms) (put_parts ms) ≡ (0, ms)
unfolding split_parts put_parts
split-put_parts [] = refl
split-put_parts (m ∷ ms) =
    rw (drop-append m (put_parts ms), take-append m (put_parts ms), split-put_parts ms)
      (ground (arith, length-append m (put_parts ms)))

-- Up to 255 messages, each with a length that fits a uint16, come back from the compound message
-- that they were packed in, in order, unchanged and none truncated.
pub decode-make_compound :
    (ms : List Bytes)
    → length ms ≤ 255
    → All Fits ms
    → decode_compound_message (drop 1 (make_compound_message ms)) ≡ decoded 0 ms
unfolding decode_compound_message make_compound_message
decode-make_compound ms few fits =
    let count : length ms % 256 ≡ length ms = omega arith in
    let len = length-put_lengths ms in
    let skip : drop (length ms * 2) (put_lengths ms ++ put_parts ms) ≡ put_parts ms =
      rw (sym len) (drop-append (put_lengths ms) (put_parts ms)) in
    rw (count, get-put_lengths ms (put_parts ms) fits, skip, split-put_parts ms)
      (ground (arith, length-append (put_lengths ms) (put_parts ms), len))

unfoldable pub parts_if : ℕ → List Bytes → Option (List Bytes) → Option (List Bytes)
parts_if zero parts (some rest) = some (parts ++ rest)
parts_if _ _ _ = none

-- The messages of several compound messages, none where one is in error or truncated.
unfoldable pub unpack_all : List Bytes → Option (List Bytes)
unfolding parts_if
unpack_all [] = some []
unpack_all (p ∷ ps) = elim (decode_compound_message (drop 1 p)) [
  | decoded trunc parts ↦ parts_if trunc parts (unpack_all ps)
  | decode_error ↦ none
]

All-take : (P : Bytes → Type 0) (n : ℕ) (ms : List Bytes) → All P ms → All P (take n ms)
All-take P zero ms h = tt
All-take P (suc n) [] h = tt
All-take P (suc n) (m ∷ ms) (p, h) = (p, All-take P n ms h)

All-drop : (P : Bytes → Type 0) (n : ℕ) (ms : List Bytes) → All P ms → All P (drop n ms)
All-drop P zero ms h = h
All-drop P (suc n) [] h = tt
All-drop P (suc n) (m ∷ ms) (p, h) = All-drop P n ms h

unpack-one :
    (ms : List Bytes) (ps : List Bytes)
    → length ms ≤ 255
    → All Fits ms
    → unpack_all (make_compound_message ms ∷ ps) ≡ parts_if 0 ms (unpack_all ps)
unfolding unpack_all
unpack-one ms ps few fits = rw (unpack_all, decode-make_compound ms few fits) refl

parts-rest :
    (n : ℕ) (ms : List Bytes) {rest : Option (List Bytes)}
    → rest ≡ some (drop n ms)
    → parts_if 0 (take n ms) rest ≡ some ms
unfolding parts_if
parts-rest n ms e = rw (e, take-append-drop n ms)

unpack-make_compound_loop :
    (fuel : ℕ) (ms : List Bytes)
    → length ms < fuel
    → All Fits ms
    → unpack_all (make_compound_loop fuel ms) ≡ some ms
unfolding make_compound_loop
unpack-make_compound_loop zero ms h fits = absurd (omega arith)
unpack-make_compound_loop (suc fuel) [] h fits = unfold unpack_all in refl
unpack-make_compound_loop (suc fuel) (m ∷ ms) h fits =
    on_if (λ ps. unpack_all ps ≡ some (m ∷ ms)) (ltb 255 (length (m ∷ ms)))
      (λ t.
        let more : 255 < length (m ∷ ms) = ltb→lt 255 (length (m ∷ ms)) t in
        let rec : unpack_all (make_compound_loop fuel (drop 255 (m ∷ ms)))
            ≡ some (drop 255 (m ∷ ms)) =
          unpack-make_compound_loop fuel (drop 255 (m ∷ ms))
            (omega (arith, more, h, length-drop 255 (m ∷ ms))) (All-drop Fits 255 (m ∷ ms) fits) in
        unpack-one (take 255 (m ∷ ms)) (make_compound_loop fuel (drop 255 (m ∷ ms)))
          (omega (arith, length-take 255 (m ∷ ms))) (All-take Fits 255 (m ∷ ms) fits)
        ∙ parts-rest 255 (m ∷ ms) rec)
      (λ f.
        let few : length (m ∷ ms) ≤ 255 = ground (arith, f) in
        let filled : ltb 0 (length (m ∷ ms)) ≡ true = ground arith in
        rw filled (
          unpack-one (m ∷ ms) [] few fits
          ∙ (unfold parts_if unpack_all in ap some (append-nil (m ∷ ms)))))

-- However many messages there are, decoding the compound messages that they were packed in, one
-- after the other, gives them all back in order; each length must fit a uint16.
pub unpack-make_compound_messages :
    (ms : List Bytes) → All Fits ms → unpack_all (make_compound_messages ms) ≡ some ms
unfolding make_compound_messages
unpack-make_compound_messages ms fits =
    unpack-make_compound_loop (length ms + 1) ms (omega arith) fits
