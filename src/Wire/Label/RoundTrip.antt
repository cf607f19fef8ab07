-- ===== src/Wire/Label/RoundTrip.antt =====
-- label.go: label headers, added and removed again.
use mori.Prelude.{ℕ, zero, suc, ◌+◌, ◌≤◌, ◌<◌, ◌≡◌, refl, ap}
use mori.Prelude.{◌≢◌, true, false, Option, none, some}
use mori.Prelude.{[], ◌∷◌, ◌++◌, arith, ltb, ◌==◌}
use mori.Prelude.{ltb→lt, on_if}
use mori.Prelude.{length, take, drop, length-append, take-append-drop, length-take}
use mori.Prelude.{take-append, drop-append, All}
use mori.Prelude.{Bytes, IsByte}
use mori.Wire.Label.{
  Unlabelled, unlabelled, label_error, Stream, make_label_header, add_label_header_to_packet,
  split_label, remove_label_header_from_packet, peek, byte_at, new_peeked_conn,
  remove_label_header_from_stream, label_overhead,
}

-- The first byte of a message is no label's.
abbrev pub StartsPlain : Bytes → Type 0
StartsPlain [] = Unit
StartsPlain (b ∷ s) = b ≢ 244

split_label-append :
    (label buf : Bytes)
    → 1 ≤ length label
    → split_label (length label) (label ++ buf) ≡ unlabelled buf label
unfolding split_label
split_label-append label buf h =
    ground (arith, length-append label buf, take-append label buf, drop-append label buf)

plain_lem :
    (buf : Bytes) → StartsPlain buf → remove_label_header_from_packet buf ≡ unlabelled buf []
unfolding remove_label_header_from_packet
plain_lem [] h = refl
plain_lem (b ∷ []) h = ground arith
plain_lem (b ∷ c ∷ s) h = ground arith

-- What the addition of a label promises of its result.
abbrev pub Added : Bytes → Bytes → Option Bytes → Type 0
Added buf label none = 255 < length label
Added buf label (some packet) =
    (remove_label_header_from_packet packet ≡ unlabelled buf label)
    × (length packet ≡ label_overhead label + length buf)

-- A packet that a label was added to is labelOverhead bytes longer, and the removal gives back the
-- message and the label; for the empty label the message must not start with the byte of a label
-- header. Only a label of more than 255 bytes is refused.
pub remove-add_label :
    (buf label : Bytes)
    → (label ≡ [] → StartsPlain buf)
    → Added buf label (add_label_header_to_packet buf label)
unfolding add_label_header_to_packet label_overhead make_label_header
    remove_label_header_from_packet
remove-add_label buf [] plain = (plain_lem buf (plain refl), omega arith)
remove-add_label buf (b ∷ label) plain =
    let filled : (length (b ∷ label) == 0) ≡ false = ground arith in
    rw (add_label_header_to_packet, filled)
      (on_if (Added buf (b ∷ label)) (ltb 255 (length (b ∷ label)))
        (λ t. ltb→lt 255 (length (b ∷ label)) t)
        (λ f. (
          ground (arith, f, split_label-append (b ∷ label) buf (omega arith)),
          ground (arith, length-append label buf),
        )))

-- Whatever byte string the removal accepts, adding the label that it found to the rest gives the
-- packet back, if its elements are bytes: there is no second encoding.
pub add-remove_label :
    (packet buf label : Bytes)
    → All IsByte packet
    → remove_label_header_from_packet packet ≡ unlabelled buf label
    → add_label_header_to_packet buf label ≡ some packet
unfolding add_label_header_to_packet remove_label_header_from_packet make_label_header split_label
add-remove_label [] buf label bytes h = ground arith
add-remove_label (b ∷ []) buf label bytes h = ground arith
add-remove_label (b ∷ c ∷ s) buf label bytes h =
    ground (arith, length-take c s, take-append-drop c s, bytes)

take-take : (n : ℕ) (s : Bytes) → take n (take n s) ≡ take n s
take-take zero s = refl
take-take (suc n) [] = refl
take-take (suc n) (b ∷ s) = ap (λ t. b ∷ t) (take-take n s)

-- What the removal from a stream says in the packet's words.
abbrev pub as_unlabelled : Option (Stream × Bytes) → Unlabelled
as_unlabelled none = label_error
as_unlabelled (some (conn, label)) = unlabelled conn.unread label

-- A stream that ends in EOF is treated as the packet of its bytes is.
pub stream_as_packet :
    (s : Bytes)
    → as_unlabelled (remove_label_header_from_stream (record { unread = s; ends_in_eof = true }))
      ≡ remove_label_header_from_packet s
unfolding remove_label_header_from_stream remove_label_header_from_packet split_label peek
    new_peeked_conn
stream_as_packet [] = refl
stream_as_packet (b ∷ []) = ground arith
stream_as_packet (b ∷ c ∷ s) =
    let count : 2 + c ≡ suc (suc c) = omega arith in
    let two : byte_at 1 (take 2 (b ∷ c ∷ s)) ≡ c = refl in
    let one : byte_at 0 (take 1 (b ∷ c ∷ s)) ≡ b = refl in
    let label : take c (drop 2 (take (2 + c) (b ∷ c ∷ s))) ≡ take c s = rw count (take-take c s) in
    let rest : drop (2 + c) (b ∷ c ∷ s) ≡ drop c s = rw count in
    ground (arith, one, two, label, rest)
