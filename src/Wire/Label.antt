-- ===== src/Wire/Label.antt =====
-- label.go: the label header of packets and streams.
use mori.Prelude.{
  ℕ, zero, suc, ◌+◌, ◌-◌, ◌*◌, ◌/◌, ◌%◌, ◌^◌, ◌≤◌, ◌<◌, min, max, ◌≡◌, refl, sym, ap, ap₂, ◌∙◌,
  subst,
}
use mori.Prelude.{◌≢◌, ◌↔◌, ◌⊎◌, inl, inr, Bool, true, false, not, ◌&&◌, ◌||◌, Option, none, some}
use mori.Prelude.{
  List, [], ◌∷◌, ◌++◌, map, append-nil, append_assoc, arith, ltb, leb, ◌==◌, if◌then◌else◌,
}
use mori.Prelude.{
  ltb→lt, lt→ltb, leb→le, ==_iff, tests, Bool-cases, Option-cases, Bool-contra, on_if,
}
use mori.Prelude.{
  length, get_elem?, set, take, drop, replicate, length-append, length-set, take-append-drop,
  length-take,
}
use mori.Prelude.{
  length-drop, take-append, drop-append, All, All-append, All-append_left, All-append_right,
  All-imp,
}
use mori.Prelude.{Bytes, IsByte, same, same_refl, same→eq, same_iff, same-cases, same_comm}
pub mod RoundTrip

-- `RemoveLabelHeader...` returns the rest and the label, or an error.
pub data Unlabelled : Type 0 where
  unlabelled : Bytes → Bytes → Unlabelled
  label_error : Unlabelled

-- What a connection still delivers, and whether it then ends with `io.EOF` or with another error.
pub record Stream : Type 0 where
  pub unread : Bytes
  pub ends_in_eof : Bool

-- `hasLabelMsg`
abbrev has_label_msg : ℕ
has_label_msg = 244

-- `LabelMaxSize`
abbrev label_max_size : ℕ
label_max_size = 255

unfoldable pub make_label_header : Bytes → Bytes → Bytes
make_label_header label rest = has_label_msg ∷ (length label % 256) ∷ (label ++ rest)

unfoldable pub add_label_header_to_packet : Bytes → Bytes → Option Bytes
unfolding make_label_header
add_label_header_to_packet buf label =
    if length label == 0
    then some buf
    else if ltb label_max_size (length label)
    then none
    else some (make_label_header label buf)

unfoldable pub split_label : ℕ → Bytes → Unlabelled
split_label size rest =
    if ltb size 1
    then label_error
    else if ltb (length rest) size
    then label_error
    else unlabelled (drop size rest) (take size rest)

unfoldable pub remove_label_header_from_packet : Bytes → Unlabelled
unfolding split_label
remove_label_header_from_packet [] = unlabelled [] []
remove_label_header_from_packet (msg_type ∷ []) =
    if not (msg_type == has_label_msg) then unlabelled (msg_type ∷ []) [] else label_error
remove_label_header_from_packet (msg_type ∷ size ∷ rest) =
    if not (msg_type == has_label_msg)
    then unlabelled (msg_type ∷ size ∷ rest) []
    else split_label size rest

-- The bytes written to the connection.
unfoldable pub add_label_header_to_stream : Bytes → Option Bytes
unfolding make_label_header
add_label_header_to_stream label =
    if length label == 0
    then some []
    else if ltb label_max_size (length label)
    then none
    else some (make_label_header label [])

-- `Peek(n)` returns the next n bytes and leaves them unread.
unfoldable pub peek : ℕ → Stream → Option Bytes
peek n conn = if ltb (length conn.unread) n then none else some (take n conn.unread)

abbrev pub byte_at : ℕ → Bytes → ℕ
byte_at i s = elim (get_elem? s i) [ none ↦ 0 | some b ↦ b ]

-- `newPeekedConnFromBufferedReader`: what was buffered is read again, less `offset` bytes.
unfoldable pub new_peeked_conn : ℕ → Stream → Stream
new_peeked_conn offset conn = record conn { unread = drop offset conn.unread }

unfoldable pub remove_label_header_from_stream : Stream → Option (Stream × Bytes)
unfolding peek new_peeked_conn
remove_label_header_from_stream conn = elim (peek 1 conn) [
  | none ↦ if conn.ends_in_eof then some (conn, []) else none
  | some one ↦
      if not (byte_at 0 one == has_label_msg)
      then some (new_peeked_conn 0 conn, [])
      else elim (peek 2 conn) [
        | none ↦ none
        | some two ↦
            let size = byte_at 1 two in
            if ltb size 1 then none else elim (peek (2 + size) conn) [
              | none ↦ none
              | some all ↦ some (new_peeked_conn (2 + size) conn, take size (drop 2 all))
            ]
      ]
]

unfoldable pub label_overhead : Bytes → ℕ
label_overhead label = if length label == 0 then 0 else 2 + length label
