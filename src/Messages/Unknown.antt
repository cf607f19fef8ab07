-- ===== src/Messages/Unknown.antt =====
-- wire.go: entries of unknown fields.
use mori.Prelude.{ℕ, ◌+◌, ◌^◌, ◌<◌, ◌≡◌, sym, ◌∙◌}
use mori.Prelude.{Bool, none}
use mori.Prelude.{◌++◌, arith}
use mori.Prelude.{length}
use mori.Prelude.{Bytes}
use mori.Msgpack.Append.{append_string, append_map_header}
use mori.Messages.Decode.{FieldDecoder, decode_map}
use mori.Msgpack.RawRoundTrip.{key_kept}
use mori.Msgpack.SkipValue.{Value, append_value, IsSized, skip-append_value}
use mori.Messages.Entries.{Fills, Fills-append, Fills-unknown, decode_map-append}

-- An entry whose key the message has no field for, and whose value is one that the encoders write,
-- changes nothing, wherever it stands between entries that decode. A key of more than 64 bytes
-- counts as the empty key, which the message must then have no field for. The map has at most
-- fifteen entries, and the key, like a string or byte slice as the value, is shorter than 2^32
-- bytes.
pub decode_map-unknown :
    {M : Type 0} (stream : Bool) (field : FieldDecoder M) (j k : ℕ) (m m' m'' : M) (e f key : Bytes)
    (v : Value) (rest : Bytes)
    → Fills stream field j m e m'
    → Fills stream field k m' f m''
    → field m' (key_kept key) ≡ none
    → length key < 2 ^ 32
    → IsSized v
    → j + k < 15
    → decode_map stream field m (
        (append_map_header (j + (1 + k)) ++ (e ++ ((append_string key ++ append_value v) ++ f)))
        ++ rest)
      ≡ decode_map stream field m ((append_map_header (j + k) ++ (e ++ f)) ++ rest)
decode_map-unknown stream field j k m m' m'' e f key v rest p q unknown sized_key sized small =
    decode_map-append _ rest (omega (arith, small)) (
      Fills-append p (
        Fills-append
          (Fills-unknown key (append_value v) sized_key unknown
            (λ r. skip-append_value stream v r sized))
          q))
    ∙ sym (decode_map-append _ rest (omega (arith, small)) (Fills-append p q))
