-- ===== src/Messages/Decode/Fields.antt =====
-- wire.go: how a map is read into a message, and the readers of the field types.
use mori.Prelude.{ℕ, zero, suc}
use mori.Prelude.{Bool, Option, none, some}
use mori.Prelude.{Bytes}
use mori.Prelude.Int.{ℤ}
use mori.Msgpack.Reader.{Reader, pure, ◌>>=◌, ◌>>◌}
use mori.Msgpack.Read.{
  read_map_header, read_bytes, read_string, read_key, read_uint, min_int, max_int, read_int,
  read_bool,
}
use mori.Msgpack.Skip.{skip}

-- `MaxFieldBytes`
abbrev pub max_field_bytes : ℕ
max_field_bytes = 1048576

-- `MaxCompressedBytes`
abbrev pub max_compressed_bytes : ℕ
max_compressed_bytes = 67108864

unfoldable pub dec_u32 : Reader ℕ
unfolding read_uint
dec_u32 = read_uint 4294967295

unfoldable pub dec_u16 : Reader ℕ
unfolding read_uint
dec_u16 = read_uint 65535

unfoldable pub dec_u8 : Reader ℕ
unfolding read_uint
dec_u8 = read_uint 255

unfoldable pub dec_int : Reader ℤ
unfolding read_int
dec_int = read_int min_int max_int

unfoldable pub dec_bool : Reader Bool
unfolding read_bool
dec_bool = read_bool

unfoldable pub dec_string : Reader Bytes
unfolding read_string
dec_string = read_string max_field_bytes

unfoldable pub dec_bytes : ℕ → Reader (Option Bytes)
unfolding read_bytes
dec_bytes limit = read_bytes limit

-- `*p = v`
abbrev pub into : {A M : Type 0} → Reader A → (A → M) → Reader M
into dec store = do v ← dec; pure (store v)

-- `fieldDecoder`: how the value of a key goes into the message, or none for an unknown key.
abbrev pub FieldDecoder : Type 0 → Type 0
FieldDecoder M = M → Bytes → Option (Reader M)

unfoldable pub entry_value : {M : Type 0} → Bool → M → Option (Reader M) → Reader M
unfolding skip
entry_value stream m (some dec) = dec
entry_value stream m none = do skip stream; pure m

unfoldable pub decode_entries : {M : Type 0} → Bool → FieldDecoder M → ℕ → M → Reader M
unfolding read_key entry_value
decode_entries stream field zero m = pure m
decode_entries stream field (suc n) m = do
  k ← read_key
  m' ← entry_value stream m (field m k)
  decode_entries stream field n m'

unfoldable pub decode_map : {M : Type 0} → Bool → FieldDecoder M → M → Reader M
unfolding read_map_header decode_entries
decode_map stream field m = do n ← read_map_header stream; decode_entries stream field n m
