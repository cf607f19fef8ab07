-- ===== src/Messages/Entries.antt =====
-- Runs of entries: what `decodeMap` has stored after it has read some entries of an encoding.
use mori.Prelude.{ℕ, suc, ◌+◌, ◌-◌, ◌^◌, ◌≤◌, ◌<◌, ◌≡◌, refl, ap, ◌∙◌, subst}
use mori.Prelude.{Bool, true, false, Option, none, some}
use mori.Prelude.{◌++◌, append_assoc, arith, leb}
use mori.Prelude.{leb→le}
use mori.Prelude.{length}
use mori.Prelude.{Bytes}
use mori.Prelude.Int.{ℤ, IsInt64}
use mori.Msgpack.Reader.{ok, Reader, pure, ◌>>=◌, >>=-ok}
use mori.Msgpack.Read.{read_map_header, read_key}
use mori.Msgpack.Skip.{skip}
use mori.Msgpack.Append.{
  append_bool, append_uint, append_int, append_string, append_bytes, append_map_header,
}
use mori.Msgpack.RoundTrip.{read_uint-append_uint, read_int-append_int}
use mori.Msgpack.RawRoundTrip.{
  Holds, read_string-append_string, read_bytes-append_bytes, read_key-append_string, key_kept,
  read_key-append_any, read_bool-append_bool, read_map_header-append_map_header,
}
use mori.Messages.Decode.{
  max_field_bytes, dec_u32, dec_u16, dec_u8, dec_int, dec_bool, dec_string, dec_bytes, into,
  FieldDecoder, entry_value, decode_entries, decode_map,
}
use mori.Messages.Encode.{
  append_u, append_i, append_s, append_b, append_bool_entry, count_if, unless_empty,
}

module _ {M : Type 0} (stream : Bool) (field : FieldDecoder M) where
  -- The k entries `e` take the message m to m'.
  pub record Fills (k : ℕ) (m : M) (e : Bytes) (m' : M) : Type 0 where
    pub fills :
        (n : ℕ) (rest : Bytes)
        → decode_entries stream field (k + n) m (e ++ rest) ≡ decode_entries stream field n m' rest

  abbrev Decodes : ℕ → M → Bytes → ℕ → M → Bytes → Type 0
  Decodes j m e k m' f = decode_entries stream field j m e ≡ decode_entries stream field k m' f

module _ {M : Type 0} {stream : Bool} {field : FieldDecoder M} where
  pub Fills-append :
      {j k : ℕ} {m m' m'' : M} {e f : Bytes}
      → Fills stream field j m e m'
      → Fills stream field k m' f m''
      → Fills stream field (j + k) m (e ++ f) m''
  Fills-append {j} {k} {m} {m'} {m''} {e} {f} p q = record {
    fills = λ n rest.
        let shifted : Decodes stream field (j + (k + n)) m (e ++ (f ++ rest)) n m'' rest =
          p.fills (k + n) (f ++ rest) ∙ q.fills n rest in
        rw (append_assoc e f rest) (
          subst (λ i. Decodes stream field i m (e ++ (f ++ rest)) n m'' rest) (omega arith)
            shifted);
  }

  pub Fills-count :
      {j k : ℕ} {m m' : M} {e : Bytes}
      → j ≡ k
      → Fills stream field j m e m'
      → Fills stream field k m e m'
  Fills-count {m = m} {m'} {e} q p = subst (λ i. Fills stream field i m e m') q p

  -- An entry that `omitempty` leaves out.
  pub Fills-unless :
      {m m' : M} {e : Bytes} (b : Bool)
      → (b ≡ true → m ≡ m')
      → (b ≡ false → Fills stream field 1 m e m')
      → Fills stream field (1 - count_if b) m (unless_empty b e) m'
  Fills-unless {m} true unchanged p = record {
    fills = λ n rest.
        subst (λ i. Decodes stream field i m rest n _ rest) (omega arith)
          (ap (λ x. decode_entries stream field n x rest) (unchanged refl));
  }
  Fills-unless false unchanged p = p refl

  -- The entry of a key, by what is done with the value.
  entry_then :
      {m m' : M} (key read value : Bytes) {o : Option (Reader M)}
      → ((rest : Bytes) → read_key (append_string key ++ rest) ≡ ok read rest)
      → field m read ≡ o
      → ((rest : Bytes) → entry_value stream m o (value ++ rest) ≡ ok m' rest)
      → Fills stream field 1 m (append_string key ++ value) m'
  unfolding decode_entries
  entry_then {m} {m'} key read value {o} reads_key e reads = record {
    fills = λ n rest.
        let after : Option (Reader M) → Reader M =
          λ o. entry_value stream m o >>= λ m'. decode_entries stream field n m' in
        let step : Decodes stream field (suc n) m (append_string key ++ (value ++ rest)) n m' rest =
          >>=-ok read_key (λ k. after (field m k)) (append_string key ++ (value ++ rest))
            (reads_key (value ++ rest))
          ∙ ap (λ o. after o (value ++ rest)) e
          ∙ >>=-ok (entry_value stream m o) (λ m'. decode_entries stream field n m') (value ++ rest)
              (reads rest) in
        rw (append_assoc (append_string key) value rest) (
          subst (λ i. Decodes stream field i m (append_string key ++ (value ++ rest)) n m' rest)
            {x = suc n} (omega arith) step);
  }

  -- A key that is known.
  pub Fills-entry :
      {A : Type 0} {m : M} (r : Reader A) (key value : Bytes) (store : M → A → M) {v : A}
      → leb (length key) 64 ≡ true
      → ((x : M) → field x key ≡ some (into r (store x)))
      → ((rest : Bytes) → r (value ++ rest) ≡ ok v rest)
      → Fills stream field 1 m (append_string key ++ value) (store m v)
  unfolding entry_value
  Fills-entry {m = m} r key value store short known reads =
      entry_then key key value (λ rest. read_key-append_string key rest (leb→le _ _ short))
        (known m) (λ rest. >>=-ok r (λ v. pure (store m v)) (value ++ rest) (reads rest))

  -- A key that is unknown, of any length, with a value that `Skip` consumes.
  pub Fills-unknown :
      {m : M} (key value : Bytes)
      → length key < 2 ^ 32
      → field m (key_kept key) ≡ none
      → ((rest : Bytes) → skip stream (value ++ rest) ≡ ok tt rest)
      → Fills stream field 1 m (append_string key ++ value) m
  unfolding entry_value
  Fills-unknown {m} key value sized unknown skips =
      entry_then key (key_kept key) value (λ rest. read_key-append_any key rest sized) unknown
        (λ rest. >>=-ok (skip stream) (λ _. pure m) (value ++ rest) (skips rest))

  -- The entries that the encoders of wire.go write.
  pub Fills-u32 :
      {m : M} (key : Bytes) (v : ℕ) (store : M → ℕ → M)
      → leb (length key) 64 ≡ true
      → ((x : M) → field x key ≡ some (into dec_u32 (store x)))
      → v < 2 ^ 32
      → Fills stream field 1 m (append_u key v) (store m v)
  unfolding append_u dec_u32
  Fills-u32 key v store short known h =
      Fills-entry dec_u32 key (append_uint v) store short known
        (λ rest. read_uint-append_uint 4294967295 v rest (omega arith) (omega arith))

  pub Fills-u16 :
      {m : M} (key : Bytes) (v : ℕ) (store : M → ℕ → M)
      → leb (length key) 64 ≡ true
      → ((x : M) → field x key ≡ some (into dec_u16 (store x)))
      → v < 2 ^ 16
      → Fills stream field 1 m (append_u key v) (store m v)
  unfolding append_u dec_u16
  Fills-u16 key v store short known h =
      Fills-entry dec_u16 key (append_uint v) store short known
        (λ rest. read_uint-append_uint 65535 v rest (omega arith) (omega arith))

  pub Fills-u8 :
      {m : M} (key : Bytes) (v : ℕ) (store : M → ℕ → M)
      → leb (length key) 64 ≡ true
      → ((x : M) → field x key ≡ some (into dec_u8 (store x)))
      → v < 2 ^ 8
      → Fills stream field 1 m (append_u key v) (store m v)
  unfolding append_u dec_u8
  Fills-u8 key v store short known h =
      Fills-entry dec_u8 key (append_uint v) store short known
        (λ rest. read_uint-append_uint 255 v rest (omega arith) (omega arith))

  pub Fills-int :
      {m : M} (key : Bytes) (v : ℤ) (store : M → ℤ → M)
      → leb (length key) 64 ≡ true
      → ((x : M) → field x key ≡ some (into dec_int (store x)))
      → IsInt64 v
      → Fills stream field 1 m (append_i key v) (store m v)
  unfolding append_i dec_int
  Fills-int key v store short known h =
      Fills-entry dec_int key (append_int v) store short known
        (λ rest. read_int-append_int v rest h)

  pub Fills-bool :
      {m : M} (key : Bytes) (v : Bool) (store : M → Bool → M)
      → leb (length key) 64 ≡ true
      → ((x : M) → field x key ≡ some (into dec_bool (store x)))
      → Fills stream field 1 m (append_bool_entry key v) (store m v)
  unfolding append_bool_entry dec_bool
  Fills-bool key v store short known =
      Fills-entry dec_bool key (append_bool v) store short known
        (λ rest. read_bool-append_bool v rest)

  pub Fills-string :
      {m : M} (key : Bytes) (v : Bytes) (store : M → Bytes → M)
      → leb (length key) 64 ≡ true
      → ((x : M) → field x key ≡ some (into dec_string (store x)))
      → length v ≤ 1048576
      → Fills stream field 1 m (append_s key v) (store m v)
  unfolding append_s dec_string
  Fills-string key v store short known h =
      Fills-entry dec_string key (append_string v) store short known
        (λ rest. read_string-append_string max_field_bytes v rest h (omega (arith, h)))

  pub Fills-bytes :
      {m : M} (limit : ℕ) (key : Bytes) (v : Option Bytes) (store : M → Option Bytes → M)
      → leb (length key) 64 ≡ true
      → ((x : M) → field x key ≡ some (into (dec_bytes limit) (store x)))
      → Holds limit v
      → Fills stream field 1 m (append_b key v) (store m v)
  unfolding append_b dec_bytes
  Fills-bytes limit key v store short known h =
      Fills-entry (dec_bytes limit) key (append_bytes v) store short known
        (λ rest. read_bytes-append_bytes limit v rest h)

  -- A whole map of at most fifteen entries.
  pub decode_map-append :
      {k : ℕ} {m m' : M} (e rest : Bytes)
      → k < 16
      → Fills stream field k m e m'
      → decode_map stream field m ((append_map_header k ++ e) ++ rest) ≡ ok m' rest
  unfolding decode_map decode_entries
  decode_map-append {k} {m} {m'} e rest small p = rw (append_assoc (append_map_header k) e rest) (
      >>=-ok (read_map_header stream) (λ n. decode_entries stream field n m)
        (append_map_header k ++ (e ++ rest))
        (read_map_header-append_map_header stream k (e ++ rest) small)
      ∙ subst (λ i. decode_entries stream field i m (e ++ rest) ≡ ok m' rest) (omega arith)
          (p.fills 0 rest))
