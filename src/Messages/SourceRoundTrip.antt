-- ===== src/Messages/SourceRoundTrip.antt =====
-- wire.go: writing and reading the messages with source fields, which are left out where they are zero.
use mori.Prelude.{ℕ, ◌+◌, ◌-◌, ◌^◌, ◌≤◌, ◌<◌, ◌≡◌, refl, ap, ◌∙◌, subst}
use mori.Prelude.{Bool, true, false, Option, none, some}
use mori.Prelude.{[], ◌∷◌, ◌++◌, arith, ◌==◌, if◌then◌else◌}
use mori.Prelude.{length}
use mori.Prelude.{Bytes, same}
use mori.Msgpack.Reader.{ok}
use mori.Msgpack.RawRoundTrip.{Holds}
use mori.Messages.Decode.{
  max_field_bytes, dec_u16, dec_string, dec_bytes, into, FieldDecoder, zero_ping, decode_ping_field,
  decode_ping, zero_indirect_ping, decode_indirect_ping_field, decode_indirect_ping,
}
use mori.Messages.Encode.{
  append_u, append_s, append_b, is_empty, count_if, omitted, unless_empty, append_source,
  append_ping, append_indirect_ping,
}
use mori.Messages.Keys.{
  key_seq_no, key_node, key_source_addr, key_source_port, key_source_node, key_target, key_port,
  key_nack,
}
use mori.Messages.Types.{Ping, IndirectPingReq}
use mori.Messages.Entries.{
  Fills, Fills-append, Fills-count, Fills-unless, Fills-u32, Fills-u16, Fills-bool, Fills-string,
  Fills-bytes, decode_map-append,
}
use mori.Messages.RoundTrip.{IsShort}

-- An address that is empty but not nil is left out, so it is read as nil.
abbrev pub omit_empty : Option Bytes → Option Bytes
omit_empty o = if is_empty o then none else o

omitted_addr : (addr : Option Bytes) → is_empty addr ≡ true → none ≡ omit_empty addr
omitted_addr addr e = rw e refl

kept_addr : (addr : Option Bytes) → is_empty addr ≡ false → addr ≡ omit_empty addr
kept_addr addr e = rw e refl

omitted_bound : (addr : Option Bytes) (port : ℕ) (node : Bytes) → omitted addr port node ≤ 3
unfolding omitted
omitted_bound addr port node = ground arith

empty_string : (s : Bytes) → (length s == 0) ≡ true → [] ≡ s
empty_string [] e = refl
empty_string (b ∷ s) e = absurd (ground (arith, e))

empty_port : (p : ℕ) → (p == 0) ≡ true → 0 ≡ p
empty_port p e = ground (arith, e)

module _ {M : Type 0} {stream : Bool} {field : FieldDecoder M} {m : M} where
  Fills-source_addr :
      (addr : Option Bytes) (store : M → Option Bytes → M)
      → ((x : M) → field x key_source_addr ≡ some (into (dec_bytes max_field_bytes) (store x)))
      → Holds max_field_bytes addr
      → m ≡ store m none
      → Fills stream field
          (1 - count_if (is_empty addr))
          m
          (unless_empty (is_empty addr) (append_b key_source_addr addr))
          (store m (omit_empty addr))
  Fills-source_addr addr store known h unset =
      Fills-unless (is_empty addr) (λ e. unset ∙ ap (store m) (omitted_addr addr e))
        (λ e.
          subst (λ o. Fills stream field 1 m (append_b key_source_addr addr) (store m o))
            (kept_addr addr e)
            (Fills-bytes max_field_bytes key_source_addr addr store refl known h))

  Fills-source_node :
      (node : Bytes) (store : M → Bytes → M)
      → ((x : M) → field x key_source_node ≡ some (into dec_string (store x)))
      → IsShort node
      → m ≡ store m []
      → Fills stream field
          (1 - count_if (length node == 0))
          m
          (unless_empty (length node == 0) (append_s key_source_node node))
          (store m node)
  Fills-source_node node store known h unset =
      Fills-unless (length node == 0) (λ e. unset ∙ ap (store m) (empty_string node e))
        (λ e. Fills-string key_source_node node store refl known h)

  Fills-source_port :
      (port : ℕ) (store : M → ℕ → M)
      → ((x : M) → field x key_source_port ≡ some (into dec_u16 (store x)))
      → port < 2 ^ 16
      → m ≡ store m 0
      → Fills stream field
          (1 - count_if (port == 0))
          m
          (unless_empty (port == 0) (append_u key_source_port port))
          (store m port)
  Fills-source_port port store known h unset =
      Fills-unless (port == 0) (λ e. unset ∙ ap (store m) (empty_port port e))
        (λ e. Fills-u16 key_source_port port store refl known h)

-- The three source fields, into a message that has none of them yet.
Fills-source :
    {M : Type 0} {stream : Bool} {field : FieldDecoder M} {m m1 m2 m3 : M} (addr : Option Bytes)
    (port : ℕ) (node : Bytes)
    → Fills stream field
        (1 - count_if (is_empty addr))
        m
        (unless_empty (is_empty addr) (append_b key_source_addr addr))
        m1
    → Fills stream field
        (1 - count_if (length node == 0))
        m1
        (unless_empty (length node == 0) (append_s key_source_node node))
        m2
    → Fills stream field
        (1 - count_if (port == 0))
        m2
        (unless_empty (port == 0) (append_u key_source_port port))
        m3
    → Fills stream field (3 - omitted addr port node) m (append_source addr port node) m3
unfolding omitted append_source
Fills-source addr port node p q r =
    Fills-count (counts (is_empty addr) (port == 0) (length node == 0))
      (Fills-append p (Fills-append q r))
  where
    counts :
        (a b c : Bool)
        → (1 - count_if a) + ((1 - count_if c) + (1 - count_if b))
          ≡ 3 - (count_if a + count_if b + count_if c)
    counts a b c = ground arith

abbrev pub IsPing : Ping → Type 0
IsPing m =
    (m.seq_no < 2 ^ 32)
    × (IsShort m.node)
    × (Holds max_field_bytes m.source_addr)
    × (m.source_port < 2 ^ 16)
    × (IsShort m.source_node)

pub decode_ping-append_ping :
    (stream : Bool) (m : Ping) (rest : Bytes)
    → IsPing m
    → decode_ping stream (append_ping m ++ rest)
      ≡ ok (record m { source_addr = omit_empty m.source_addr }) rest
unfolding append_ping decode_ping decode_ping_field same
decode_ping-append_ping stream m rest
      (h_seq_no, h_node, h_source_addr, h_source_port, h_source_node) =
    decode_map-append {stream = stream} {field = decode_ping_field}
      {k = 5 - omitted m.source_addr m.source_port m.source_node} {m = zero_ping} _ rest
      (omega arith)
      (Fills-count (omega (arith, omitted_bound m.source_addr m.source_port m.source_node)) (
        Fills-append
          (Fills-string key_node m.node (λ x v. record x { node = v }) refl (λ x. refl) h_node)
          (Fills-append
            (Fills-u32 key_seq_no m.seq_no (λ x v. record x { seq_no = v }) refl (λ x. refl)
              h_seq_no)
            (Fills-source m.source_addr m.source_port m.source_node
              (Fills-source_addr m.source_addr (λ x v. record x { source_addr = v }) (λ x. refl)
                h_source_addr refl)
              (Fills-source_node m.source_node (λ x v. record x { source_node = v }) (λ x. refl)
                h_source_node refl)
              (Fills-source_port m.source_port (λ x v. record x { source_port = v }) (λ x. refl)
                h_source_port refl)))))

abbrev pub IsIndirectPingReq : IndirectPingReq → Type 0
IsIndirectPingReq m =
    (m.seq_no < 2 ^ 32)
    × (Holds max_field_bytes m.target)
    × (m.port < 2 ^ 16)
    × (IsShort m.node)
    × (Holds max_field_bytes m.source_addr)
    × (m.source_port < 2 ^ 16)
    × (IsShort m.source_node)

pub decode_indirect_ping-append_indirect_ping :
    (stream : Bool) (m : IndirectPingReq) (rest : Bytes)
    → IsIndirectPingReq m
    → decode_indirect_ping stream (append_indirect_ping m ++ rest)
      ≡ ok (record m { source_addr = omit_empty m.source_addr }) rest
unfolding append_indirect_ping decode_indirect_ping decode_indirect_ping_field same
decode_indirect_ping-append_indirect_ping stream m rest
      (h_seq_no, h_target, h_port, h_node, h_source_addr, h_source_port, h_source_node) =
    decode_map-append {stream = stream} {field = decode_indirect_ping_field}
      {k = 8 - omitted m.source_addr m.source_port m.source_node} {m = zero_indirect_ping} _ rest
      (omega arith)
      (Fills-count (omega (arith, omitted_bound m.source_addr m.source_port m.source_node)) (
        Fills-append (Fills-bool key_nack m.nack (λ x v. record x { nack = v }) refl (λ x. refl)) (
          Fills-append
            (Fills-string key_node m.node (λ x v. record x { node = v }) refl (λ x. refl) h_node)
            (Fills-append
              (Fills-u16 key_port m.port (λ x v. record x { port = v }) refl (λ x. refl) h_port)
              (Fills-append
                (Fills-u32 key_seq_no m.seq_no (λ x v. record x { seq_no = v }) refl (λ x. refl)
                  h_seq_no)
                (Fills-append
                  (Fills-source m.source_addr m.source_port m.source_node
                    (Fills-source_addr m.source_addr (λ x v. record x { source_addr = v })
                      (λ x. refl) h_source_addr refl)
                    (Fills-source_node m.source_node (λ x v. record x { source_node = v })
                      (λ x. refl) h_source_node refl)
                    (Fills-source_port m.source_port (λ x v. record x { source_port = v })
                      (λ x. refl) h_source_port refl))
                  (Fills-bytes max_field_bytes key_target m.target (λ x v. record x { target = v })
                    refl (λ x. refl) h_target)))))))
