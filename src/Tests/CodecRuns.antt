-- ===== src/Tests/CodecRuns.antt =====
-- The codec at concrete inputs.
use mori.Prelude.{ℕ, ◌+◌, ◌^◌, ◌<◌, ◌≡◌, refl}
use mori.Prelude.{true, false, none, some}
use mori.Prelude.{[], ◌∷◌, ◌++◌, arith}
use mori.Prelude.{same}
use mori.Msgpack.Reader.{ok, err}
use mori.Msgpack.Append.{append_uint, append_string, append_map_header}
use mori.Messages.Decode.{decode_map, zero_nack, decode_nack_field, zero_alive, decode_msgpack}
use mori.Messages.Encode.{append_u, append_nack, append_msgpack}
use mori.Messages.Keys.{key_seq_no}
use mori.Messages.Types.{NackResp, Alive, nack_resp_m, alive_m}
use mori.Msgpack.Reader.{truncated}
use mori.Msgpack.Append.{append_raw_header}
use mori.Msgpack.SkipValue.{nil_value, append_value}
use mori.Messages.Entries.{Fills, Fills-u32}
use mori.Messages.AnyRoundTrip.{decode_msgpack-append_msgpack}
use mori.Messages.Truncation.{decode_msgpack-truncated}
use mori.Messages.Unknown.{decode_map-unknown}

abbrev pub wire_alive : Alive
wire_alive = record {
  incarnation = 300;
  node = b'b' ∷ [];
  addr = some (10 ∷ 0 ∷ 0 ∷ 2 ∷ []);
  port = 7946;
  meta = none;
  vsn = some (1 ∷ 5 ∷ 5 ∷ 0 ∷ 0 ∷ 0 ∷ []);
}

decode_msgpack-append_msgpack_example :
    decode_msgpack false (alive_m zero_alive) (append_msgpack (alive_m wire_alive) ++ (1 ∷ []))
    ≡ ok (alive_m wire_alive) (1 ∷ [])
decode_msgpack-append_msgpack_example =
    decode_msgpack-append_msgpack false (alive_m zero_alive) (alive_m wire_alive) (1 ∷ []) refl (
      omega arith,
      omega arith,
      (omega arith, omega arith),
      omega arith,
      tt,
      (omega arith, omega arith),
    )

abbrev nack : NackResp
nack = record { seq_no = 5 }

nack_bytes :
    (129 ∷ []) ++ (165 ∷ 83 ∷ 101 ∷ 113 ∷ 78 ∷ 111 ∷ 5 ∷ []) ≡ append_msgpack (nack_resp_m nack)
unfolding append_msgpack append_nack append_map_header append_u append_string append_raw_header
    append_uint
nack_bytes = refl

decode_msgpack-truncated_example :
    decode_msgpack false (nack_resp_m zero_nack) (129 ∷ []) ≡ err truncated
decode_msgpack-truncated_example =
    decode_msgpack-truncated false (nack_resp_m zero_nack) (nack_resp_m nack) (129 ∷ [])
      (165 ∷ 83 ∷ 101 ∷ 113 ∷ 78 ∷ 111 ∷ 5 ∷ []) refl (omega arith) nack_bytes (λ e. cc e)

seq_no_entry :
    (m : NackResp) (v : ℕ)
    → v < 2 ^ 32
    → Fills false decode_nack_field 1 m (append_u key_seq_no v) (record { seq_no = v })
unfolding decode_nack_field same
seq_no_entry m v h = Fills-u32 key_seq_no v (λ x v. record x { seq_no = v }) refl (λ x. refl) h

no_such_field : decode_nack_field nack (88 ∷ []) ≡ none
unfolding decode_nack_field same
no_such_field = refl

decode_map-unknown_example :
    decode_map false decode_nack_field zero_nack (
      (append_map_header (1 + (1 + 1))
        ++ (append_u key_seq_no 5
            ++ ((append_string (88 ∷ []) ++ append_value nil_value) ++ append_u key_seq_no 6)))
      ++ [])
    ≡ decode_map false decode_nack_field zero_nack
        ((append_map_header (1 + 1) ++ (append_u key_seq_no 5 ++ append_u key_seq_no 6)) ++ [])
decode_map-unknown_example =
    decode_map-unknown false decode_nack_field 1 1 zero_nack nack (record { seq_no = 6 })
      (append_u key_seq_no 5) (append_u key_seq_no 6) (88 ∷ []) nil_value []
      (seq_no_entry zero_nack 5 (omega arith)) (seq_no_entry nack 6 (omega arith)) no_such_field
      (omega arith) tt (omega arith)

-- A message with fields in another order, twice and unknown: the last one wins.
nack_run :
    decode_msgpack true (nack_resp_m nack) (
      131 ∷ 165 ∷ 83 ∷ 101 ∷ 113 ∷ 78 ∷ 111 ∷ 1 ∷ 161 ∷ 88 ∷ 146 ∷ 192 ∷ 160 ∷ 165 ∷ 83 ∷ 101 ∷ 113
      ∷ 78 ∷ 111 ∷ 205 ∷ 1 ∷ 2 ∷ 9 ∷ [])
    ≡ ok (nack_resp_m (record { seq_no = 258 })) (9 ∷ [])
unfolding decode_msgpack same
nack_run = refl
