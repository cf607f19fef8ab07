-- ===== src/Tests/WireRuns.antt =====
-- Labels, compound messages, keys and payloads at concrete inputs.
use mori.Prelude.{ℕ, ◌-◌, ◌≡◌, refl}
use mori.Prelude.{Option, none, some}
use mori.Prelude.{List, [], ◌∷◌, ◌++◌, arith}
use mori.Prelude.{length, take, replicate}
use mori.Prelude.{All}
use mori.Prelude.{Bytes, IsByte, same}
use mori.Wire.Label.{unlabelled, add_label_header_to_packet, remove_label_header_from_packet}
use mori.Wire.Label.RoundTrip.{Added, remove-add_label}
use mori.Wire.Compound.{make_compound_messages}
use mori.Wire.Compound.RoundTrip.{unpack_all, unpack-make_compound_messages}
use mori.Security.Keyring.{
  Keyring, validate_key, has_key, get_primary_key, make_aeads, use_key, remove_key,
}
use mori.Security.Keyring.Laws.{IsValidKey, IsKeyring}
use mori.Security.Keyring.Operations.{use_key-effect, remove_key-effect}
use mori.Security.Payload.{Aead, opened, seal_payload, open_payload}
use mori.Security.Payload.RoundTrip.{Reopens, open-seal_payload}

remove-add_label_example :
    Added (1 ∷ 2 ∷ []) (b'x' ∷ []) (add_label_header_to_packet (1 ∷ 2 ∷ []) (b'x' ∷ []))
remove-add_label_example = remove-add_label (1 ∷ 2 ∷ []) (b'x' ∷ []) (λ e. (omega arith))

abbrev labelled : Bytes
labelled = 244 ∷ 1 ∷ b'x' ∷ 1 ∷ 2 ∷ []

labelled_bytes : All IsByte labelled
labelled_bytes = (omega arith, (omega arith, (omega arith, (omega arith, (omega arith, tt)))))

labelled_removed : remove_label_header_from_packet labelled ≡ unlabelled (1 ∷ 2 ∷ []) (b'x' ∷ [])
unfolding remove_label_header_from_packet
labelled_removed = refl

abbrev messages : List Bytes
messages = (4 ∷ 1 ∷ []) ∷ [] ∷ (3 ∷ []) ∷ []

unpack-make_compound_messages_example : unpack_all (make_compound_messages messages) ≡ some messages
unpack-make_compound_messages_example =
    unpack-make_compound_messages messages (omega arith, (omega arith, (omega arith, tt)))

abbrev key_of : ℕ → Bytes
key_of b = replicate 16 b

abbrev as_cipher : Bytes → Option Bytes
as_cipher key = some key

abbrev builds : (key : Bytes) → IsValidKey key → (c : Bytes) × (as_cipher key ≡ some c)
builds key v = (key, refl)

abbrev ring : Keyring Bytes
ring = record { keys = key_of 1 ∷ key_of 2 ∷ []; aeads = key_of 1 ∷ key_of 2 ∷ [] }

ring-IsKeyring : IsKeyring as_cipher builds ring
unfolding has_key validate_key make_aeads same
ring-IsKeyring = record { distinct = (refl, (refl, tt)); valid = (refl, (refl, tt)); built = refl }

ring_primary : get_primary_key ring ≡ some (key_of 1)
unfolding get_primary_key
ring_primary = refl

use_key-effect_example : IsKeyring as_cipher builds (use_key as_cipher (key_of 2) ring).0
use_key-effect_example = (use_key-effect as_cipher builds (key_of 2) ring ring-IsKeyring).0

remove_key-effect_example :
    get_primary_key (remove_key as_cipher (key_of 2) ring).0 ≡ some (key_of 1)
remove_key-effect_example =
    (remove_key-effect as_cipher builds (key_of 2) (key_of 1) ring ring-IsKeyring ring_primary).1

-- A cipher that only adds a tag of zeros.
abbrev tagger : Aead
tagger = record {
  seal_with = λ nonce msg auth. msg ++ replicate 16 0;
  open_with = λ nonce text auth. some (take (length text - 16) text);
}

abbrev deaf : Aead
deaf = record { seal_with = λ nonce msg auth. []; open_with = λ nonce text auth. none }

tagger-Reopens : Reopens tagger (replicate 12 5) (7 ∷ 8 ∷ []) [] refl (deaf ∷ []) 0
tagger-Reopens = record { tagged = refl; reopened = refl; refused = (refl, tt) }

open-seal_payload_example :
    open_payload (deaf ∷ tagger ∷ []) (seal_payload 0 tagger (replicate 12 5) (7 ∷ 8 ∷ []) [] []) []
    ≡ opened (7 ∷ 8 ∷ [])
open-seal_payload_example =
    (open-seal_payload tagger (replicate 12 5) (7 ∷ 8 ∷ []) [] refl (deaf ∷ []) [] 0 (omega arith)
      tagger-Reopens).0
