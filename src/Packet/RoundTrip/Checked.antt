-- ===== src/Packet/RoundTrip/Checked.antt =====
-- The checksum of a packet, and what its payload starts with.
use mori.Prelude.{ℕ, ◌^◌, ◌≤◌, ◌<◌, ◌≡◌, refl, sym}
use mori.Prelude.{◌≢◌, ◌&&◌, Option, none, some}
use mori.Prelude.{[], ◌∷◌, ◌++◌, arith, ltb, leb, ◌==◌}
use mori.Prelude.{==_iff, Bool-contra, on_if}
use mori.Prelude.{length, take, drop}
use mori.Prelude.{Bytes}
use mori.Packet.Types.{compress_msg, has_crc_msg, PacketConfig, Arrival, PacketState}
use mori.Packet.Acks.{encode}
use mori.Packet.Receive.{handle_command, handle_checked}
use mori.Messages.Types.{compress_m}
use mori.Msgpack.Reader.{from_bytes}
use mori.Msgpack.Append.{to_bytes}
use mori.Msgpack.RoundTrip.{from_bytes-to_bytes}
use mori.Wire.Label.RoundTrip.{StartsPlain}
use mori.Security.Payload.{Aead, seal_payload}
use mori.Packet.Send.{SendConfig, encryption_version, compress_payload, smaller_of, compressed}

-- The message has a type, which is not that of a checksum or of a label header.
pub data IsTyped : Bytes → Type 0 where
  typed : (t : ℕ) (body : Bytes) → t ≢ 12 → t ≢ 244 → IsTyped (t ∷ body)

pub compressed-IsTyped :
    (snd : SendConfig) (msg : Bytes) → IsTyped msg → IsTyped (compressed snd msg)
unfolding compressed compress_payload encode
compressed-IsTyped snd msg h =
    on_if IsTyped (snd.enable_compression && ltb 22 (length msg)) (λ _. at (snd.lzw_compress msg))
      (λ _. h)
  where
    at :
        (o : Option Bytes)
        → IsTyped (
            smaller_of msg (elim o [
              | none ↦ none
              | some buf ↦
                  some (encode compress_msg (compress_m (record { algo = 0; buf = some buf })))
            ]))
    at none = h
    at (some buf) =
        on_if IsTyped
          (ltb (length (encode compress_msg (compress_m (record { algo = 0; buf = some buf }))))
            (length msg))
          (λ _. typed 9 _ (omega arith) (omega arith)) (λ _. h)

pub handle_checked-plain :
    (rcv : PacketConfig) (at : Arrival) (msg : Bytes) (s : PacketState)
    → IsTyped msg
    → handle_checked rcv at msg s ≡ handle_command rcv at msg s
unfolding handle_checked
handle_checked-plain rcv at _ s (typed t body n m) =
    on_if (λ r. r ≡ handle_command rcv at (t ∷ body) s)
      (leb 5 (length (t ∷ body)) && (from_bytes 0 (t ∷ []) == has_crc_msg))
      (λ e. absurd (n (ground (arith, e)))) (λ _. refl)

pub handle_checked-crc :
    (rcv : PacketConfig) (at : Arrival) (msg : Bytes) (s : PacketState)
    → rcv.crc32 msg < 2 ^ 32
    → handle_checked rcv at (has_crc_msg ∷ (to_bytes 4 (rcv.crc32 msg) ++ msg)) s
      ≡ handle_command rcv at msg s
unfolding handle_checked
handle_checked-crc rcv at msg s h =
    let packet : Bytes = has_crc_msg ∷ (to_bytes 4 (rcv.crc32 msg) ++ msg) in
    on_if (λ r. r ≡ handle_command rcv at msg s)
      (leb 5 (length packet) && (from_bytes 0 (take 1 packet) == has_crc_msg))
      (λ _.
        on_if (λ r. r ≡ handle_command rcv at msg s)
          (rcv.crc32 msg == from_bytes 0 (take 4 (drop 1 packet))) (λ _. refl)
          (λ e. absurd (
            Bool-contra
              ((==_iff _ _).1 (sym (from_bytes-to_bytes 4 (rcv.crc32 msg) (omega (arith, h))))) e)))
      (λ e. absurd (ground (arith, e)))

pub encryption_version_bound : (cfg : PacketConfig) → encryption_version cfg ≤ 1
unfolding encryption_version
encryption_version_bound cfg = ground arith

pub sealed-StartsPlain :
    (gcm : Aead) (nonce msg label : Bytes) (vsn : ℕ)
    → vsn ≤ 1
    → StartsPlain (seal_payload vsn gcm nonce msg label [])
unfolding seal_payload
sealed-StartsPlain gcm nonce msg label vsn h e = absurd (omega (arith, h, e))
