-- ===== src/Packet/RoundTrip.antt =====
-- net.go: a packet, from one member to another with the same label and key.
mod Checked
unfoldable pub use Checked.*
use mori.Prelude.{ℕ, ◌^◌, ◌≤◌, ◌<◌, ◌≡◌, refl, sym, ap, ◌∙◌, subst}
use mori.Prelude.{◌≢◌, true, false, not, ◌&&◌, Option, none, some}
use mori.Prelude.{List, [], ◌∷◌, ◌++◌, arith, ltb, leb, ◌==◌, if◌then◌else◌}
use mori.Prelude.{==_iff, Bool-contra, on_if}
use mori.Prelude.{length, take, drop}
use mori.Prelude.{Bytes, same, same_refl}
use mori.Packet.Types.{compress_msg, has_crc_msg, PacketConfig, Arrival, Address, PacketState}
use mori.Packet.Acks.{encode}
use mori.Packet.Receive.{
  handle_command, plaintext_of, decrypted, packet_plaintext, handle_checked, handle_plain,
  ingest_labelled, ingest_unlabelled, ingest_packet,
}
use mori.Messages.Types.{compress_m}
use mori.Msgpack.Reader.{from_bytes}
use mori.Msgpack.Append.{to_bytes}
use mori.Msgpack.RoundTrip.{from_bytes-to_bytes}
use mori.Wire.Label.{unlabelled, add_label_header_to_packet, remove_label_header_from_packet}
use mori.Wire.Label.RoundTrip.{StartsPlain, Added, remove-add_label}
use mori.Security.Keyring.{Keyring}
use mori.Security.Payload.{Aead, seal_payload}
use mori.Security.Payload.RoundTrip.{Reopens, open-seal_payload}
use mori.Member.Types.{Node, Memberlist}
use mori.Packet.Receive.{installed_aeads}
use mori.Packet.Send.{
  SendConfig, encryption_version, compress_payload, smaller_of, compressed, destination,
  understands_crc, checksummed, sealed, raw_send_msg_packet, write_to_address,
}

module _ (snd : SendConfig) (rcv : PacketConfig) (same_label : rcv.label ≡ snd.packet.label)
    (same_crc : rcv.crc32 ≡ snd.packet.crc32)
    (crc_bits : (p : Bytes) → snd.packet.crc32 p < 2 ^ 32) where
  handle_checked-checksummed :
      (at : Arrival) (to : Option Node) (msg : Bytes) (s : PacketState)
      → IsTyped msg
      → handle_checked rcv at (checksummed snd to msg) s ≡ handle_command rcv at msg s
  unfolding checksummed
  handle_checked-checksummed at to msg s h =
      on_if (λ p. handle_checked rcv at p s ≡ handle_command rcv at msg s) (understands_crc to)
        (λ _.
          subst
            (λ f.
              handle_checked rcv at (has_crc_msg ∷ (to_bytes 4 (f msg) ++ msg)) s
              ≡ handle_command rcv at msg s)
            same_crc
            (handle_checked-crc rcv at msg s
              (subst (λ f. f msg < 2 ^ 32) (sym same_crc) (crc_bits msg))))
        (λ _. handle_checked-plain rcv at msg s h)

  -- A payload in a packet with the label is handled as what it is opened to.
  ingest_labelled-plaintext :
      (at : Arrival) (payload plain packet : Bytes) (s : PacketState)
      → rcv.skip_inbound_label_check ≡ false
      → packet_plaintext rcv snd.packet.label payload ≡ some plain
      → remove_label_header_from_packet packet ≡ unlabelled payload snd.packet.label
      → ingest_packet rcv at packet s ≡ handle_checked rcv at plain s
  unfolding ingest_packet ingest_unlabelled ingest_labelled handle_plain
  ingest_labelled-plaintext at payload plain packet s no_skip opens behind =
      let ours : (not (same rcv.label snd.packet.label)) ≡ false =
        rw (same_label, same_refl snd.packet.label) refl in
      ap (λ u. ingest_unlabelled rcv at u s) behind
      ∙ ap
          (λ b.
            if b
            then (if not (same snd.packet.label [])
                then s
                else ingest_labelled rcv at rcv.label payload s)
            else ingest_labelled rcv at snd.packet.label payload s)
          no_skip
      ∙ ap
          (λ b.
            if b then s else handle_plain rcv at (packet_plaintext rcv snd.packet.label payload) s)
          ours
      ∙ ap (λ o. handle_plain rcv at o s) opens

  -- The packet that the transport writes, for a payload that the other side opens.
  written :
      (msg payload : Bytes) (to : Option Node)
      → rcv.skip_inbound_label_check ≡ false
      → length snd.packet.label ≤ 255
      → IsTyped msg
      → (snd.packet.label ≡ [] → StartsPlain payload)
      → packet_plaintext rcv snd.packet.label payload ≡ some (checksummed snd to msg)
      → (packet : Bytes) × (write_to_address snd (some payload) ≡ some packet)
        × ((at : Arrival) (s : PacketState)
            → ingest_packet rcv at packet s ≡ handle_command rcv at msg s)
  unfolding write_to_address
  written msg payload to no_skip short h plain opens =
      on_added (add_label_header_to_packet payload snd.packet.label) refl
        (remove-add_label payload snd.packet.label plain)
    where
      on_added :
          (o : Option Bytes)
          → add_label_header_to_packet payload snd.packet.label ≡ o
          → Added payload snd.packet.label o
          → (packet : Bytes) × (add_label_header_to_packet payload snd.packet.label ≡ some packet)
            × ((at : Arrival) (s : PacketState)
                → ingest_packet rcv at packet s ≡ handle_command rcv at msg s)
      on_added none e long = absurd (omega (arith, long, short))
      on_added (some packet) e (behind, len) = (
        packet,
        e,
        λ at s.
            ingest_labelled-plaintext at payload (checksummed snd to msg) packet s no_skip opens
              behind
            ∙ handle_checked-checksummed at to msg s h,
      )

  raw_send-sealed :
      (a : Address) (dest : Option Node) (m : Memberlist) (nonce msg : Bytes) (to : Option Node)
      → (same a.name [] && snd.require_node_names) ≡ false
      → destination snd a dest m ≡ some to
      → raw_send_msg_packet snd a dest nonce m msg
        ≡ sealed snd nonce (checksummed snd to (compressed snd msg))
  unfolding raw_send_msg_packet
  raw_send-sealed a dest m nonce msg to named found = rw (named, found) refl

  no_ciphers : rcv.keyring ≡ none → installed_aeads rcv ≡ none
  unfolding installed_aeads
  no_ciphers e = rw e refl

  checksummed-StartsPlain :
      (to : Option Node) (msg : Bytes) → IsTyped msg → StartsPlain (checksummed snd to msg)
  unfolding checksummed
  checksummed-StartsPlain to _ (typed t body n l) =
      on_if StartsPlain (understands_crc to) (λ _. λ e. absurd (omega (arith, e))) (λ _. l)

  unsealed :
      (nonce payload : Bytes) → snd.packet.keyring ≡ none → sealed snd nonce payload ≡ some payload
  unfolding sealed
  unsealed nonce payload e = rw e refl

  sealed_by :
      (nonce checked : Bytes) (k : Keyring Aead) (gcm : Aead) (gcms : List Aead)
      → snd.packet.keyring ≡ some k
      → k.aeads ≡ gcm ∷ gcms
      → (ltb 0 (length k.keys) && snd.gossip_verify_outgoing) ≡ true
      → sealed snd nonce checked
        ≡ some (seal_payload (encryption_version snd.packet) gcm nonce checked snd.packet.label [])
  unfolding sealed
  sealed_by nonce checked k gcm gcms key ciphers verify = rw (key, verify, ciphers) refl

  -- Without a key on either side: a message whose type is not that of a checksum or a label header, sent to a
  -- destination that is known or has a host, makes a packet that the receiver with the same label and checksum
  -- function handles as the message, or as its compressed form where that was sent.
  pub ingest_packet-raw_send_plain :
      (a : Address) (dest : Option Node) (m : Memberlist) (nonce msg : Bytes) (to : Option Node)
      → snd.packet.keyring ≡ none
      → rcv.keyring ≡ none
      → rcv.skip_inbound_label_check ≡ false
      → length snd.packet.label ≤ 255
      → IsTyped msg
      → (same a.name [] && snd.require_node_names) ≡ false
      → destination snd a dest m ≡ some to
      → (packet : Bytes) × (write_to_address snd (raw_send_msg_packet snd a dest nonce m msg)
          ≡ some packet)
        × ((at : Arrival) (s : PacketState)
            → ingest_packet rcv at packet s ≡ handle_command rcv at (compressed snd msg) s)
  unfolding packet_plaintext decrypted
  ingest_packet-raw_send_plain a dest m nonce msg to no_key no_key' no_skip short h named found =
      let msg' : Bytes = compressed snd msg in
      let typed : IsTyped msg' = compressed-IsTyped snd msg h in
      let opens : packet_plaintext rcv snd.packet.label (checksummed snd to msg')
          ≡ some (checksummed snd to msg') =
        ap (decrypted rcv snd.packet.label (checksummed snd to msg')) (no_ciphers no_key') in
      let (packet, e, handled) =
        written msg' (checksummed snd to msg') to no_skip short typed
          (λ _. checksummed-StartsPlain to msg' typed) opens in
      (
        packet,
        ap (write_to_address snd) (
              raw_send-sealed a dest m nonce msg to named found
              ∙ unsealed nonce (checksummed snd to msg') no_key)
            ∙ e,
        handled,
      )

  -- With a key, a label of at most 255 bytes and outgoing gossip verified: a message whose type is
  -- not that of a checksum or of a label header, sent to a destination that is known or has a host,
  -- makes a packet, and a receiver with the same label and checksum function, who has the key
  -- installed and does not skip the label check, handles exactly the message, or its compressed
  -- form where that was sent. The destination must have a name unless names are not required, and
  -- the nonce 12 bytes. The cipher must open what it sealed, none that the receiver tries before
  -- may, and the checksum must be a uint32.
  pub ingest_packet-raw_send_sealed :
      (a : Address) (dest : Option Node) (m : Memberlist) (nonce msg : Bytes) (to : Option Node)
      (k : Keyring Aead) (gcm : Aead) (gcms before after : List Aead)
      → snd.packet.keyring ≡ some k
      → k.aeads ≡ gcm ∷ gcms
      → (ltb 0 (length k.keys) && snd.gossip_verify_outgoing) ≡ true
      → installed_aeads rcv ≡ some (before ++ (gcm ∷ after))
      → (nonce_size : length nonce ≡ 12)
      → Reopens gcm nonce
          (checksummed snd to (compressed snd msg))
          snd.packet.label
          nonce_size
          before
          (encryption_version snd.packet)
      → rcv.skip_inbound_label_check ≡ false
      → length snd.packet.label ≤ 255
      → IsTyped msg
      → (same a.name [] && snd.require_node_names) ≡ false
      → destination snd a dest m ≡ some to
      → (packet : Bytes) × (write_to_address snd (raw_send_msg_packet snd a dest nonce m msg)
          ≡ some packet)
        × ((at : Arrival) (s : PacketState)
            → ingest_packet rcv at packet s ≡ handle_command rcv at (compressed snd msg) s)
  unfolding packet_plaintext decrypted installed_aeads
  ingest_packet-raw_send_sealed a dest m nonce msg to k gcm gcms before after key ciphers verify
        installed nonce_size reopens no_skip short h named found =
      let msg' : Bytes = compressed snd msg in
      let typed : IsTyped msg' = compressed-IsTyped snd msg h in
      let vsn : ℕ = encryption_version snd.packet in
      let checked : Bytes = checksummed snd to msg' in
      let payload : Bytes = seal_payload vsn gcm nonce checked snd.packet.label [] in
      let opened_again =
        (open-seal_payload gcm nonce checked snd.packet.label nonce_size before after vsn
          (encryption_version_bound snd.packet) reopens).0 in
      let opens : packet_plaintext rcv snd.packet.label payload ≡ some checked =
        ap (decrypted rcv snd.packet.label payload) installed
        ∙ ap (plaintext_of rcv payload) opened_again in
      let (packet, e, handled) =
        written msg' payload to no_skip short typed
          (λ _.
            sealed-StartsPlain gcm nonce checked snd.packet.label vsn
              (encryption_version_bound snd.packet))
          opens in
      (
        packet,
        ap (write_to_address snd) (
              raw_send-sealed a dest m nonce msg to named found
              ∙ sealed_by nonce checked k gcm gcms key ciphers verify)
            ∙ e,
        handled,
      )
