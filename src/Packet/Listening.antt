-- ===== src/Packet/Listening.antt =====
-- net.go: what the packet listener may change.
mod Leaves
unfoldable pub use Leaves.*
use mori.Prelude.{ℕ, zero, suc, ◌≤◌, ◌≡◌, refl, ◌∙◌}
use mori.Prelude.{◌⊎◌, inl, inr, true, false, not, ◌&&◌, ◌||◌, Option, none, some}
use mori.Prelude.{List, [], ◌∷◌, arith, leb, ◌==◌}
use mori.Prelude.{on_if}
use mori.Prelude.{length, take, drop}
use mori.Prelude.{Bytes, same}
use mori.Prelude.Int.{ℤ, pos_part}
use mori.Msgpack.Reader.{from_bytes}
use mori.Packet.Types.{
  ping_msg, indirect_ping_msg, ack_resp_msg, suspect_msg_type, alive_msg_type, dead_msg_type,
  compound_msg_type, user_msg, compress_msg, nack_resp_msg, has_crc_msg, PacketConfig, Arrival,
  Handoff, AckHandler, probe_handler, relay_handler, PacketState,
}
use mori.Packet.Acks.{
  decode, encode_and_send_msg, next_seq_no, find_handler, delete_handler, put_handler,
  set_ack_handler, run_ack_fn, invoke_ack_handler, run_nack_fn, invoke_nack_handler,
}
use mori.Packet.Receive.{
  Envelope, no_envelope, not_for_us, answer_ping, handle_ping, relay_ping, handle_indirect_ping,
  handle_ack, handle_nack, queue_full, push_back, queue_message, decompress_payload, Handler,
  handle_parts, handle_compound, handle_compressed, handle_leaf, dispatch, handle_command_in,
  handle_command, packet_plaintext, handle_checked, handle_plain, ingest_labelled,
  ingest_unlabelled, ingest_packet,
}
use mori.Wire.Label.{Unlabelled, unlabelled, label_error, remove_label_header_from_packet}
use mori.Wire.Compound.{Decoded, decoded, decode_error, decode_compound_message}
use mori.Messages.Decode.{decode_ping, decode_indirect_ping, decode_ack, decode_nack}

module _ {cfg : PacketConfig} where
  handle_leaf-Listens :
      (at : Arrival) (t : ℕ) (buf : Bytes) (s : PacketState)
      → Listens cfg s (handle_leaf cfg at t buf s)
  unfolding handle_leaf
  handle_leaf-Listens at t buf s =
      on_if (Listens cfg s) (t == ping_msg) (λ _. handle_ping-Listens at buf s)
        (λ _.
          on_if (Listens cfg s) (t == indirect_ping_msg)
            (λ _. handle_indirect_ping-Listens at buf s)
            (λ _.
              on_if (Listens cfg s) (t == ack_resp_msg) (λ _. handle_ack-Listens at buf s)
                (λ _.
                  on_if (Listens cfg s) (t == nack_resp_msg) (λ _. handle_nack-Listens buf s)
                    (λ _.
                      on_if (Listens cfg s)
                        (t == suspect_msg_type
                          || t == alive_msg_type
                          || t == dead_msg_type
                          || t == user_msg)
                        (λ _.
                          queue_message-Listens (record { msg_type = t; buf = buf; from = at.from })
                            s)
                        (λ _. Listens-refl s)))))

  handle_parts-Listens :
      (again : Handler) (parts : List Bytes) (s : PacketState)
      → ((buf : Bytes) (s : PacketState) → Listens cfg s (again buf s))
      → Listens cfg s (handle_parts again parts s)
  handle_parts-Listens again [] s h = Listens-refl s
  handle_parts-Listens again (p ∷ parts) s h =
      Listens-trans (h p s) (handle_parts-Listens again parts (again p s) h)

  handle_compound-Listens :
      (again : Handler) (buf : Bytes) (s : PacketState)
      → ((buf : Bytes) (s : PacketState) → Listens cfg s (again buf s))
      → Listens cfg s (handle_compound again buf s)
  unfolding handle_compound
  handle_compound-Listens again buf s h = at (decode_compound_message buf)
    where
      at :
          (d : Decoded)
          → Listens cfg s
              (elim d [ decoded trunc parts ↦ handle_parts again parts s | decode_error ↦ s ])
      at (decoded trunc parts) = handle_parts-Listens again parts s h
      at decode_error = Listens-refl s

  handle_command_in-Listens :
      (fuel : ℕ) (at : Arrival) (env : Envelope) (buf : Bytes) (s : PacketState)
      → Listens cfg s (handle_command_in fuel cfg at env buf s)
  unfolding handle_command_in dispatch handle_compressed
  handle_command_in-Listens zero at env buf s = Listens-refl s
  handle_command_in-Listens (suc fuel) at env [] s = Listens-refl s
  handle_command_in-Listens (suc fuel) at env (t ∷ buf) s =
      on_if (Listens cfg s) (t == compound_msg_type)
        (λ _.
          on_if (Listens cfg s) env.in_compound (λ _. Listens-refl s)
            (λ _.
              handle_compound-Listens _ buf s
                (handle_command_in-Listens fuel at (record env { in_compound = true }))))
        (λ _.
          on_if (Listens cfg s) (t == compress_msg)
            (λ _.
              on_if (Listens cfg s) env.in_compress (λ _. Listens-refl s)
                (λ _. Listens-decoded s (decompress_payload cfg buf) (λ payload.
                  handle_command_in-Listens fuel at (record env { in_compress = true }) payload s)))
            (λ _. handle_leaf-Listens at t buf s))

  handle_checked-Listens :
      (at : Arrival) (buf : Bytes) (s : PacketState) → Listens cfg s (handle_checked cfg at buf s)
  unfolding handle_checked handle_command
  handle_checked-Listens at buf s =
      let handled : (b : Bytes) → Listens cfg s (handle_command cfg at b s) =
        λ b. handle_command_in-Listens 3 at no_envelope b s in
      on_if (Listens cfg s) (leb 5 (length buf) && (from_bytes 0 (take 1 buf) == has_crc_msg))
        (λ _.
          on_if (Listens cfg s) (cfg.crc32 (drop 5 buf) == from_bytes 0 (take 4 (drop 1 buf)))
            (λ _. handled (drop 5 buf)) (λ _. Listens-refl s))
        (λ _. handled buf)

  handle_plain-Listens :
      (at : Arrival) (plain : Option Bytes) (s : PacketState)
      → Listens cfg s (handle_plain cfg at plain s)
  unfolding handle_plain
  handle_plain-Listens at none s = Listens-refl s
  handle_plain-Listens at (some plain) s = handle_checked-Listens at plain s

  ingest_labelled-Listens :
      (at : Arrival) (label buf : Bytes) (s : PacketState)
      → Listens cfg s (ingest_labelled cfg at label buf s)
  unfolding ingest_labelled
  ingest_labelled-Listens at label buf s =
      on_if (Listens cfg s) (not (same cfg.label label)) (λ _. Listens-refl s)
        (λ _. handle_plain-Listens at (packet_plaintext cfg label buf) s)

  ingest_unlabelled-Listens :
      (at : Arrival) (u : Unlabelled) (s : PacketState)
      → Listens cfg s (ingest_unlabelled cfg at u s)
  unfolding ingest_unlabelled
  ingest_unlabelled-Listens at label_error s = Listens-refl s
  ingest_unlabelled-Listens at (unlabelled buf label) s =
      on_if (Listens cfg s) cfg.skip_inbound_label_check
        (λ _.
          on_if (Listens cfg s) (not (same label [])) (λ _. Listens-refl s)
            (λ _. ingest_labelled-Listens at cfg.label buf s))
        (λ _. ingest_labelled-Listens at label buf s)

  -- Whatever a packet holds, taking it in leaves the members alone, delivers nothing to the user, keeps
  -- each queue within its depth, and notifies the packet handler if a queue has changed.
  pub ingest_packet-Listens :
      (at : Arrival) (packet : Bytes) (s : PacketState)
      → Listens cfg s (ingest_packet cfg at packet s)
  unfolding ingest_packet
  ingest_packet-Listens at packet s =
      ingest_unlabelled-Listens at (remove_label_header_from_packet packet) s
