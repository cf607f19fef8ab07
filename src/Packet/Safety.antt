-- ===== src/Packet/Safety.antt =====
-- net.go: packets from anybody.
use mori.Prelude.{ℕ, zero, suc, ◌+◌, ◌<◌, ◌≡◌, refl, sym, ap, ◌∙◌, subst}
use mori.Prelude.{◌⊎◌, inl, inr, Bool, true, false, not, Option, none, some}
use mori.Prelude.{List, [], ◌∷◌, arith, ◌==◌, if◌then◌else◌}
use mori.Prelude.{on_if}
use mori.Prelude.{Bytes, same, same→eq}
use mori.Packet.Types.{compound_msg_type, compress_msg, PacketConfig, Arrival, PacketState}
use mori.Packet.Receive.{
  Envelope, no_envelope, decompress_payload, Handler, handle_parts, handle_compound,
  handle_compressed, dispatch, handle_command_in, handle_command, plaintext_of, decrypted,
  packet_plaintext, handle_checked, handle_plain, ingest_labelled, ingest_unlabelled, ingest_packet,
}
use mori.Member.Types.{state_alive}
use mori.Wire.Label.{Unlabelled, unlabelled, label_error, remove_label_header_from_packet}
use mori.Wire.Compound.{Decoded, decoded, decode_error, decode_compound_message}
use mori.Member.Invariant.Defs.{Inv}
use mori.Member.Effects.Edges.{state_at}
use mori.Member.Safety.SelfDefence.{Reach-alive}
use mori.Security.Payload.{Aead, Opened, opened, open_error, open_payload}
use mori.Packet.Receive.{installed_aeads}
use mori.Packet.Run.{PacketReach}
use mori.Packet.Refinement.{PacketReach-Reach}

-- Whatever packets arrive in whatever order, with whatever happens besides, a local node that was
-- alive, in a consistent state and not leaving, is still alive, unless it has left by its own call.
pub PacketReach-alive :
    (cfg : PacketConfig) {s t : PacketState}
    → Inv cfg.members.name s.members
    → s.members.leave ≡ false
    → state_at cfg.members.name s.members ≡ some state_alive
    → PacketReach cfg s t
    → (t.members.leave ≡ true) ⊎ (state_at cfg.members.name t.members ≡ some state_alive)
PacketReach-alive cfg inv stays alive r =
    Reach-alive cfg.members inv stays alive (PacketReach-Reach cfg r)

-- The envelopes that may still be opened.
abbrev pub budget : Envelope → ℕ
budget env = (if env.in_compound then 0 else 1) + (if env.in_compress then 0 else 1)

handle_parts-same :
    (f g : Handler) (parts : List Bytes) (s : PacketState)
    → ((buf : Bytes) (s : PacketState) → f buf s ≡ g buf s)
    → handle_parts f parts s ≡ handle_parts g parts s
handle_parts-same f g [] s h = refl
handle_parts-same f g (p ∷ parts) s h =
    ap (handle_parts f parts) (h p s) ∙ handle_parts-same f g parts (g p s) h

handle_compound-same :
    (f g : Handler) (buf : Bytes) (s : PacketState)
    → ((buf : Bytes) (s : PacketState) → f buf s ≡ g buf s)
    → handle_compound f buf s ≡ handle_compound g buf s
unfolding handle_compound
handle_compound-same f g buf s h = at (decode_compound_message buf)
  where
    at :
        (d : Decoded)
        → elim d [ decoded trunc parts ↦ handle_parts f parts s | decode_error ↦ s ]
          ≡ elim d [ decoded trunc parts ↦ handle_parts g parts s | decode_error ↦ s ]
    at (decoded trunc parts) = handle_parts-same f g parts s h
    at decode_error = refl

handle_compressed-same :
    (cfg : PacketConfig) (f g : Handler) (buf : Bytes) (s : PacketState)
    → ((buf : Bytes) (s : PacketState) → f buf s ≡ g buf s)
    → handle_compressed cfg f buf s ≡ handle_compressed cfg g buf s
unfolding handle_compressed
handle_compressed-same cfg f g buf s h = at (decompress_payload cfg buf)
  where
    at :
        (o : Option Bytes)
        → elim o [ none ↦ s | some payload ↦ f payload s ]
          ≡ elim o [ none ↦ s | some payload ↦ g payload s ]
    at none = refl
    at (some payload) = h payload s

-- Two branches with the same test.
same_if :
    {A : Type 0} (b : Bool) {x y x' y' : A}
    → (b ≡ true → x ≡ x')
    → (b ≡ false → y ≡ y')
    → (if b then x else y) ≡ (if b then x' else y')
same_if true p q = p refl
same_if false p q = q refl

module _ (cfg : PacketConfig) (at : Arrival) where
  fuel_enough :
      (f g : ℕ) (env : Envelope) (buf : Bytes) (s : PacketState)
      → budget env < f
      → budget env < g
      → handle_command_in f cfg at env buf s ≡ handle_command_in g cfg at env buf s
  unfolding handle_command_in dispatch
  fuel_enough zero g env buf s h k = absurd (omega (arith, h))
  fuel_enough (suc f) zero env buf s h k = absurd (omega (arith, k))
  fuel_enough (suc f) (suc g) env [] s h k = refl
  fuel_enough (suc f) (suc g) env (t ∷ buf) s h k =
      same_if (t == compound_msg_type)
        (λ _.
          same_if env.in_compound (λ _. refl)
            (λ e. handle_compound-same _ _ buf s (λ b u.
              fuel_enough f g (record env { in_compound = true }) b u (ground (arith, h, e))
                (ground (arith, k, e)))))
        (λ _.
          same_if (t == compress_msg)
            (λ _.
              same_if env.in_compress (λ _. refl)
                (λ e. handle_compressed-same cfg _ _ buf s (λ b u.
                  fuel_enough f g (record env { in_compress = true }) b u (ground (arith, h, e))
                    (ground (arith, k, e)))))
            (λ _. refl))

  -- A message nests at most a compound and a compressed envelope: more rounds than the three of
  -- handleCommand change nothing.
  pub handle_command_in-deep :
      (more : ℕ) (buf : Bytes) (s : PacketState)
      → handle_command_in (3 + more) cfg at no_envelope buf s ≡ handle_command cfg at buf s
  unfolding handle_command
  handle_command_in-deep more buf s =
      fuel_enough (3 + more) 3 no_envelope buf s (omega arith) (omega arith)

  plaintext_opened :
      (buf plain : Bytes) (u : Opened)
      → cfg.gossip_verify_incoming ≡ true
      → plaintext_of cfg buf u ≡ some plain
      → u ≡ opened plain
  plaintext_opened buf plain (opened p) verify e = cc e
  plaintext_opened buf plain open_error verify e =
      absurd (cc (subst (λ b. (if not b then some buf else none) ≡ some plain) verify e))

-- A packet whose payload one of the ciphers opens, with the configured label as the additional data.
pub record IsAuthentic (cfg : PacketConfig) (aeads : List Aead) (packet plain : Bytes)
    : Type 0 where
  pub payload : Bytes
  pub label : Bytes
  pub behind_label : remove_label_header_from_packet packet ≡ unlabelled payload label
  pub opens : open_payload aeads payload cfg.label ≡ opened plain

module _ (cfg : PacketConfig) (at : Arrival) (aeads : List Aead)
    (keys : installed_aeads cfg ≡ some aeads) (verify : cfg.gossip_verify_incoming ≡ true) where
  -- Dropped, or opened.
  Opens : Bytes → PacketState → PacketState → Type 0
  Opens payload s t =
      (t ≡ s)
      ⊎ ((plain : Bytes) × (open_payload aeads payload cfg.label ≡ opened plain)
          × (t ≡ handle_checked cfg at plain s))

  handle_plain-Opens :
      (payload : Bytes) (s : PacketState) (o : Option Bytes)
      → plaintext_of cfg payload (open_payload aeads payload cfg.label) ≡ o
      → Opens payload s (handle_plain cfg at o s)
  unfolding handle_plain Opens
  handle_plain-Opens payload s none e = inl refl
  handle_plain-Opens payload s (some plain) e =
      inr (plain, plaintext_opened cfg at payload plain _ verify e, refl)

  ingest_labelled-Opens :
      (label payload : Bytes) (s : PacketState)
      → Opens payload s (ingest_labelled cfg at label payload s)
  unfolding ingest_labelled packet_plaintext decrypted Opens
  ingest_labelled-Opens label payload s =
      on_if (Opens payload s) (not (same cfg.label label)) (λ _. inl refl)
        (λ ours.
          let ours_eq : cfg.label ≡ label = same→eq cfg.label label (ground (arith, ours)) in
          handle_plain-Opens payload s (packet_plaintext cfg label payload) (
            ap (λ l. plaintext_of cfg payload (open_payload aeads payload l)) ours_eq
            ∙ sym (ap (decrypted cfg label payload) keys)))

  unlabelled-IsAuthentic :
      (packet payload label : Bytes) (s t : PacketState)
      → remove_label_header_from_packet packet ≡ unlabelled payload label
      → Opens payload s t
      → (t ≡ s)
        ⊎ ((plain : Bytes) × IsAuthentic cfg aeads packet plain
            × (t ≡ handle_checked cfg at plain s))
  unfolding Opens
  unlabelled-IsAuthentic packet payload label s t e (inl h) = inl h
  unlabelled-IsAuthentic packet payload label s t e (inr (plain, o, h)) =
      inr (plain, record { payload = payload; label = label; behind_label = e; opens = o }, h)

  -- Where keys are installed and incoming gossip is verified, a packet either changes nothing, or a
  -- cipher opens what stands behind its label, with the configured label as the additional data,
  -- and what is handled is the opened payload.
  pub ingest_packet-IsAuthentic :
      (packet : Bytes) (s : PacketState)
      → (ingest_packet cfg at packet s ≡ s)
        ⊎ ((plain : Bytes) × IsAuthentic cfg aeads packet plain
            × (ingest_packet cfg at packet s ≡ handle_checked cfg at plain s))
  unfolding ingest_packet ingest_unlabelled Opens
  ingest_packet-IsAuthentic packet s = after (remove_label_header_from_packet packet) refl
    where
      after :
          (u : Unlabelled)
          → remove_label_header_from_packet packet ≡ u
          → (ingest_unlabelled cfg at u s ≡ s)
            ⊎ ((plain : Bytes) × IsAuthentic cfg aeads packet plain
                × (ingest_unlabelled cfg at u s ≡ handle_checked cfg at plain s))
      after label_error e = inl refl
      after (unlabelled payload label) e = unlabelled-IsAuthentic packet payload label s _ e (
          on_if (Opens payload s) cfg.skip_inbound_label_check
            (λ _.
              on_if (Opens payload s) (not (same label [])) (λ _. inl refl)
                (λ _. ingest_labelled-Opens cfg.label payload s))
            (λ _. ingest_labelled-Opens label payload s))
