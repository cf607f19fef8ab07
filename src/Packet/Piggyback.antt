-- ===== src/Packet/Piggyback.antt =====
-- net.go and broadcast.go: `sendMsg`, which fills a packet with broadcasts, and its budget.
use mori.Prelude.{ℕ, zero, suc, ◌+◌, ◌-◌, ◌*◌, ◌%◌, ◌^◌, ◌≤◌, ◌<◌, ◌≡◌, refl}
use mori.Prelude.{◌⊎◌, inl, inr, Bool, false, Option, none, some}
use mori.Prelude.{List, [], ◌∷◌, ◌++◌, arith, ltb, if◌then◌else◌}
use mori.Prelude.{on_if, length, drop, length-append}
use mori.Prelude.{Bytes}
use mori.Wire.Label.{label_overhead}
use mori.Wire.Compound.{
  Decoded, decoded, decode_error, put_uint16, put_lengths, put_parts, make_compound_message,
  get_lengths, split_parts, decode_compound_message,
}
use mori.Security.Payload.{encrypt_overhead, encrypted_length}
use mori.Queue.Limited.{BroadcastOps, LimitedQueue, get_broadcasts}
use mori.Queue.Limited.Invariant.{QueueInv}
use mori.Queue.Limited.Sending.{cost}
use mori.Queue.Limited.Calls.{get_broadcasts-fits}
use mori.Packet.Types.{user_msg}
use mori.Packet.Receive.{installed_aeads}
use mori.Packet.Send.{SendConfig, encryption_version}

-- Each user message behind its type.
unfoldable pub user_frames : List Bytes → List Bytes
user_frames [] = []
user_frames (m ∷ ms) = (user_msg ∷ m) ∷ user_frames ms

-- `GetBroadcasts` of the delegate, by the overhead and the limit, or none without a delegate.
abbrev pub UserBroadcasts : Type 0
UserBroadcasts = Option (ℕ → ℕ → List Bytes)

-- What `getBroadcasts` adds to the broadcasts of the memberlist. A budget that is used up is 0.
unfoldable pub with_user_broadcasts : UserBroadcasts → ℕ → ℕ → List Bytes → List Bytes
unfolding user_frames
with_user_broadcasts none overhead limit to_send = to_send
with_user_broadcasts (some ask) overhead limit to_send =
    let avail = limit - cost overhead to_send in
    if ltb (overhead + 1) avail then to_send ++ user_frames (ask (overhead + 1) avail) else to_send

-- `EncryptionEnabled() && GossipVerifyOutgoing`
abbrev pub seals : SendConfig → Bool
seals cfg = elim (installed_aeads cfg.packet) [
  | none ↦ false
  | some aeads ↦ cfg.gossip_verify_outgoing
]

-- `encryptOverhead(m.encryptionVersion())`, which does not panic.
unfoldable pub seal_overhead : SendConfig → ℕ
unfolding encrypt_overhead encryption_version
seal_overhead cfg =
    if seals cfg
    then elim (encrypt_overhead (encryption_version cfg.packet)) [ none ↦ 0 | some n ↦ n ]
    else 0

-- The budget of `sendMsg` for broadcasts, at 0 where the source's is negative. `size` is
-- `packetBufferSize`.
unfoldable pub bytes_avail : SendConfig → ℕ → Bytes → ℕ
unfolding label_overhead seal_overhead
bytes_avail cfg size msg =
    size - length msg - 2 - 2 - 5 - label_overhead cfg.packet.label - seal_overhead cfg

-- The message alone, or a compound message of it and the broadcasts.
unfoldable pub piggybacked : Bytes → List Bytes → Bytes
unfolding make_compound_message
piggybacked msg [] = msg
piggybacked msg (m ∷ ms) = make_compound_message (msg ∷ m ∷ ms)

-- The message that `sendMsg` hands to `rawSendMsgPacket`, and the queue behind it.
unfoldable pub send_msg :
    {B : Type 0}
    → BroadcastOps B
    → (ℕ → ℕ)
    → ℕ
    → (ℕ → ℕ)
    → UserBroadcasts
    → SendConfig
    → ℕ
    → Bytes
    → LimitedQueue B
    → LimitedQueue B × Bytes
unfolding get_broadcasts with_user_broadcasts bytes_avail piggybacked
send_msg ops log10_ceil num_nodes draws user cfg size msg q =
    let avail = bytes_avail cfg size msg in
    let (q', to_send) = get_broadcasts ops log10_ceil num_nodes draws 2 avail q in
    (q', piggybacked msg (with_user_broadcasts user 2 avail to_send))

cost-user_frames :
    (overhead : ℕ) (ms : List Bytes) → cost overhead (user_frames ms) ≡ cost (overhead + 1) ms
unfolding user_frames
cost-user_frames overhead [] = refl
cost-user_frames overhead (m ∷ ms) = omega (arith, cost-user_frames overhead ms)

cost-append :
    (overhead : ℕ) (xs ys : List Bytes)
    → cost overhead (xs ++ ys) ≡ cost overhead xs + cost overhead ys
cost-append overhead [] ys = omega arith
cost-append overhead (x ∷ xs) ys = omega (arith, cost-append overhead xs ys)

length-put_lengths : (ms : List Bytes) → length (put_lengths ms) + length (put_parts ms) ≡ cost 2 ms
unfolding put_lengths put_parts put_uint16
length-put_lengths [] = refl
length-put_lengths (m ∷ ms) = omega (arith, length-put_lengths ms, length-append m (put_parts ms))

length-make_compound : (ms : List Bytes) → length (make_compound_message ms) ≡ 2 + cost 2 ms
unfolding make_compound_message
length-make_compound ms =
    omega (arith, length-put_lengths ms, length-append (put_lengths ms) (put_parts ms))

-- The delegate keeps to the limit that it is given, as its documentation demands.
abbrev pub KeepsLimit : UserBroadcasts → Type 0
KeepsLimit none = Unit {0}
KeepsLimit (some ask) = (overhead limit : ℕ) → cost overhead (ask overhead limit) ≤ limit

with_user-fits :
    (user : UserBroadcasts) (limit : ℕ) (ms : List Bytes)
    → KeepsLimit user
    → cost 2 ms ≤ limit
    → cost 2 (with_user_broadcasts user 2 limit ms) ≤ limit
unfolding with_user_broadcasts
with_user-fits none limit ms keeps h = h
with_user-fits (some ask) limit ms keeps h =
    on_if (λ xs. cost 2 xs ≤ limit) (ltb 3 (limit - cost 2 ms))
      (λ _.
        let asked = ask 3 (limit - cost 2 ms) in
        omega (
          arith,
          h,
          keeps 3 (limit - cost 2 ms),
          cost-append 2 ms (user_frames asked),
          cost-user_frames 2 asked,
        ))
      (λ _. h)

-- The length of what is sealed, or of what is sent as it is.
abbrev pub sealed_length : SendConfig → ℕ → ℕ
sealed_length cfg n = if seals cfg then encrypted_length (encryption_version cfg.packet) n else n

sealed_length-bound : (cfg : SendConfig) (n : ℕ) → sealed_length cfg n ≤ n + seal_overhead cfg
unfolding seal_overhead encrypt_overhead encrypted_length encryption_version
sealed_length-bound cfg n = ground arith

piggybacked-fits :
    (cfg : SendConfig) (size : ℕ) (msg : Bytes) (extra : List Bytes)
    → cost 2 extra ≤ bytes_avail cfg size msg
    → (piggybacked msg extra ≡ msg)
      ⊎ (label_overhead cfg.packet.label + sealed_length cfg (5 + length (piggybacked msg extra))
          ≤ size)
unfolding piggybacked bytes_avail
piggybacked-fits cfg size msg [] h = inl refl
piggybacked-fits cfg size msg (m ∷ ms) h = inr (
    omega (
      arith,
      h,
      length-make_compound (msg ∷ m ∷ ms),
      sealed_length-bound cfg (5 + length (make_compound_message (msg ∷ m ∷ ms))),
    ))

module _ {B : Type 0} (ops : BroadcastOps B) (q : LimitedQueue B) where
  -- What sendMsg sends fits the packet buffer with the checksum, the padding and tag of the cipher,
  -- and the label, or it is the message alone. The queue must be consistent and have issued fewer
  -- than 2^63 ids, and the delegate must keep to the limit that it is given.
  pub send_msg-fits :
      (log10_ceil : ℕ → ℕ) (num_nodes : ℕ) (draws : ℕ → ℕ) (user : UserBroadcasts)
      (cfg : SendConfig) (size : ℕ) (msg : Bytes)
      → QueueInv ops q
      → q.id_gen < 2 ^ 63
      → KeepsLimit user
      → let sent = (send_msg ops log10_ceil num_nodes draws user cfg size msg q).1 in
        (sent ≡ msg)
        ⊎ (label_overhead cfg.packet.label + sealed_length cfg (5 + length sent) ≤ size)
  unfolding send_msg
  send_msg-fits log10_ceil num_nodes draws user cfg size msg inv small keeps =
      let avail = bytes_avail cfg size msg in
      let to_send = (get_broadcasts ops log10_ceil num_nodes draws 2 avail q).1 in
      piggybacked-fits cfg size msg (with_user_broadcasts user 2 avail to_send) (
        with_user-fits user avail to_send keeps
          (get_broadcasts-fits ops 2 avail q inv small log10_ceil num_nodes draws).1)

-- How many parts a receiver finds.
abbrev pub parts_found : Decoded → ℕ
parts_found (decoded trunc parts) = length parts
parts_found decode_error = 0

length-get_lengths : (n : ℕ) (buf : Bytes) → length (get_lengths n buf) ≤ n
unfolding get_lengths
length-get_lengths zero buf = omega arith
length-get_lengths (suc n) [] = omega arith
length-get_lengths (suc n) (hi ∷ []) = omega arith
length-get_lengths (suc n) (hi ∷ lo ∷ buf) = omega (arith, length-get_lengths n buf)

length-split_parts : (ns : List ℕ) (buf : Bytes) → length (split_parts ns buf).1 ≤ length ns
unfolding split_parts
length-split_parts [] buf = omega arith
length-split_parts (n ∷ ns) buf =
    on_if (λ (r : ℕ × List Bytes). length r.1 ≤ suc (length ns)) (ltb (length buf) n)
      (λ _. omega arith) (λ _. omega (arith, length-split_parts ns (drop n buf)))

-- With 255 broadcasts or more, a receiver finds fewer parts in the compound message than it was
-- made of.
pub piggybacked_loses :
    (msg : Bytes) (extra : List Bytes)
    → 255 ≤ length extra
    → parts_found (decode_compound_message (drop 1 (piggybacked msg extra))) < length (msg ∷ extra)
unfolding piggybacked make_compound_message decode_compound_message
piggybacked_loses msg [] h = absurd (omega (arith, h))
piggybacked_loses msg (m ∷ ms) h =
    let n : ℕ = (suc (suc (length ms))) % 256 in
    let buf : Bytes = put_lengths (msg ∷ m ∷ ms) ++ put_parts (msg ∷ m ∷ ms) in
    on_if (λ d. parts_found d < suc (suc (length ms))) (ltb (length buf) (n * 2)) (λ _. omega arith)
      (λ _. omega (
        arith,
        h,
        length-split_parts (get_lengths n buf) (drop (n * 2) buf),
        length-get_lengths n buf,
      ))
