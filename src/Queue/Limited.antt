-- ===== src/Queue/Limited.antt =====
-- `TransmitLimitedQueue` of queue.go. Its mutex makes each method one step. `finished` lists the
-- broadcasts whose `Finished` was called, in order. Counters of the source's `int` and `int64` are
-- numbers here: it rules out itself that 2 ^ 63 ids are used up. A budget below zero is 0, and both
-- end the loop at once.
pub mod Invariant
pub mod Pruning
pub mod Queueing
pub mod Picking
pub mod Holding
pub mod Sending
pub mod Calls
use mori.Prelude.{
  ℕ, zero, suc, ◌+◌, ◌-◌, ◌*◌, ◌/◌, ◌%◌, ◌^◌, ◌≤◌, ◌<◌, min, max, ◌≡◌, refl, sym, ap, ap₂, ◌∙◌,
  subst,
}
use mori.Prelude.{◌≢◌, ◌↔◌, ◌⊎◌, inl, inr, Bool, true, false, not, ◌&&◌, ◌||◌, Option, none, some}
use mori.Prelude.{
  List, [], ◌∷◌, ◌++◌, map, append-nil, append_assoc, arith, ltb, leb, ◌==◌, if◌then◌else◌,
}
use mori.Prelude.{
  ltb→lt, lt→ltb, leb→le, ==_iff, tests, Bool-cases, Option-cases, Bool-contra, on_if,
}
use mori.Prelude.{
  length, get_elem?, set, take, drop, replicate, length-append, length-set, take-append-drop,
  length-take,
}
use mori.Prelude.{
  length-drop, take-append, drop-append, All, All-append, All-append_left, All-append_right,
  All-imp,
}
use mori.Prelude.{Bytes, IsByte, same, same_refl, same→eq, same_iff, same-cases, same_comm}
use mori.Prelude.Assoc.{lookup, insert, remove}
use mori.Queue.Item.{Item, less}
use mori.Queue.Treap.{
  Treap, leaf, node, treap_insert, treap_delete, treap_ceil, treap_next, treap_min, treap_max,
  ascend_from,
}

-- `Broadcast` and its optional extensions: `named` is `Name` of a `NamedBroadcast`, `unique` marks a
-- `UniqueBroadcast`.
pub record BroadcastOps (B : Type 0) : Type 0 where
  pub message : B → Bytes
  pub named : B → Option Bytes
  pub unique : B → Bool
  pub invalidates : B → B → Bool

pub record LimitedQueue (B : Type 0) : Type 0 where
  pub retransmit_mult : ℕ
  pub root : Treap B
  pub n : ℕ
  pub tm : List (Bytes × Item B)
  pub id_gen : ℕ
  pub finished : List B

abbrev pub is_empty : Bytes → Bool
is_empty [] = true
is_empty (a ∷ s) = false

module _ {B : Type 0} where
  unfoldable pub new_queue : ℕ → LimitedQueue B
  new_queue mult = record {
    retransmit_mult = mult;
    root = leaf;
    n = 0;
    tm = [];
    id_gen = 0;
    finished = [];
  }

  unfoldable pub delete_item : Item B → LimitedQueue B → LimitedQueue B
  delete_item cur q = record q {
    root = treap_delete q.root cur;
    n = q.n - 1;
    tm = if is_empty cur.name then q.tm else remove cur.name q.tm;
  }

  -- `prio` is the random priority.
  unfoldable pub add_item : ℕ → Item B → LimitedQueue B → LimitedQueue B
  add_item prio cur q = record q {
    root = treap_insert q.root cur prio;
    n = q.n + 1;
    tm = if is_empty cur.name then q.tm else insert cur.name cur q.tm;
  }

  unfoldable pub finish : B → LimitedQueue B → LimitedQueue B
  finish b q = record q { finished = q.finished ++ (b ∷ []) }

  unfoldable pub num_queued : LimitedQueue B → ℕ
  num_queued q = q.n

module _ {B : Type 0} (ops : BroadcastOps B) where
  open ops use {message, named, unique, invalidates}

  unfoldable pub name_of : B → Bytes
  name_of b = elim (named b) [ none ↦ [] | some k ↦ k ]

  -- A `NamedBroadcast` is not asked whether it is unique.
  unfoldable pub is_plain : B → Bool
  is_plain b = elim (named b) [ none ↦ not (unique b) | some k ↦ false ]

  unfoldable pub is_unique : B → Bool
  is_unique b = elim (named b) [ none ↦ unique b | some k ↦ false ]

  -- The entries of a walk that `b` makes void; only plain broadcasts are.
  unfoldable pub voided : B → List (Item B) → List (Item B)
  unfolding is_plain
  voided b [] = []
  voided b (x ∷ xs) =
      let rest = voided b xs in if is_plain x.b && invalidates b x.b then x ∷ rest else rest

  unfoldable pub finish_all : List (Item B) → LimitedQueue B → LimitedQueue B
  unfolding finish
  finish_all [] q = q
  finish_all (x ∷ xs) q = finish_all xs (finish x.b q)

  unfoldable pub delete_all : List (Item B) → LimitedQueue B → LimitedQueue B
  unfolding delete_item
  delete_all [] q = q
  delete_all (x ∷ xs) q = delete_all xs (delete_item x q)

  -- What the new broadcast replaces is finished and taken out.
  unfoldable pub invalidate : B → Bytes → LimitedQueue B → LimitedQueue B
  unfolding voided finish_all delete_all finish delete_item is_unique
  invalidate b name q =
      if not (is_empty name)
      then elim (lookup name q.tm) [ none ↦ q | some old ↦ delete_item old (finish old.b q) ]
      else if not (is_unique b)
      then (let gone = voided b (ascend_from q.root none (λ _. true)) in
          delete_all gone (finish_all gone q))
      else q

  unfoldable pub new_item : B → ℕ → ℕ → Item B
  unfolding name_of
  new_item b initial_transmits id = record {
    transmits = initial_transmits;
    msg_len = length (message b);
    id = id;
    b = b;
    name = name_of b;
  }

  unfoldable pub queue_broadcast : ℕ → B → ℕ → LimitedQueue B → LimitedQueue B
  unfolding new_item invalidate add_item
  queue_broadcast prio b initial_transmits q =
      let id = q.id_gen + 1 in
      let lb = new_item b initial_transmits id in
      add_item prio lb (invalidate b lb.name (record q { id_gen = id }))

  -- `getTransmitRange`
  unfoldable pub transmits_of : Option (Item B) → ℕ
  transmits_of none = 0
  transmits_of (some x) = x.transmits

  unfoldable pub get_transmit_range : LimitedQueue B → ℕ × ℕ
  unfolding transmits_of
  get_transmit_range q =
      if q.n == 0
      then (0, 0)
      else (transmits_of (treap_min q.root), transmits_of (treap_max q.root))

  -- The variables of the loop of `GetBroadcasts`.
  pub record Gathering : Type 0 where
    pub queue : LimitedQueue B
    pub bytes_used : ℕ
    pub to_send : List Bytes
    pub reinsert : List (Item B)

  -- The bound of a search: the first entry of a tier that fits `free` bytes. Its broadcast, nil in the
  -- source, is never read; here it is that of some entry.
  unfoldable pub tier_bound : Item B → ℕ → ℕ → Item B
  tier_bound x transmits free = record x {
    transmits = transmits;
    msg_len = free;
    id = 2 ^ 63 - 1;
    name = [];
  }

  -- Skips entries of the tier whose message no longer has the length that was recorded. Each round
  -- moves on, so the size of the queue is enough fuel.
  unfoldable pub skip_loop : ℕ → Treap B → ℕ → ℕ → Option (Item B) → Option (Item B)
  skip_loop zero t transmits free keep = keep
  skip_loop (suc fuel) t transmits free none = none
  skip_loop (suc fuel) t transmits free (some x) =
      let rest = skip_loop fuel t transmits free (treap_next t x) in
      if x.transmits == transmits && ltb free (length (message x.b)) then rest else some x

  -- The entry is sent, taken out, and finished or kept for the next tier.
  unfoldable pub take_item : ℕ → ℕ → Item B → Gathering → Gathering
  unfolding delete_item finish
  take_item overhead transmit_limit x g =
      let q = delete_item x g.queue in
      let sent = record g {
        bytes_used = g.bytes_used + (overhead + length (message x.b));
        to_send = g.to_send ++ (message x.b ∷ []);
      } in
      if not (ltb (x.transmits + 1) transmit_limit)
      then record sent { queue = finish x.b q }
      else record sent {
        queue = q;
        reinsert = g.reinsert ++ (record x { transmits = x.transmits + 1 } ∷ []);
      }

  unfoldable pub in_tier : ℕ → Option (Item B) → Option (Item B)
  in_tier transmits none = none
  in_tier transmits (some x) = if x.transmits == transmits then some x else none

  -- The entry that the next round sends from the tier.
  unfoldable pub pick : ℕ → ℕ → LimitedQueue B → Option (Item B)
  unfolding tier_bound skip_loop in_tier
  pick transmits free q = elim (treap_min q.root) [
    | none ↦ none
    | some x ↦ in_tier transmits (
        skip_loop (q.n + 1) q.root transmits free (treap_ceil q.root (tier_bound x transmits free)))
  ]

  -- A round sends an entry or goes to the next tier.
  unfoldable pub gather : ℕ → ℕ → ℕ → ℕ → ℕ → ℕ → Gathering → Gathering
  unfolding pick take_item
  gather zero overhead limit transmit_limit max_tr transmits g = g
  gather (suc fuel) overhead limit transmit_limit max_tr transmits g =
      let free = limit - g.bytes_used - overhead in
      let advance = gather fuel overhead limit transmit_limit max_tr (transmits + 1) g in
      let send = λ (x : Item B).
        gather fuel overhead limit transmit_limit max_tr transmits
          (take_item overhead transmit_limit x g) in
      if not (leb transmits max_tr)
      then g
      else if free == 0
      then g
      else elim (pick transmits free g.queue) [ none ↦ advance | some x ↦ send x ]

  unfoldable pub add_all : (ℕ → ℕ) → List (Item B) → LimitedQueue B → LimitedQueue B
  unfolding add_item
  add_all draws [] q = q
  add_all draws (x ∷ xs) q = add_all (λ i. draws (i + 1)) xs (add_item (draws 0) x q)

  abbrev pub start : LimitedQueue B → Gathering
  start q = record { queue = q; bytes_used = 0; to_send = []; reinsert = [] }

  -- `retransmitLimit`: `log10_ceil n` is the floating point `Ceil(Log10(n + 1))` as an integer.
  unfoldable pub retransmit_limit : (ℕ → ℕ) → ℕ → ℕ → ℕ
  retransmit_limit log10_ceil mult n = mult * log10_ceil n

  -- Every round sends one of the entries or passes one of the tiers, which bounds the rounds.
  unfoldable pub get_broadcasts :
      (ℕ → ℕ) → ℕ → (ℕ → ℕ) → ℕ → ℕ → LimitedQueue B → LimitedQueue B × List Bytes
  unfolding gather add_all get_transmit_range retransmit_limit
  get_broadcasts log10_ceil num_nodes draws overhead limit q =
      if q.n == 0
      then (q, [])
      else let transmit_limit = retransmit_limit log10_ceil q.retransmit_mult num_nodes in
        let (min_tr, max_tr) = get_transmit_range q in
        let g =
          gather (q.n + (max_tr + 1 - min_tr)) overhead limit transmit_limit max_tr min_tr
            (start q) in
        (add_all draws g.reinsert g.queue, g.to_send)

module _ {B : Type 0} where
  -- A round removes the last entry, so the number of entries is enough fuel.
  unfoldable pub prune_loop : ℕ → ℕ → LimitedQueue B → LimitedQueue B
  unfolding finish delete_item
  prune_loop zero max_retain q = q
  prune_loop (suc fuel) max_retain q =
      let next = λ (x : Item B). prune_loop fuel max_retain (delete_item x (finish x.b q)) in
      if ltb max_retain q.n then elim (treap_max q.root) [ none ↦ q | some x ↦ next x ] else q

  unfoldable pub prune : ℕ → LimitedQueue B → LimitedQueue B
  unfolding prune_loop
  prune max_retain q = prune_loop q.n max_retain q

module _ {B : Type 0} (ops : BroadcastOps B) where
  unfoldable pub reset : LimitedQueue B → LimitedQueue B
  reset q =
      let done = finish_all ops (ascend_from q.root none (λ _. true)) q in
      record done { root = leaf; n = 0; tm = []; id_gen = 0 }
