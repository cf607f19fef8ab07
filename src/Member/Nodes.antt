-- ===== src/Member/Nodes.antt =====
-- The small operations of state.go, util.go, events.go and config.go that the handlers share.
use mori.Prelude.{ℕ, ◌+◌, ◌-◌, ◌%◌, ◌^◌}
use mori.Prelude.{Bool, true, false, not, ◌&&◌, ◌||◌, Option}
use mori.Prelude.{List, [], ◌∷◌, ◌++◌, ltb, leb, ◌==◌, if◌then◌else◌}
use mori.Prelude.{length}
use mori.Prelude.{Bytes, same}
use mori.Prelude.Int.{pos}
use mori.Prelude.Assoc.{insert, remove}
use mori.Awareness.{apply_delta}
use mori.Member.Types.{
  Node, NodeState, Versions, Config, Memberlist, Message, alive_msg, Notify, no_notify, EventKind,
  QueuedEvent, AliveMsg,
}

-- `m.nodeMap[name] = state`, and a write through a pointer that the map holds.
unfoldable pub put_state : Bytes → NodeState → Memberlist → Memberlist
put_state name s m = record m { node_map = insert name s m.node_map }

-- `delete(m.nodeTimers, name)`: the timer itself runs on.
unfoldable pub clear_timer : Bytes → Memberlist → Memberlist
clear_timer name m = record m { node_timers = remove name m.node_timers }

-- `net.IP.Equal`: the 16-byte form of an IPv4 address equals its 4-byte form.
abbrev v4_in_v6_prefix : Bytes
v4_in_v6_prefix = 0 ∷ 0 ∷ 0 ∷ 0 ∷ 0 ∷ 0 ∷ 0 ∷ 0 ∷ 0 ∷ 0 ∷ 0xff ∷ 0xff ∷ []

unfoldable pub ip_equal : Bytes → Bytes → Bool
ip_equal a b =
    if length a == length b
    then same a b
    else if length a == 4 && length b == 16
    then same (v4_in_v6_prefix ++ a) b
    else if length a == 16 && length b == 4
    then same a (v4_in_v6_prefix ++ b)
    else false

unfoldable pub any_contains : List (Bytes → Bool) → Bytes → Bool
any_contains [] ip = false
any_contains (c ∷ cs) ip = c ip || any_contains cs ip

unfoldable pub ip_must_be_checked : Config → Bool
ip_must_be_checked cfg = ltb 0 (length cfg.cidrs_allowed)

-- True where `IPAllowed` returns nil.
unfoldable pub ip_allowed : Config → Bytes → Bool
unfolding ip_must_be_checked
ip_allowed cfg ip = if not (ip_must_be_checked cfg) then true else any_contains cfg.cidrs_allowed ip

-- `rand` stands for the generator: `rand.IntN(n)` is any number below n.
unfoldable pub random_offset : ℕ → ℕ → ℕ
random_offset n rand = if n == 0 then 0 else rand % n

unfoldable pub next_incarnation : Memberlist → Memberlist × ℕ
next_incarnation m = let inc = (m.incarnation + 1) % 2 ^ 32 in (record m { incarnation = inc }, inc)

unfoldable pub skip_incarnation : ℕ → Memberlist → Memberlist × ℕ
skip_incarnation offset m =
    let inc = (m.incarnation + offset) % 2 ^ 32 in (record m { incarnation = inc }, inc)

unfoldable pub queue_broadcast : Bytes → Message → Notify → Memberlist → Memberlist
queue_broadcast node msg notify m = record m {
  broadcasts = m.broadcasts ++ (record { node = node; msg = msg; notify = notify } ∷ []);
}

unfoldable pub enqueue_event : EventKind → Node → Option Node → Bool → Memberlist → Memberlist
enqueue_event kind node other receipt m =
    let seq = (m.event_seq + 1) % 2 ^ 64 in
    let ev : QueuedEvent = record {
      kind = kind;
      node = node;
      other = other;
      seq = seq;
      receipt = receipt;
    } in
    record m { event_seq = seq; events = m.events ++ (ev ∷ []) }

abbrev vector_of : Versions → Bytes
vector_of v = v.pmin ∷ v.pmax ∷ v.pcur ∷ v.dmin ∷ v.dmax ∷ v.dcur ∷ []

-- The incarnation that answers an accusation: `accusedInc - inc + 1` is taken in uint32.
unfoldable pub refute_incarnation : ℕ → Memberlist → Memberlist × ℕ
unfolding next_incarnation skip_incarnation
refute_incarnation accused m =
    let (m1, inc) = next_incarnation m in
    if leb inc accused then skip_incarnation ((accused - inc + 1) % 2 ^ 32) m1 else (m1, inc)

-- `refute(me, accusedInc)`; `me` is the state registered under `key`.
unfoldable pub refute : Config → Bytes → NodeState → ℕ → Memberlist → Memberlist
unfolding refute_incarnation put_state queue_broadcast
refute cfg key me accused m =
    let (m1, inc) = refute_incarnation accused m in
    let m2 = put_state key (record me { incarnation = inc }) m1 in
    let m3 = record m2 { awareness = apply_delta (pos 1) m2.awareness } in
    let a : AliveMsg = record {
      incarnation = inc;
      node = me.name;
      addr = me.addr;
      port = me.port;
      meta = me.meta;
      vsn = vector_of me.vsn;
    } in
    queue_broadcast (cfg.ip_string me.addr) (alive_msg a) no_notify m3
