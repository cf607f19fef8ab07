-- ===== src/Member/Lifecycle.antt =====
-- The operations of memberlist.go and state.go that add no message: the announcement and the update of
-- the local node, what a probe does to the health score, leaving, reaping dead nodes, shutdown, and the
-- queries.
use mori.Prelude.{ℕ, ◌+◌, ◌%◌, ◌^◌}
use mori.Prelude.{Bool, true, false, not, ◌&&◌, ◌||◌, none, some}
use mori.Prelude.{List, [], ◌∷◌, if◌then◌else◌}
use mori.Prelude.{take, drop}
use mori.Prelude.{Bytes, same}
use mori.Prelude.Int.{ℤ, ltb_ℤ, since}
use mori.Awareness.{apply_delta}
use mori.Prelude.Assoc.{lookup, remove}
use mori.Member.Types.{Node, NodeState, node_of, dead_or_left}
use mori.Member.Types.{AliveMsg, DeadMsg, no_notify, caller_notify, Config, Env, Memberlist}
use mori.Member.Nodes.{next_incarnation}
use mori.Util.Shuffle.{shuffle_nodes}
use mori.Util.MoveDead.{move_dead_nodes}
use mori.Member.Alive.{alive_node_locked}
use mori.Member.Dead.{dead_node_locked}

-- `setAlive` takes the incarnation before it holds the node lock. This is what it does under the lock:
-- `addr`, `port` and `meta` come from the transport and the delegate, `vsn` from `BuildVsnArray`. False
-- is `ErrShutdown`.
unfoldable pub commit_announcement :
    Config → Env → ℕ → Bytes → ℕ → Bytes → Bytes → Bool → Memberlist → Memberlist × Bool
commit_announcement cfg env inc addr port meta vsn receipt m =
    let a : AliveMsg = record {
      incarnation = inc;
      node = cfg.name;
      addr = addr;
      port = port % 2 ^ 16;
      meta = meta;
      vsn = vsn;
    } in
    if m.shutdown then (m, false) else (alive_node_locked cfg env a no_notify true receipt m, true)

-- The whole of it, where nothing comes between.
unfoldable pub set_alive :
    Config → Env → Bytes → ℕ → Bytes → Bytes → Bool → Memberlist → Memberlist × Bool
unfolding commit_announcement
set_alive cfg env addr port meta vsn receipt m =
    let (m1, inc) = next_incarnation m in
    commit_announcement cfg env inc addr port meta vsn receipt m1

-- The states in the order of the slice.
unfoldable pub states_of : List Bytes → List (Bytes × NodeState) → List NodeState
states_of [] nm = []
states_of (k ∷ ks) nm =
    let rest = states_of ks nm in elim (lookup k nm) [ none ↦ rest | some s ↦ s ∷ rest ]

unfoldable pub any_alive_in : Bytes → List NodeState → Bool
any_alive_in self [] = false
any_alive_in self (s ∷ ss) =
    (not (dead_or_left s.state) && not (same s.name self)) || any_alive_in self ss

unfoldable pub any_alive : Config → Memberlist → Bool
unfolding states_of any_alive_in
any_alive cfg m = any_alive_in cfg.name (states_of m.nodes m.node_map)

unfoldable pub live_nodes : List NodeState → List Node
live_nodes [] = []
live_nodes (s ∷ ss) =
    let rest = live_nodes ss in if not (dead_or_left s.state) then node_of s ∷ rest else rest

unfoldable pub members : Memberlist → List Node
unfolding states_of live_nodes
members m = live_nodes (states_of m.nodes m.node_map)

unfoldable pub count_live : ℕ → List NodeState → ℕ
count_live alive [] = alive
count_live alive (s ∷ ss) = count_live (if not (dead_or_left s.state) then alive + 1 else alive) ss

unfoldable pub num_members : Memberlist → ℕ
unfolding states_of count_live
num_members m = count_live 0 (states_of m.nodes m.node_map)

-- What the commit phase of `LeaveContext` ends with; `left` tells whether there are peers.
pub data LeaveOutcome : Type 0 where
  err_shutdown err_no_local_node already_left : LeaveOutcome
  left : Bool → LeaveOutcome

unfoldable pub leave_context : Config → Env → Memberlist → Memberlist × LeaveOutcome
leave_context cfg env m =
    if m.shutdown
    then (m, err_shutdown)
    else if m.leave
    then (m, already_left)
    else elim (lookup cfg.name m.node_map) [
      | none ↦ (m, err_no_local_node)
      | some s ↦
          let d : DeadMsg = record { incarnation = s.incarnation; node = s.name; from = s.name } in
          let m1 = dead_node_locked cfg env d true (record m { leave = true }) in
          (m1, left (any_alive cfg m1))
    ]

-- What the critical section of `UpdateNodeContext` ends with; `updated` tells whether there are peers.
pub data UpdateOutcome : Type 0 where
  update_shut_down update_left update_no_local_node : UpdateOutcome
  updated : Bool → UpdateOutcome

-- `meta` comes from the delegate, `vsn` from `BuildVsnArray`.
unfoldable pub update_node : Config → Env → Bytes → Bytes → Memberlist → Memberlist × UpdateOutcome
unfolding any_alive
update_node cfg env meta vsn m =
    if m.shutdown
    then (m, update_shut_down)
    else if m.leave
    then (m, update_left)
    else elim (lookup cfg.name m.node_map) [
      | none ↦ (m, update_no_local_node)
      | some s ↦
          let (m1, inc) = next_incarnation m in
          let a : AliveMsg = record {
            incarnation = inc;
            node = cfg.name;
            addr = s.addr;
            port = s.port;
            meta = meta;
            vsn = vsn;
          } in
          let m2 = alive_node_locked cfg env a caller_notify true true m1 in
          (m2, updated (any_alive cfg m2))
    ]

-- What a probe, or a failed one, does to the health score: `m.awareness.ApplyDelta(delta)`.
unfoldable pub adjust_health : ℤ → Memberlist → Memberlist
unfolding apply_delta
adjust_health delta m = record m { awareness = apply_delta delta m.awareness }

-- The test of `moveDeadNodes` on a node of the list.
unfoldable pub is_reapable : Config → Env → List (Bytes × NodeState) → Bytes → Bool
is_reapable cfg env nm k = elim (lookup k nm) [
  | none ↦ false
  | some s ↦
      dead_or_left s.state && ltb_ℤ cfg.gossip_to_the_dead_time (since s.state_change env.now)
]

unfoldable pub remove_all : List Bytes → List (Bytes × NodeState) → List (Bytes × NodeState)
remove_all [] nm = nm
remove_all (k ∷ ks) nm = remove_all ks (remove k nm)

unfoldable pub reset_nodes : Config → Env → (ℕ → ℕ) → Memberlist → Memberlist
unfolding is_reapable remove_all
reset_nodes cfg env draws m =
    let (nodes, dead_idx) = move_dead_nodes (is_reapable cfg env m.node_map) m.nodes in
    record m {
      node_map = remove_all (drop dead_idx nodes) m.node_map;
      nodes = shuffle_nodes draws (take dead_idx nodes);
      num_nodes = dead_idx % 2 ^ 32;
    }

-- `Shutdown` sets the flag; `finishShutdown` seals the events and clears the suspicion timers.
unfoldable pub shutdown : Memberlist → Memberlist
shutdown m = record m { shutdown = true }

unfoldable pub finish_shutdown : Memberlist → Memberlist
finish_shutdown m = record m { events_sealed = true; node_timers = [] }
