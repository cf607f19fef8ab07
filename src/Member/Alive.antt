-- ===== src/Member/Alive.antt =====
-- `aliveNodeLocked` and `aliveNode` of state.go, in three parts: the checks before the lookup, the
-- lookup with registration or the address check, and what is done to the state.
use mori.Prelude.{◌+◌, ◌%◌, ◌^◌}
use mori.Prelude.{Bool, true, false, not, ◌&&◌, ◌||◌, Option, none, some}
use mori.Prelude.{[], ◌∷◌, ◌++◌, ltb, leb, ◌==◌, if◌then◌else◌}
use mori.Prelude.{length}
use mori.Prelude.{Bytes, same}
use mori.Prelude.Int.{pos, ltb_ℤ, since}
use mori.Prelude.Assoc.{lookup}
use mori.Prelude.Totals.{swap}
use mori.Member.Types.{
  NodeStateType, state_alive, state_dead, state_left, Versions, zero_versions, same_versions,
  parse_vsn, Node, NodeState, node_of, dead_or_left,
}
use mori.Member.Types.{
  AliveMsg, alive_msg, Notify, no_notify, event_join, event_update, event_conflict, Config, Env,
  Memberlist,
}
use mori.Member.Nodes.{
  put_state, clear_timer, ip_equal, ip_allowed, random_offset, queue_broadcast, enqueue_event,
  refute,
}

unfoldable pub has_vsn : AliveMsg → Bool
has_vsn a = ltb 0 (length a.vsn)

-- `pMin == 0 || pMax == 0 || pMin > pMax`
unfoldable pub bad_versions : Versions → Bool
bad_versions v = v.pmin == 0 || v.pmax == 0 || ltb v.pmax v.pmin

-- What the alive delegate is shown. `State` is left at its zero value.
unfoldable pub claimed_node : AliveMsg → Versions → Node
claimed_node a v = record {
  name = a.node;
  addr = a.addr;
  port = a.port;
  meta = a.meta;
  state = state_alive;
  vsn = v;
}

unfoldable pub delegate_accepts : Option (Node → Bool) → AliveMsg → Versions → Bool → Bool
unfolding has_vsn claimed_node
delegate_accepts none a v bootstrap = true
delegate_accepts (some notify_alive) a v true = true
delegate_accepts (some notify_alive) a v false =
    if not (has_vsn a) then false else notify_alive (claimed_node a v)

-- The returns before the lookup give `none`; otherwise the version vector is parsed.
unfoldable pub check_alive : Config → AliveMsg → Bool → Memberlist → Option Versions
unfolding has_vsn bad_versions
check_alive cfg a bootstrap m =
    if m.leave && same a.node cfg.name then none else elim (parse_vsn a.vsn) [
      | none ↦ none
      | some v ↦
          if has_vsn a && bad_versions v
          then none
          else if delegate_accepts cfg.alive_delegate a v bootstrap
          then some v
          else none
    ]

-- The result of the lookup: return with this memberlist, or go on with the node's state and
-- `updatesNode`.
pub data Admission : Type 0 where
  refused : Memberlist → Admission
  admitted : Memberlist → NodeState → Bool → Admission

unfoldable pub new_state : AliveMsg → Versions → NodeState
unfolding has_vsn
new_state a v = record {
  name = a.node;
  addr = a.addr;
  port = a.port;
  meta = a.meta;
  state = state_dead;
  vsn = if has_vsn a then v else zero_versions;
  incarnation = 0;
  state_change = pos 0;
}

-- Append to `nodes` and swap with a random place.
unfoldable pub add_node : Env → Bytes → NodeState → Memberlist → Memberlist
add_node env name s m =
    let n = length m.nodes in
    let m1 = put_state name s m in
    record m1 {
      nodes = swap (random_offset n env.rand) n (m.nodes ++ (name ∷ []));
      num_nodes = (m.num_nodes + 1) % 2 ^ 32;
    }

unfoldable pub admit_new : Config → Env → AliveMsg → Versions → Memberlist → Admission
unfolding new_state
admit_new cfg env a v m =
    if not (ip_allowed cfg a.addr)
    then refused m
    else let s = new_state a v in admitted (add_node env a.node s m) s false

unfoldable pub same_address : NodeState → AliveMsg → Bool
same_address s a = ip_equal s.addr a.addr && s.port == a.port

unfoldable pub can_reclaim : Config → Env → NodeState → Bool
can_reclaim cfg env s =
    ltb_ℤ (pos 0) cfg.dead_node_reclaim_time
    && ltb_ℤ cfg.dead_node_reclaim_time (since s.state_change env.now)

unfoldable pub is_left : NodeStateType → Bool
is_left state_left = true
is_left _ = false

unfoldable pub is_dead : NodeStateType → Bool
is_dead state_dead = true
is_dead _ = false

-- A conflicting claim is reported with the node's own state and the claimant's address.
unfoldable pub report_conflict : Config → NodeState → AliveMsg → Memberlist → Memberlist
unfolding claimed_node
report_conflict cfg s a m =
    if cfg.has_conflict_delegate
    then enqueue_event event_conflict (node_of s) (some (claimed_node a zero_versions)) false m
    else m

unfoldable pub admit_known : Config → Env → AliveMsg → NodeState → Memberlist → Admission
unfolding same_address can_reclaim is_left is_dead
admit_known cfg env a s m =
    if same_address s a
    then admitted m s false
    else if not (ip_allowed cfg a.addr)
    then refused m
    else if is_left s.state || (is_dead s.state && can_reclaim cfg env s)
    then admitted m s true
    else refused (report_conflict cfg s a m)

unfoldable pub admit : Config → Env → AliveMsg → Versions → Memberlist → Admission
admit cfg env a v m = elim (lookup a.node m.node_map) [
  | none ↦ admit_new cfg env a v m
  | some s ↦ admit_known cfg env a s m
]

unfoldable pub is_alive : NodeStateType → Bool
is_alive state_alive = true
is_alive _ = false

-- The state after an alive message that is not refuted.
unfoldable pub accept_alive : Env → AliveMsg → Versions → NodeState → NodeState
unfolding has_vsn is_alive
accept_alive env a v s =
    let s1 = record s {
      vsn = if has_vsn a then v else s.vsn;
      incarnation = a.incarnation;
      meta = a.meta;
      addr = a.addr;
      port = a.port;
    } in
    if is_alive s1.state then s1 else record s1 { state = state_alive; state_change = env.now }

unfoldable pub notify_alive_event : Config → NodeState → NodeState → Bool → Memberlist → Memberlist
notify_alive_event cfg old s receipt m =
    if not cfg.has_event_delegate
    then m
    else if dead_or_left old.state
    then enqueue_event event_join (node_of s) none receipt m
    else if not (same old.meta s.meta)
    then enqueue_event event_update (node_of s) none receipt m
    else m

-- The message repeats what the local node says of itself.
unfoldable pub agrees_with_us : AliveMsg → Versions → NodeState → Bool
unfolding has_vsn
agrees_with_us a v s =
    a.incarnation == s.incarnation && same a.meta s.meta && has_vsn a && same_versions v s.vsn

unfoldable pub commit_alive :
    Config
    → Env
    → AliveMsg
    → Versions
    → Notify
    → Bool
    → Bool
    → NodeState
    → Bool
    → Memberlist
    → Memberlist
commit_alive cfg env a v notify bootstrap receipt s updates m =
    let is_local = same s.name cfg.name in
    if leb a.incarnation s.incarnation && not is_local && not updates
    then m
    else if ltb a.incarnation s.incarnation && is_local
    then m
    else let m1 = clear_timer a.node m in
      if not bootstrap && is_local
      then (if agrees_with_us a v s
          then m1
          else notify_alive_event cfg s s receipt (refute cfg a.node s a.incarnation m1))
      else let s' = accept_alive env a v s in
        let m2 = queue_broadcast a.node (alive_msg a) notify m1 in
        notify_alive_event cfg s s' receipt (put_state a.node s' m2)

unfoldable pub alive_node_locked :
    Config → Env → AliveMsg → Notify → Bool → Bool → Memberlist → Memberlist
alive_node_locked cfg env a notify bootstrap receipt m = elim (check_alive cfg a bootstrap m) [
  | none ↦ m
  | some v ↦ elim (admit cfg env a v m) [
    | refused m' ↦ m'
    | admitted m' s updates ↦ commit_alive cfg env a v notify bootstrap receipt s updates m'
  ]
]

unfoldable pub alive_node : Config → Env → AliveMsg → Bool → Memberlist → Memberlist
alive_node cfg env a bootstrap m =
    if m.shutdown then m else alive_node_locked cfg env a no_notify bootstrap false m
