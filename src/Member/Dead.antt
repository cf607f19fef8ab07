-- ===== src/Member/Dead.antt =====
-- `deadNodeLocked` and `deadNode` of state.go.
use mori.Prelude.{Bool, false, not, none, some}
use mori.Prelude.{ltb, if◌then◌else◌}
use mori.Prelude.{same}
use mori.Prelude.Assoc.{lookup}
use mori.Member.Types.{state_dead, state_left, NodeState, node_of, dead_or_left}
use mori.Member.Types.{
  DeadMsg, dead_msg, Notify, no_notify, leave_broadcast, event_leave, Config, Env, Memberlist,
}
use mori.Member.Nodes.{put_state, clear_timer, queue_broadcast, enqueue_event, refute}

-- A node that announces its own death has left.
unfoldable pub mark_dead : Env → DeadMsg → NodeState → NodeState
mark_dead env d s = record s {
  incarnation = d.incarnation;
  state = if same d.node d.from then state_left else state_dead;
  state_change = env.now;
}

unfoldable pub commit_dead :
    Config → Env → DeadMsg → Notify → Bool → NodeState → Memberlist → Memberlist
unfolding mark_dead
commit_dead cfg env d notify receipt s m =
    let m1 = queue_broadcast d.node (dead_msg d) notify m in
    let s' = mark_dead env d s in
    let m2 = put_state d.node s' m1 in
    if cfg.has_event_delegate then enqueue_event event_leave (node_of s') none receipt m2 else m2

unfoldable pub dead_node_locked : Config → Env → DeadMsg → Bool → Memberlist → Memberlist
dead_node_locked cfg env d receipt m = elim (lookup d.node m.node_map) [
  | none ↦ m
  | some s ↦
      if ltb d.incarnation s.incarnation
      then m
      else let m1 = clear_timer d.node m in
        if dead_or_left s.state
        then m1
        else if same s.name cfg.name
        then (if not m.leave
            then refute cfg d.node s d.incarnation m1
            else commit_dead cfg env d leave_broadcast receipt s m1)
        else commit_dead cfg env d no_notify receipt s m1
]

unfoldable pub dead_node : Config → Env → DeadMsg → Memberlist → Memberlist
dead_node cfg env d m = if m.shutdown then m else dead_node_locked cfg env d false m
