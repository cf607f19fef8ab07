-- ===== src/Member/Invariant/DeadKeeps.antt =====
-- `deadNode` of state.go and the invariant.
use mori.Prelude.{◌≡◌, refl}
use mori.Prelude.{◌≢◌, inl, inr, Bool, true, false, not, some}
use mori.Prelude.{arith, ltb, if◌then◌else◌}
use mori.Prelude.{Option-cases}
use mori.Prelude.{same, same_comm}
use mori.Prelude.Assoc.{lookup}
use mori.Member.Types.{state_suspect, NodeState, dead_or_left}
use mori.Member.Types.{DeadMsg, Notify, no_notify, leave_broadcast, Config, Env, Memberlist}
use mori.Member.Nodes.{put_state, clear_timer, queue_broadcast, enqueue_event, refute}
use mori.Member.Dead.{mark_dead, commit_dead, dead_node_locked, dead_node}
use mori.Member.Invariant.Defs.{Inv}
use mori.Member.Invariant.Shared.{
  SameTables, SameTables-Inv, clear_timer-Inv, settle-Inv, refute-Inv,
}

module _ (cfg : Config) (d : DeadMsg) (s : NodeState) (m : Memberlist)
    (known : lookup d.node m.node_map ≡ some s) (h : Inv cfg.name m) where
  commit-SameTables :
      (env : Env) (channel : Notify) (receipt : Bool)
      → SameTables
          (put_state d.node (mark_dead env d s) (clear_timer d.node m))
          (commit_dead cfg env d channel receipt s (clear_timer d.node m))
  unfolding commit_dead put_state clear_timer queue_broadcast enqueue_event
  commit-SameTables env channel receipt = ground arith

  mark_dead_facts :
      (env : Env)
      → ((mark_dead env d s).name ≡ s.name) × ((mark_dead env d s).state ≢ state_suspect)
  unfolding mark_dead
  mark_dead_facts env = (refl, ground arith)

  committed-Inv :
      (env : Env) (channel : Notify) (receipt : Bool)
      → Inv cfg.name (commit_dead cfg env d channel receipt s (clear_timer d.node m))
  committed-Inv env channel receipt =
      let facts = mark_dead_facts env in
      SameTables-Inv cfg.name (commit-SameTables env channel receipt)
        (settle-Inv cfg.name d.node (mark_dead env d s) m s known facts.0 facts.1 h)

  still_dead-Inv : dead_or_left s.state ≡ true → Inv cfg.name (clear_timer d.node m)
  still_dead-Inv e = clear_timer-Inv cfg.name d.node m known (unfold dead_or_left in ground arith) h

  accused-Inv :
      same s.name cfg.name ≡ true
      → Inv cfg.name (refute cfg d.node s d.incarnation (clear_timer d.node m))
  accused-Inv l = refute-Inv cfg d.node s d.incarnation _ (unfold clear_timer in known) (
      clear_timer-Inv cfg.name d.node m known
        (ground (arith, h.fits d.node, same_comm s.name cfg.name)) h)

  pub dead_known-Inv :
      (env : Env) (receipt : Bool)
      → Inv cfg.name (
          if ltb d.incarnation s.incarnation
          then m
          else let m1 = clear_timer d.node m in
            if dead_or_left s.state
            then m1
            else if same s.name cfg.name
            then (if not m.leave
                then refute cfg d.node s d.incarnation m1
                else commit_dead cfg env d leave_broadcast receipt s m1)
            else commit_dead cfg env d no_notify receipt s m1)
  dead_known-Inv env receipt = ground (
    arith,
    h,
    still_dead-Inv,
    accused-Inv,
    committed-Inv env leave_broadcast receipt,
    committed-Inv env no_notify receipt,
  )

pub dead_node_locked-Inv :
    (cfg : Config) (env : Env) (d : DeadMsg) (receipt : Bool) (m : Memberlist)
    → Inv cfg.name m
    → Inv cfg.name (dead_node_locked cfg env d receipt m)
unfolding dead_node_locked
dead_node_locked-Inv cfg env d receipt m h = elim (Option-cases (lookup d.node m.node_map)) [
  | inl e ↦ rw (e, dead_node_locked) h
  | inr (s, e) ↦ rw (e, dead_node_locked) (dead_known-Inv cfg d s m e h env receipt)
]

-- A dead message keeps the invariant.
pub dead_node-Inv :
    (cfg : Config) (env : Env) (d : DeadMsg) (m : Memberlist)
    → Inv cfg.name m
    → Inv cfg.name (dead_node cfg env d m)
unfolding dead_node
dead_node-Inv cfg env d m h = ground (arith, dead_node_locked-Inv cfg env d false m h)
