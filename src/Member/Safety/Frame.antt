-- ===== src/Member/Safety/Frame.antt =====
-- The flags that no message changes: whether the local node has left, and whether it is shut down.
use mori.Prelude.{ℕ, ◌≡◌, refl, ◌∙◌}
use mori.Prelude.{inl, inr, Bool, false, Option, none, some}
use mori.Prelude.{arith}
use mori.Prelude.{Option-cases}
use mori.Prelude.{Bytes}
use mori.Prelude.Int.{ℤ}
use mori.Prelude.Assoc.{lookup}
use mori.Suspicion.{Suspicion}
use mori.Member.Types.{
  NodeStateType, state_alive, state_suspect, state_dead, state_left, node_state_type, Versions,
  NodeState,
}
use mori.Member.Types.{
  AliveMsg, SuspectMsg, DeadMsg, PushNodeState, alive_msg, Notify, no_notify, leave_broadcast,
  Config, Env, Memberlist,
}
use mori.Member.Nodes.{put_state, clear_timer, queue_broadcast, enqueue_event, refute}
use mori.Member.Alive.{
  check_alive, Admission, refused, admitted, add_node, admit_new, report_conflict, admit_known,
  admit, accept_alive, notify_alive_event, commit_alive, alive_node_locked, alive_node,
}
use mori.Member.Dead.{commit_dead, dead_node_locked, dead_node}
use mori.Member.Suspect.{confirm_timer, start_suspicion, suspect_node, suspicion_expired}
use mori.Member.Merge.{merge_entry}

abbrev pub SameFlags : Memberlist → Memberlist → Type 0
SameFlags m m' = (m'.leave ≡ m.leave) × (m'.shutdown ≡ m.shutdown)

module _ (cfg : Config) (env : Env) where
  refute-flags :
      (key : Bytes) (s : NodeState) (accused : ℕ) (m : Memberlist)
      → SameFlags m (refute cfg key s accused m)
  unfolding refute
  refute-flags key s accused m = ground arith

  commit_dead-flags :
      (d : DeadMsg) (channel : Notify) (r : Bool) (s : NodeState) (m : Memberlist)
      → SameFlags m (commit_dead cfg env d channel r s m)
  unfolding commit_dead put_state queue_broadcast enqueue_event
  commit_dead-flags d channel r s m = ground arith

  pub dead_node_locked-flags :
      (d : DeadMsg) (r : Bool) (m : Memberlist) → SameFlags m (dead_node_locked cfg env d r m)
  unfolding dead_node_locked clear_timer
  dead_node_locked-flags d r m = elim (Option-cases (lookup d.node m.node_map)) [
    | inl e ↦ rw (e, dead_node_locked) (refl, refl)
    | inr (s, e) ↦
        let m1 = clear_timer d.node m in
        rw (e, dead_node_locked)
          (ground (
            arith,
            refute-flags d.node s d.incarnation m1,
            commit_dead-flags d leave_broadcast r s m1,
            commit_dead-flags d no_notify r s m1,
          ))
  ]

  pub dead_node-flags : (d : DeadMsg) (m : Memberlist) → SameFlags m (dead_node cfg env d m)
  unfolding dead_node
  dead_node-flags d m = ground (arith, dead_node_locked-flags d false m)

  notify-flags :
      (old s : NodeState) (r : Bool) (m : Memberlist)
      → SameFlags m (notify_alive_event cfg old s r m)
  unfolding notify_alive_event enqueue_event
  notify-flags old s r m = ground arith

  commit_alive-flags :
      (a : AliveMsg) (v : Versions) (channel : Notify) (bootstrap r updates : Bool) (s : NodeState)
      (m : Memberlist)
      → SameFlags m (commit_alive cfg env a v channel bootstrap r s updates m)
  unfolding commit_alive clear_timer queue_broadcast put_state
  commit_alive-flags a v channel bootstrap r updates s m =
      let m1 = clear_timer a.node m in
      let s' = accept_alive env a v s in
      let m2 = put_state a.node s' (queue_broadcast a.node (alive_msg a) channel m1) in
      ground (
        arith,
        notify-flags s s r (refute cfg a.node s a.incarnation m1),
        refute-flags a.node s a.incarnation m1,
        notify-flags s s' r m2,
      )

  abbrev AdmittedFlags : Memberlist → Admission → Type 0
  AdmittedFlags m (refused m') = SameFlags m m'
  AdmittedFlags m (admitted m' s u) = SameFlags m m'

  admit-flags :
      (a : AliveMsg) (v : Versions) (m : Memberlist) → AdmittedFlags m (admit cfg env a v m)
  unfolding admit admit_new admit_known add_node report_conflict put_state enqueue_event
  admit-flags a v m = ground arith

  after_flags :
      (a : AliveMsg) (v : Versions) (channel : Notify) (bootstrap r : Bool) (m : Memberlist)
      (x : Admission)
      → AdmittedFlags m x
      → SameFlags m (elim x [
        | refused m' ↦ m'
        | admitted m' s updates ↦ commit_alive cfg env a v channel bootstrap r s updates m'
      ])
  after_flags a v channel bootstrap r m (refused m') f = f
  after_flags a v channel bootstrap r m (admitted m' s u) f =
      let g = commit_alive-flags a v channel bootstrap r u s m' in (g.0 ∙ f.0, g.1 ∙ f.1)

  pub alive_node_locked-flags :
      (a : AliveMsg) (channel : Notify) (bootstrap r : Bool) (m : Memberlist)
      → SameFlags m (alive_node_locked cfg env a channel bootstrap r m)
  unfolding alive_node_locked
  alive_node_locked-flags a channel bootstrap r m =
      elim (Option-cases (check_alive cfg a bootstrap m)) [
        | inl e ↦ rw (e, alive_node_locked) (refl, refl)
        | inr (v, e) ↦
            rw (e, alive_node_locked) (after_flags a v channel bootstrap r m _ (admit-flags a v m))
      ]

  pub alive_node-flags :
      (a : AliveMsg) (bootstrap : Bool) (m : Memberlist)
      → SameFlags m (alive_node cfg env a bootstrap m)
  unfolding alive_node
  alive_node-flags a bootstrap m =
      ground (arith, alive_node_locked-flags a no_notify bootstrap false m)

  confirm_timer-flags :
      (s : SuspectMsg) (timer : Suspicion) (m : Memberlist)
      → SameFlags m (confirm_timer cfg env s timer m)
  unfolding confirm_timer queue_broadcast
  confirm_timer-flags s timer m = ground arith

  start_suspicion-flags :
      (s : SuspectMsg) (state : NodeState) (m : Memberlist)
      → SameFlags m (start_suspicion cfg env s state m)
  unfolding start_suspicion queue_broadcast put_state
  start_suspicion-flags s state m = (refl, refl)

  pub suspect_node-flags :
      (s : SuspectMsg) (m : Memberlist) → SameFlags m (suspect_node cfg env s m)
  unfolding suspect_node
  suspect_node-flags s m = elim (Option-cases (lookup s.node m.node_map)) [
    | inl e ↦ rw (e, suspect_node) (ground arith)
    | inr (state, e) ↦ elim (Option-cases (lookup s.node m.node_timers)) [
      | inl f ↦
          rw (e, f, suspect_node)
            (ground
              (arith, refute-flags s.node state s.incarnation m, start_suspicion-flags s state m))
      | inr (timer, f) ↦ rw (e, f, suspect_node) (ground (arith, confirm_timer-flags s timer m))
    ]
  ]

  pub suspicion_expired-flags :
      (node : Bytes) (t : ℤ) (m : Memberlist) → SameFlags m (suspicion_expired cfg env node t m)
  unfolding suspicion_expired
  suspicion_expired-flags node t m = elim (Option-cases (lookup node m.node_map)) [
    | inl e ↦ rw (e, suspicion_expired) (ground arith)
    | inr (s, e) ↦
        let d : DeadMsg = record { incarnation = s.incarnation; node = s.name; from = cfg.name } in
        rw (e, suspicion_expired) (ground (arith, dead_node_locked-flags d false m))
  ]

  pub merge_entry-flags :
      (r : PushNodeState) (m : Memberlist) → SameFlags m (merge_entry cfg env r m)
  unfolding merge_entry
  merge_entry-flags r m = go (node_state_type r.state) refl
    where
      go :
          (t : Option NodeStateType)
          → node_state_type r.state ≡ t
          → SameFlags m (merge_entry cfg env r m)
      go none e = rw (e, merge_entry) (refl, refl)
      go (some state_alive) e = rw (e, merge_entry) (alive_node-flags _ false m)
      go (some state_suspect) e = rw (e, merge_entry) (suspect_node-flags _ m)
      go (some state_dead) e = rw (e, merge_entry) (suspect_node-flags _ m)
      go (some state_left) e = rw (e, merge_entry) (dead_node-flags _ m)
