-- ===== src/Member/Invariant/AliveKeeps.antt =====
-- `aliveNode` of state.go and the invariant.
use mori.Prelude.{◌≡◌, refl}
use mori.Prelude.{◌≢◌, inl, inr, Bool, true, false, none, some}
use mori.Prelude.{arith}
use mori.Prelude.{Option-cases}
use mori.Prelude.{Bytes, same, same_refl, same_comm}
use mori.Prelude.Assoc.{lookup, lookup-insert}
use mori.Member.Types.{state_alive, state_suspect, Versions, NodeState}
use mori.Member.Types.{AliveMsg, alive_msg, Notify, no_notify, Config, Env, Memberlist}
use mori.Member.Nodes.{put_state, clear_timer, queue_broadcast, enqueue_event, refute}
use mori.Member.Alive.{
  check_alive, Admission, refused, admitted, new_state, add_node, admit_new, report_conflict,
  admit_known, admit, accept_alive, notify_alive_event, commit_alive, alive_node_locked, alive_node,
}
use mori.Member.Invariant.Defs.{Inv}
use mori.Member.Invariant.Shared.{
  SameTables, SameTables-Inv, clear_timer-Inv, settle-Inv, refute-Inv, add_node-Inv,
}

module _ (cfg : Config) where
  notify_alive_event-SameTables :
      (old s : NodeState) (r : Bool) (m : Memberlist)
      → SameTables m (notify_alive_event cfg old s r m)
  unfolding notify_alive_event enqueue_event
  notify_alive_event-SameTables old s r m = ground arith

  notify_alive_event-Inv :
      (old s : NodeState) (r : Bool) (m : Memberlist)
      → Inv cfg.name m
      → Inv cfg.name (notify_alive_event cfg old s r m)
  notify_alive_event-Inv old s r m =
      SameTables-Inv cfg.name (notify_alive_event-SameTables old s r m)

  accept_alive_facts :
      (env : Env) (a : AliveMsg) (v : Versions) (s : NodeState)
      → ((accept_alive env a v s).name ≡ s.name) × ((accept_alive env a v s).state ≡ state_alive)
  unfolding accept_alive
  accept_alive_facts env a v s = ground arith

  module _ (a : AliveMsg) (s : NodeState) (m : Memberlist)
      (known : lookup a.node m.node_map ≡ some s) (h : Inv cfg.name m) where
    name_lem : s.name ≡ a.node
    name_lem = ground (arith, h.fits a.node)

    not_suspect : same s.name cfg.name ≡ true → s.state ≢ state_suspect
    not_suspect l = ground (arith, h.fits a.node, name_lem, same_comm s.name cfg.name)

    accepted-Inv :
        (s' : NodeState) (channel : Notify)
        → s'.name ≡ s.name
        → s'.state ≢ state_suspect
        → Inv cfg.name (
            put_state a.node s'
              (queue_broadcast a.node (alive_msg a) channel (clear_timer a.node m)))
    unfolding put_state queue_broadcast clear_timer
    accepted-Inv s' channel n t =
        SameTables-Inv cfg.name {m = put_state a.node s' (clear_timer a.node m)} (ground arith)
          (settle-Inv cfg.name a.node s' m s known n t h)

    cleared-Inv : same s.name cfg.name ≡ true → Inv cfg.name (clear_timer a.node m)
    cleared-Inv l = clear_timer-Inv cfg.name a.node m known (not_suspect l) h

    cleared_known : lookup a.node (clear_timer a.node m).node_map ≡ some s
    unfolding clear_timer
    cleared_known = known

    refuted-Inv :
        (receipt : Bool)
        → same s.name cfg.name ≡ true
        → Inv cfg.name (
            notify_alive_event cfg s s receipt
              (refute cfg a.node s a.incarnation (clear_timer a.node m)))
    refuted-Inv receipt l =
        notify_alive_event-Inv s s receipt _
          (refute-Inv cfg a.node s a.incarnation _ cleared_known (cleared-Inv l))

    taken-Inv :
        (env : Env) (v : Versions) (channel : Notify) (receipt : Bool)
        → let s' = accept_alive env a v s in
          Inv cfg.name (
            notify_alive_event cfg s s' receipt (
              put_state a.node s'
                (queue_broadcast a.node (alive_msg a) channel (clear_timer a.node m))))
    taken-Inv env v channel receipt =
        let facts = accept_alive_facts env a v s in
        notify_alive_event-Inv s (accept_alive env a v s) receipt _
          (accepted-Inv (accept_alive env a v s) channel facts.0 (λ e. cc (facts.1)))

    pub commit_alive-Inv :
        (env : Env) (v : Versions) (channel : Notify) (bootstrap receipt updates : Bool)
        → Inv cfg.name (commit_alive cfg env a v channel bootstrap receipt s updates m)
    unfolding commit_alive
    commit_alive-Inv env v channel bootstrap receipt updates =
        ground (arith, h, cleared-Inv, refuted-Inv receipt, taken-Inv env v channel receipt)

  -- What `admit` promises: the invariant, and that the state it hands on is the registered one.
  abbrev Admitted : AliveMsg → Admission → Type 0
  Admitted a (refused m) = Inv cfg.name m
  Admitted a (admitted m s updates) = (lookup a.node m.node_map ≡ some s) × Inv cfg.name m

  add_node-known :
      (env : Env) (name : Bytes) (s : NodeState) (m : Memberlist)
      → lookup name (add_node env name s m).node_map ≡ some s
  unfolding add_node put_state
  add_node-known env name s m = rw (lookup-insert name name s m.node_map, same_refl name)

  report_conflict-SameTables :
      (s : NodeState) (a : AliveMsg) (m : Memberlist) → SameTables m (report_conflict cfg s a m)
  unfolding report_conflict enqueue_event
  report_conflict-SameTables s a m = ground arith

  admit_known-Inv :
      (env : Env) (a : AliveMsg) (s : NodeState) (m : Memberlist)
      → lookup a.node m.node_map ≡ some s
      → Inv cfg.name m
      → Admitted a (admit_known cfg env a s m)
  unfolding admit_known
  admit_known-Inv env a s m known h =
      ground (arith, SameTables-Inv cfg.name (report_conflict-SameTables s a m) h)

  admit_new-Inv :
      (env : Env) (a : AliveMsg) (v : Versions) (m : Memberlist)
      → lookup a.node m.node_map ≡ none
      → Inv cfg.name m
      → Admitted a (admit_new cfg env a v m)
  unfolding admit_new
  admit_new-Inv env a v m unknown h = ground (
    arith,
    add_node-known env a.node (new_state a v) m,
    add_node-Inv cfg.name env a.node (new_state a v) m unknown refl (λ e. cc) h,
  )

  admit-Inv :
      (env : Env) (a : AliveMsg) (v : Versions) (m : Memberlist)
      → Inv cfg.name m
      → Admitted a (admit cfg env a v m)
  unfolding admit
  admit-Inv env a v m h = elim (Option-cases (lookup a.node m.node_map)) [
    | inl e ↦ rw (e, admit) (admit_new-Inv env a v m e h)
    | inr (s, e) ↦ rw (e, admit) (admit_known-Inv env a s m e h)
  ]

  after_admission :
      (env : Env) (a : AliveMsg) (v : Versions) (channel : Notify) (bootstrap receipt : Bool)
      (r : Admission)
      → Admitted a r
      → Inv cfg.name (elim r [
        | refused m' ↦ m'
        | admitted m' s updates ↦ commit_alive cfg env a v channel bootstrap receipt s updates m'
      ])
  after_admission env a v channel bootstrap receipt (refused m) h = h
  after_admission env a v channel bootstrap receipt (admitted m s updates) (known, h) =
      commit_alive-Inv a s m known h env v channel bootstrap receipt updates

  pub alive_node_locked-Inv :
      (env : Env) (a : AliveMsg) (channel : Notify) (bootstrap receipt : Bool) (m : Memberlist)
      → Inv cfg.name m
      → Inv cfg.name (alive_node_locked cfg env a channel bootstrap receipt m)
  unfolding alive_node_locked
  alive_node_locked-Inv env a channel bootstrap receipt m h =
      elim (Option-cases (check_alive cfg a bootstrap m)) [
        | inl e ↦ rw (e, alive_node_locked) h
        | inr (v, e) ↦
            rw (e, alive_node_locked)
              (after_admission env a v channel bootstrap receipt _ (admit-Inv env a v m h))
      ]

  -- An alive message keeps the invariant, whatever it claims and however it ends.
  pub alive_node-Inv :
      (env : Env) (a : AliveMsg) (bootstrap : Bool) (m : Memberlist)
      → Inv cfg.name m
      → Inv cfg.name (alive_node cfg env a bootstrap m)
  unfolding alive_node
  alive_node-Inv env a bootstrap m h =
      ground (arith, alive_node_locked-Inv env a no_notify bootstrap false m h)
