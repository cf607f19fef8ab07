-- ===== src/Member/Effects/Edges.antt =====
-- The transition diagram of a node's state, and the messages on it (state.go).
mod Diagram
unfoldable pub use Diagram.*
use mori.Prelude.{ℕ, ◌≡◌, refl, sym, subst}
use mori.Prelude.{inl, inr, Bool, true, false, not, ◌&&◌, Option, none, some}
use mori.Prelude.{List, arith, ltb}
use mori.Prelude.{Option-cases, on_if}
use mori.Prelude.{Bytes, same, same-cases}
use mori.Prelude.Int.{ℤ}
use mori.Prelude.Assoc.{lookup, insert, lookup-insert}
use mori.Suspicion.{Suspicion}
use mori.Member.Types.{
  NodeStateType, state_alive, state_suspect, state_dead, state_left, Versions, NodeState,
  dead_or_left,
}
use mori.Member.Types.{
  AliveMsg, SuspectMsg, DeadMsg, Notify, no_notify, leave_broadcast, Config, Env, Memberlist,
}
use mori.Member.Nodes.{
  put_state, clear_timer, queue_broadcast, enqueue_event, refute_incarnation, refute,
}
use mori.Member.Alive.{new_state, alive_node_locked, alive_node}
use mori.Member.Dead.{mark_dead, commit_dead, dead_node_locked, dead_node}
use mori.Member.Suspect.{
  confirm_timer, mark_suspect, start_suspicion, is_alive_state, suspect_node, is_suspect, same_time,
  suspicion_expired,
}
use mori.Member.Effects.AliveEffect.{
  Change, unchanged, refuted, accepted, Outcome, on_known, on_new, alive_node_locked-Outcome,
}

abbrev pub NodeMap : Type 0
NodeMap = List (Bytes × NodeState)

-- Every entry of the one table follows an edge to that of the other.
abbrev pub Follows : NodeMap → NodeMap → Type 0
Follows nm nm' = (k : Bytes) → edge (state_of (lookup k nm)) (state_of (lookup k nm')) ≡ true

abbrev pub Moves : Memberlist → Memberlist → Type 0
Moves m m' = Follows m.node_map m'.node_map

kept-Follows : (nm : NodeMap) → Follows nm nm
kept-Follows nm k = edge_refl (state_of (lookup k nm))

put-Follows :
    (nm : NodeMap) (key : Bytes) (old s' : NodeState)
    → lookup key nm ≡ some old
    → edge (some old.state) (some s'.state) ≡ true
    → Follows nm (insert key s' nm)
put-Follows nm key old s' known step k = rw (lookup-insert key k s' nm) (elim (same-cases key k) [
  | inl (t, p) ↦ rw (t, ← p, known) step
  | inr (t, p) ↦ rw t (edge_refl (state_of (lookup k nm)))
])

module _ (cfg : Config) (env : Env) where
  alive_node-Follows :
      (a : AliveMsg) (bootstrap : Bool) (m : Memberlist)
      → Follows m.node_map (alive_node cfg env a bootstrap m).node_map
  unfolding alive_node
  alive_node-Follows a bootstrap m =
      on_if (Moves m) m.shutdown (λ p. kept-Follows m.node_map)
        (λ p. alive_node_locked-edge cfg env a no_notify bootstrap false m)

  pub refute-map :
      (key : Bytes) (s : NodeState) (accused : ℕ) (m : Memberlist)
      → (refute cfg key s accused m).node_map
        ≡ insert key (record s { incarnation = (refute_incarnation accused m).1 }) m.node_map
  unfolding refute
  refute-map key s accused m = ground arith

  refute-Follows :
      (key : Bytes) (s : NodeState) (accused : ℕ) (m : Memberlist)
      → lookup key m.node_map ≡ some s
      → Follows m.node_map (refute cfg key s accused m).node_map
  refute-Follows key s accused m known =
      subst (Follows m.node_map) (sym (refute-map key s accused m)) (
        put-Follows m.node_map key s (record s { incarnation = (refute_incarnation accused m).1 })
          known (edge_refl (some s.state)))

  pub commit_dead-map :
      (d : DeadMsg) (channel : Notify) (r : Bool) (s : NodeState) (m : Memberlist)
      → (commit_dead cfg env d channel r s m).node_map
        ≡ insert d.node (mark_dead env d s) m.node_map
  unfolding commit_dead put_state queue_broadcast enqueue_event
  commit_dead-map d channel r s m = ground arith

  mark_dead-edge :
      (d : DeadMsg) (s : NodeState)
      → dead_or_left s.state ≡ false
      → edge (some s.state) (some (mark_dead env d s).state) ≡ true
  unfolding edge mark_dead dead_or_left
  mark_dead-edge d s live = ground arith

  commit_dead-Follows :
      (d : DeadMsg) (channel : Notify) (r : Bool) (s : NodeState) (m : Memberlist)
      → lookup d.node m.node_map ≡ some s
      → dead_or_left s.state ≡ false
      → Follows m.node_map (commit_dead cfg env d channel r s m).node_map
  commit_dead-Follows d channel r s m known live =
      subst (Follows m.node_map) (sym (commit_dead-map d channel r s m))
        (put-Follows m.node_map d.node s (mark_dead env d s) known (mark_dead-edge d s live))

  pub dead_node_locked-Follows :
      (d : DeadMsg) (receipt : Bool) (m : Memberlist)
      → Follows m.node_map (dead_node_locked cfg env d receipt m).node_map
  unfolding dead_node_locked clear_timer
  dead_node_locked-Follows d receipt m = elim (Option-cases (lookup d.node m.node_map)) [
    | inl e ↦ rw (e, dead_node_locked) (kept-Follows m.node_map)
    | inr (s, e) ↦
        let m1 = clear_timer d.node m in
        rw (e, dead_node_locked)
          (on_if (Moves m) (ltb d.incarnation s.incarnation) (λ old. kept-Follows m.node_map)
            (λ new.
              on_if (Moves m) (dead_or_left s.state) (λ p. kept-Follows m.node_map)
                (λ live.
                  on_if (Moves m) (same s.name cfg.name)
                    (λ ours.
                      on_if (Moves m) (not m.leave)
                        (λ stays. refute-Follows d.node s d.incarnation m1 e)
                        (λ leaves. commit_dead-Follows d leave_broadcast receipt s m1 e live))
                    (λ theirs. commit_dead-Follows d no_notify receipt s m1 e live))))
  ]

  dead_node-Follows :
      (d : DeadMsg) (m : Memberlist) → Follows m.node_map (dead_node cfg env d m).node_map
  unfolding dead_node
  dead_node-Follows d m =
      on_if (Moves m) m.shutdown (λ p. kept-Follows m.node_map)
        (λ p. dead_node_locked-Follows d false m)

  pub confirm_timer-map :
      (s : SuspectMsg) (timer : Suspicion) (m : Memberlist)
      → (confirm_timer cfg env s timer m).node_map ≡ m.node_map
  unfolding confirm_timer queue_broadcast
  confirm_timer-map s timer m = ground arith

  start_suspicion-Follows :
      (s : SuspectMsg) (state : NodeState) (m : Memberlist)
      → lookup s.node m.node_map ≡ some state
      → is_alive_state state.state ≡ true
      → Follows m.node_map (start_suspicion cfg env s state m).node_map
  unfolding start_suspicion put_state queue_broadcast
  start_suspicion-Follows s state m known alive =
      put-Follows m.node_map s.node state (mark_suspect env s state) known
        (unfold edge mark_suspect is_alive_state in ground arith)

  suspect_node-Follows :
      (s : SuspectMsg) (m : Memberlist) → Follows m.node_map (suspect_node cfg env s m).node_map
  unfolding suspect_node
  suspect_node-Follows s m = elim (Option-cases (lookup s.node m.node_map)) [
    | inl e ↦
        rw (e, suspect_node)
          (on_if (Moves m) m.shutdown (λ p. kept-Follows m.node_map) (λ p. kept-Follows m.node_map))
    | inr (state, e) ↦ elim (Option-cases (lookup s.node m.node_timers)) [
      | inr (timer, f) ↦
          rw (e, f, suspect_node)
            (on_if (Moves m) m.shutdown (λ p. kept-Follows m.node_map)
              (λ p.
                on_if (Moves m) (ltb s.incarnation state.incarnation) (λ q. kept-Follows m.node_map)
                  (λ q.
                    subst (Follows m.node_map) (sym (confirm_timer-map s timer m))
                      (kept-Follows m.node_map))))
      | inl f ↦
          rw (e, f, suspect_node)
            (on_if (Moves m) m.shutdown (λ p. kept-Follows m.node_map)
              (λ p.
                on_if (Moves m) (ltb s.incarnation state.incarnation) (λ q. kept-Follows m.node_map)
                  (λ q.
                    on_if (Moves m) (not (is_alive_state state.state))
                      (λ r. kept-Follows m.node_map)
                      (λ r.
                        on_if (Moves m) (same state.name cfg.name)
                          (λ ours. refute-Follows s.node state s.incarnation m e)
                          (λ theirs. start_suspicion-Follows s state m e (ground arith))))))
    ]
  ]

  suspicion_expired-Follows :
      (node : Bytes) (change_time : ℤ) (m : Memberlist)
      → Follows m.node_map (suspicion_expired cfg env node change_time m).node_map
  unfolding suspicion_expired
  suspicion_expired-Follows node change_time m = elim (Option-cases (lookup node m.node_map)) [
    | inl e ↦
        rw (e, suspicion_expired)
          (on_if (Moves m) m.shutdown (λ p. kept-Follows m.node_map) (λ p. kept-Follows m.node_map))
    | inr (state, e) ↦
        rw (e, suspicion_expired)
          (on_if (Moves m) m.shutdown (λ p. kept-Follows m.node_map)
            (λ p.
              on_if (Moves m)
                (not (is_suspect state.state && same_time state.state_change change_time))
                (λ q. kept-Follows m.node_map)
                (λ q.
                  dead_node_locked-Follows
                    (record { incarnation = state.incarnation; node = state.name; from = cfg.name })
                    false m)))
  ]

  -- Each of the four kinds of event takes the state of every node along an edge of the diagram, or
  -- leaves it: an alive, a suspect and a dead message, and an expired suspicion.
  pub events-edge :
      (a : AliveMsg) (bootstrap : Bool) (s : SuspectMsg) (d : DeadMsg) (node : Bytes)
      (change_time : ℤ) (m : Memberlist) (k : Bytes)
      → (edge (state_at k m) (state_at k (alive_node cfg env a bootstrap m)) ≡ true)
        × (edge (state_at k m) (state_at k (suspect_node cfg env s m)) ≡ true)
        × (edge (state_at k m) (state_at k (dead_node cfg env d m)) ≡ true)
        × (edge (state_at k m) (state_at k (suspicion_expired cfg env node change_time m)) ≡ true)
  events-edge a bootstrap s d node change_time m k = (
    alive_node-Follows a bootstrap m k,
    suspect_node-Follows s m k,
    dead_node-Follows d m k,
    suspicion_expired-Follows node change_time m k,
  )
