-- ===== src/Member/Safety/Timers.antt =====
-- Suspicion timers, leaving and shutting down: what still acts and what does nothing.
use mori.Prelude.{◌≤◌, ◌≡◌, sym, ap, ◌∙◌}
use mori.Prelude.{◌≢◌, inl, inr, Bool, true, false, none, some}
use mori.Prelude.{[], ◌∷◌, ◌++◌, arith, if◌then◌else◌}
use mori.Prelude.{Option-cases}
use mori.Prelude.{Bytes, same, same_refl, same_iff, same_comm}
use mori.Prelude.Int.{ℤ}
use mori.Prelude.Assoc.{lookup, insert, remove, lookup-insert, lookup-remove}
use mori.Member.Types.{state_suspect, state_dead, NodeState, dead_or_left}
use mori.Member.Types.{DeadMsg, dead_msg, Notify, no_notify, Config, Env, Memberlist}
use mori.Member.Nodes.{put_state, clear_timer, queue_broadcast, enqueue_event}
use mori.Member.Dead.{mark_dead, commit_dead, dead_node_locked}
use mori.Member.Invariant.Defs.{Inv}
use mori.Member.Suspect.{is_suspect, same_time, suspicion_expired}

same_time-eq : (a b : ℤ) → same_time a b ≡ true → a ≡ b
unfolding same_time
same_time-eq a b h = ground arith

same_time_refl : (a : ℤ) → same_time a a ≡ true
unfolding same_time
same_time_refl a = ground arith

pub commit_dead-facts :
    (cfg : Config) (env : Env) (d : DeadMsg) (channel : Notify) (r : Bool) (s : NodeState)
    (m : Memberlist)
    → let m' = commit_dead cfg env d channel r s (clear_timer d.node m) in
      (m'.node_map ≡ insert d.node (mark_dead env d s) m.node_map)
      × (m'.node_timers ≡ remove d.node m.node_timers)
      × (m'.nodes ≡ m.nodes)
      × (m'.broadcasts
          ≡ m.broadcasts ++ (record { node = d.node; msg = dead_msg d; notify = channel } ∷ []))
unfolding commit_dead put_state queue_broadcast enqueue_event clear_timer
commit_dead-facts cfg env d channel r s m = ground arith

-- A dead message that is not old, about another node that was not dead, is taken.
pub dead_node_locked_takes :
    (cfg : Config) (env : Env) (d : DeadMsg) (r : Bool) (s : NodeState) (m : Memberlist)
    → lookup d.node m.node_map ≡ some s
    → s.incarnation ≤ d.incarnation
    → dead_or_left s.state ≡ false
    → same s.name cfg.name ≡ false
    → dead_node_locked cfg env d r m ≡ commit_dead cfg env d no_notify r s (clear_timer d.node m)
unfolding dead_node_locked
dead_node_locked_takes cfg env d r s m known new live other =
    rw (known, dead_node_locked) (ground (arith, new, live, other))

module _ (cfg : Config) (env : Env) (node : Bytes) (t : ℤ) (m : Memberlist)
    (inv : Inv cfg.name m) where
  -- In a consistent state, a timer that is no longer in the map does nothing when it fires.
  pub cleared_timer_ignored :
      lookup node m.node_timers ≡ none → suspicion_expired cfg env node t m ≡ m
  unfolding suspicion_expired
  cleared_timer_ignored none_armed = elim (Option-cases (lookup node m.node_map)) [
    | inl e ↦ rw (e, suspicion_expired) (ground arith)
    | inr (s, e) ↦
        rw (e, suspicion_expired)
          (unfold is_suspect in ground (arith, inv.fits node, inv.sealed_shut))
  ]

  abbrev expiry : NodeState → DeadMsg
  expiry s = record { incarnation = s.incarnation; node = s.name; from = cfg.name }

  module _ (s : NodeState) (known : lookup node m.node_map ≡ some s)
      (suspected : s.state ≡ state_suspect) where
    other : (same node cfg.name ≡ false) × (s.name ≡ node)
    other = ground (arith, inv.fits node, same_comm node cfg.name)

    expired-dead :
        m.shutdown ≡ false
        → s.state_change ≡ t
        → suspicion_expired cfg env node t m ≡ dead_node_locked cfg env (expiry s) false m
    unfolding suspicion_expired
    expired-dead up fresh =
        rw (known, suspicion_expired) (unfold is_suspect in ground (arith, same_time_refl t))

    -- In a consistent state that is not shut down, a suspicion that runs out while its node is
    -- still in the state that armed it turns the node dead at the same incarnation, broadcasts
    -- that, clears the timer, and changes no other entry.
    pub suspicion_expired_kills :
        m.shutdown ≡ false
        → s.state_change ≡ t
        → let m' = suspicion_expired cfg env node t m in
          (lookup node m'.node_map ≡ some (record s { state = state_dead; state_change = env.now }))
          × (lookup node m'.node_timers ≡ none)
          × ((k : Bytes) → k ≢ node → lookup k m'.node_map ≡ lookup k m.node_map)
          × (m'.broadcasts
              ≡ m.broadcasts
                ++ (record {
                  node = node;
                  msg =
                      dead_msg
                        (record { incarnation = s.incarnation; node = node; from = cfg.name });
                  notify = no_notify;
                }
                    ∷ []))
    suspicion_expired_kills up fresh =
        let d : DeadMsg = record { incarnation = s.incarnation; node = node; from = cfg.name } in
        let dead = record s {
          incarnation = s.incarnation;
          state = state_dead;
          state_change = env.now;
        } in
        let taken : suspicion_expired cfg env node t m
            ≡ commit_dead cfg env d no_notify false s (clear_timer node m) =
          expired-dead up fresh
          ∙ ap
              (λ n.
                dead_node_locked cfg env
                  (record { incarnation = s.incarnation; node = n; from = cfg.name }) false m)
              (other.1)
          ∙ dead_node_locked_takes cfg env d false s m known (omega arith)
              (unfold dead_or_left in rw suspected) (rw other.1 (other.0)) in
        let mark : mark_dead env d s ≡ dead = unfold mark_dead in rw (other.0) in
        let f = commit_dead-facts cfg env d no_notify false s m in
        let table = f.0 ∙ ap (λ x. insert node x m.node_map) mark in
        rw taken (
          rw (table, lookup-insert node node dead m.node_map, same_refl node),
          rw (f.1, lookup-remove node node m.node_timers, same_refl node),
          λ k n. rw (table, lookup-insert node k dead m.node_map) (elsewhere k n dead),
          f.3,
        )
      where
        elsewhere :
            (k : Bytes)
            → k ≢ node
            → (x : NodeState)
            → (if same node k then some x else lookup k m.node_map) ≡ lookup k m.node_map
        elsewhere k n x = ground (arith, same_iff node k, λ (e : node ≡ k). n (sym e))
