-- ===== src/Member/Safety/SelfDefence.antt =====
-- The local node in runs of the protocol of state.go, as the others accuse it.
mod Handlers
unfoldable pub use Handlers.*
use mori.Prelude.{ℕ, ◌+◌, ◌≡◌, refl, sym, ap, ◌∙◌}
use mori.Prelude.{◌≢◌, ◌⊎◌, inl, inr, Bool, true, false, not, ◌&&◌, Option, none, some}
use mori.Prelude.{List, [], ◌∷◌, arith, ltb, ◌==◌}
use mori.Prelude.{Bool-cases, Option-cases, on_if}
use mori.Prelude.{drop}
use mori.Prelude.{Bytes, same, same→eq, same_iff, same-cases}
use mori.Prelude.Int.{ℤ}
use mori.Prelude.Assoc.{lookup, insert, lookup-insert}
use mori.Prelude.Totals.{count}
use mori.Member.Types.{
  NodeStateType, state_alive, state_suspect, state_dead, state_left, node_state_type, NodeState,
  dead_or_left,
}
use mori.Member.Types.{
  AliveMsg, SuspectMsg, DeadMsg, PushNodeState, Notify, no_notify, caller_notify, Config, Env,
  Memberlist,
}
use mori.Member.Nodes.{
  put_state, clear_timer, next_incarnation, queue_broadcast, refute_incarnation, refute,
}
use mori.Member.Alive.{new_state, alive_node_locked, alive_node}
use mori.Member.Dead.{mark_dead, commit_dead, dead_node_locked, dead_node}
use mori.Member.Invariant.Defs.{Inv}
use mori.Member.Suspect.{
  mark_suspect, start_suspicion, is_alive_state, suspect_node, is_suspect, same_time,
  suspicion_expired,
}
use mori.Member.Merge.{merge_entry, merge_state}
use mori.Member.Lifecycle.{
  UpdateOutcome, update_no_local_node, updated, any_alive, commit_announcement, update_node,
  adjust_health, leave_context, is_reapable, reset_nodes, shutdown, finish_shutdown,
}
use mori.Member.Effects.AliveEffect.{
  Change, unchanged, refuted, accepted, Outcome, on_known, on_new, alive_node_locked-Outcome,
}
use mori.Member.Effects.Edges.{state_of, state_at, refute-map, commit_dead-map, confirm_timer-map}
use mori.Util.MoveDead.{move_dead_nodes}
use mori.Util.MoveDead.Partition.{move_dead_nodes_splits}
use mori.Member.Run.{
  Step, recv_alive, recv_suspect, recv_dead, merge, expire, take_incarnation, announce, update,
  probed, leave, reap, stop, finish, Reach, here, next,
}
use mori.Member.Invariant.LifecycleKeeps.{
  merge_entry-Inv, lookup-remove_all, test_of_count, Reach_from-Inv,
}
use mori.Member.Safety.Frame.{
  dead_node_locked-flags, dead_node-flags, alive_node_locked-flags, alive_node-flags,
  suspect_node-flags, suspicion_expired-flags, merge_entry-flags,
}

module _ (cfg : Config) where
  -- What an operation of the application leaves as it was.
  record Calm (m m' : Memberlist) : Type 0 where
    same_leave : m'.leave ≡ m.leave
    stays_alive : StaysAlive cfg.name m m'

  commit_announcement-Calm :
      (env : Env) (inc : ℕ) (addr : Bytes) (port : ℕ) (meta vsn : Bytes) (r : Bool) (m : Memberlist)
      → Calm m (commit_announcement cfg env inc addr port meta vsn r m).0
  unfolding commit_announcement
  commit_announcement-Calm env inc addr port meta vsn r m =
      on_if (λ (x : Memberlist × Bool). Calm m x.0) m.shutdown
        (λ _. record { same_leave = refl; stays_alive = λ h. h })
        (λ _. record {
          same_leave = (alive_node_locked-flags cfg env _ no_notify true r m).0;
          stays_alive = alive_node_locked-alive cfg env _ no_notify true r cfg.name m;
        })

  update_node-Calm :
      (env : Env) (meta vsn : Bytes) (m : Memberlist) → Calm m (update_node cfg env meta vsn m).0
  unfolding update_node next_incarnation
  update_node-Calm env meta vsn m =
      let calm : Calm m m = record { same_leave = refl; stays_alive = λ h. h } in
      on_if (λ (x : Memberlist × UpdateOutcome). Calm m x.0) m.shutdown (λ _. calm)
        (λ _.
          on_if (λ (x : Memberlist × UpdateOutcome). Calm m x.0) m.leave (λ _. calm)
            (λ _. at calm (lookup cfg.name m.node_map)))
    where
      at :
          Calm m m
          → (o : Option NodeState)
          → Calm m
              (elim o as (λ _. Memberlist × UpdateOutcome) [
                | none ↦ (m, update_no_local_node)
                | some s ↦
                    let (m1, inc) = next_incarnation m in
                    let a : AliveMsg = record {
                      incarnation = inc;
                      node = cfg.name;
                      addr = s.addr;
                      port = s.port;
                      meta = meta;
                      vsn = vsn;
                    } in
                    let m2 = alive_node_locked cfg env a caller_notify true true m1 in
                    (m2, updated (any_alive cfg m2))
              ]).0
      at calm none = calm
      at calm (some s) = record {
        same_leave = (alive_node_locked-flags cfg env _ caller_notify true true _).0;
        stays_alive = alive_node_locked-alive cfg env _ caller_notify true true cfg.name _;
      }

  -- A leave that is refused changes nothing, and one that is taken sets the flag.
  leave_context-cases :
      (env : Env) (m : Memberlist)
      → ((leave_context cfg env m).0 ≡ m) ⊎ ((leave_context cfg env m).0.leave ≡ true)
  unfolding leave_context
  leave_context-cases env m = elim (Option-cases (lookup cfg.name m.node_map)) [
    | inl e ↦ rw (e, leave_context) (ground arith)
    | inr (s, e) ↦
        let d : DeadMsg = record { incarnation = s.incarnation; node = s.name; from = s.name } in
        let flags = dead_node_locked-flags cfg env d true (record m { leave = true }) in
        rw (e, leave_context) (ground (arith, flags))
  ]

  reset_nodes-alive :
      (env : Env) (draws : ℕ → ℕ) (k : Bytes) (m : Memberlist)
      → StaysAlive k m (reset_nodes cfg env draws m)
  unfolding reset_nodes
  reset_nodes-alive env draws k m h =
      let p = is_reapable cfg env m.node_map in
      let cut = drop (move_dead_nodes p m.nodes).1 (move_dead_nodes p m.nodes).0 in
      rw (lookup-remove_all cfg k cut m.node_map) (elim (Bool-cases (count k cut == 0)) [
        | inl e ↦ rw e h
        | inr e ↦
            absurd (
              spared
                (test_of_count cfg p k cut (move_dead_nodes_splits p m.nodes).2 (ground arith)))
      ])
    where
      spared : is_reapable cfg env m.node_map k ≡ true → ⊥
      spared r =
          let (s, e, alive) = alive_entry h in
          unfold is_reapable dead_or_left in ground (arith, e, alive, r)

  Step-alive :
      {m m' : Memberlist}
      → Step cfg m m'
      → Inv cfg.name m
      → m.leave ≡ false
      → state_at cfg.name m ≡ some state_alive
      → (m'.leave ≡ true) ⊎ (state_at cfg.name m' ≡ some state_alive)
  Step-alive (recv_alive env a m) inv stays h = inr (alive_node-alive cfg env a false cfg.name m h)
  Step-alive (recv_suspect env s m) inv stays h = inr (suspect_node-alive cfg env s m inv h)
  Step-alive (recv_dead env d m) inv stays h = inr (dead_node-alive cfg env d m inv stays h)
  Step-alive (merge env r m) inv stays h = inr (merge_entry-alive cfg env r m inv stays h)
  Step-alive (expire env node t m) inv stays h =
      inr (suspicion_expired-alive cfg env node t m inv stays h)
  Step-alive (take_incarnation m) inv stays h = inr (unfold next_incarnation in h)
  Step-alive (announce env inc addr port meta vsn r m) inv stays h =
      inr ((commit_announcement-Calm env inc addr port meta vsn r m).stays_alive h)
  Step-alive (update env meta vsn m) inv stays h =
      inr ((update_node-Calm env meta vsn m).stays_alive h)
  Step-alive (probed delta m) inv stays h = inr (unfold adjust_health in h)
  Step-alive (leave env m) inv stays h = elim (leave_context-cases env m) [
    | inl e ↦ inr (rw e h)
    | inr e ↦ inl e
  ]
  Step-alive (reap env draws m) inv stays h = inr (reset_nodes-alive env draws cfg.name m h)
  Step-alive (stop m) inv stays h = inr (unfold shutdown in h)
  Step-alive (finish m e) inv stays h = inr (unfold finish_shutdown in h)

  Step-leave : {m m' : Memberlist} → Step cfg m m' → m.leave ≡ true → m'.leave ≡ true
  Step-leave (recv_alive env a m) l = (alive_node-flags cfg env a false m).0 ∙ l
  Step-leave (recv_suspect env s m) l = (suspect_node-flags cfg env s m).0 ∙ l
  Step-leave (recv_dead env d m) l = (dead_node-flags cfg env d m).0 ∙ l
  Step-leave (merge env r m) l = (merge_entry-flags cfg env r m).0 ∙ l
  Step-leave (expire env node t m) l = (suspicion_expired-flags cfg env node t m).0 ∙ l
  Step-leave (take_incarnation m) l = unfold next_incarnation in l
  Step-leave (announce env inc addr port meta vsn r m) l =
      (commit_announcement-Calm env inc addr port meta vsn r m).same_leave ∙ l
  Step-leave (update env meta vsn m) l = (update_node-Calm env meta vsn m).same_leave ∙ l
  Step-leave (probed delta m) l = unfold adjust_health in l
  Step-leave (leave env m) l = elim (leave_context-cases env m) [ inl e ↦ rw e l | inr e ↦ e ]
  Step-leave (reap env draws m) l = unfold reset_nodes in l
  Step-leave (stop m) l = unfold shutdown in l
  Step-leave (finish m e) l = unfold finish_shutdown in l

  -- From a consistent state in which the local node is alive and has not left, every run ends in a
  -- state in which it has left by its own call, or is still alive: no message, exchange, timer or
  -- reaping makes it suspect, dead, left or unknown.
  pub Reach-alive :
      {m m' : Memberlist}
      → Inv cfg.name m
      → m.leave ≡ false
      → state_at cfg.name m ≡ some state_alive
      → Reach cfg m m'
      → (m'.leave ≡ true) ⊎ (state_at cfg.name m' ≡ some state_alive)
  Reach-alive inv stays h here = inr h
  Reach-alive inv stays h (next {m' = m1} r st) = elim (Reach-alive inv stays h r) [
    | inl l ↦ inl (Step-leave st l)
    | inr alive ↦ elim (Bool-cases m1.leave) [
      | inl l ↦ inl (Step-leave st l)
      | inr n ↦ Step-alive st (Reach_from-Inv cfg inv r) n alive
    ]
  ]
