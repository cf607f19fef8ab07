-- ===== src/Member/Invariant/SuspectKeeps.antt =====
-- `suspectNode` of state.go, the expiry of a suspicion, and the invariant.
use mori.Prelude.{◌≡◌, refl}
use mori.Prelude.{inl, inr, false, some}
use mori.Prelude.{arith}
use mori.Prelude.{Option-cases}
use mori.Prelude.{Bytes, same, same_iff, same_comm}
use mori.Prelude.Int.{ℤ, ◌*ℤ◌, to_int64}
use mori.Prelude.Assoc.{lookup, insert, lookup-insert}
use mori.Suspicion.{Suspicion, new_suspicion, confirm}
use mori.Member.Types.{state_suspect, NodeState}
use mori.Member.Types.{SuspectMsg, DeadMsg, Config, Env, Memberlist}
use mori.Member.Nodes.{put_state, queue_broadcast}
use mori.Member.Invariant.Defs.{Inv}
use mori.Member.Invariant.Shared.{refute-Inv}
use mori.Member.Suspect.{
  suspicion_timeout, expected_confirmations, confirm_timer, mark_suspect, start_suspicion,
  suspect_node, suspicion_expired,
}
use mori.Member.Invariant.DeadKeeps.{dead_node_locked-Inv}

module _ (cfg : Config) (env : Env) (s : SuspectMsg) (m : Memberlist) (h : Inv cfg.name m) where
  confirm_timer-tables :
      (timer : Suspicion)
      → let m' = confirm_timer cfg env s timer m in
        (m'.node_map ≡ m.node_map)
        × (m'.nodes ≡ m.nodes)
        × (m'.node_timers
            ≡ insert s.node
                (confirm cfg.raw_timeout env.now env.timer_stopped s.from timer).0
                m.node_timers)
        × (m'.num_nodes ≡ m.num_nodes)
        × (m'.awareness ≡ m.awareness)
        × (m'.events_sealed ≡ m.events_sealed)
        × (m'.shutdown ≡ m.shutdown)
  unfolding confirm_timer queue_broadcast
  confirm_timer-tables timer = ground arith

  pub confirm_timer-Inv :
      (timer : Suspicion)
      → lookup s.node m.node_timers ≡ some timer
      → Inv cfg.name (confirm_timer cfg env s timer m)
  confirm_timer-Inv timer e =
      let t = confirm_timer-tables timer in
      let timer' = (confirm cfg.raw_timeout env.now env.timer_stopped s.from timer).0 in
      record {
        fits = λ k. ground (
          arith,
          t,
          h.fits k,
          h.fits s.node,
          same_iff s.node k,
          lookup-insert s.node k timer' m.node_timers,
        );
        counted = ground (arith, t, h.counted);
        healthy = ground (arith, t, h.healthy);
        sealed_shut = ground (arith, t, h.sealed_shut);
      }

  start_suspicion-tables :
      (state : NodeState)
      → let m' = start_suspicion cfg env s state m in
        let n = m.num_nodes in
        let lo = suspicion_timeout cfg n in
        let k = expected_confirmations cfg n in
        let hi = to_int64 (cfg.suspicion_max_timeout_mult *ℤ lo) in
        (m'.node_map ≡ insert s.node (mark_suspect env s state) m.node_map)
        × (m'.nodes ≡ m.nodes)
        × (m'.node_timers ≡ insert s.node (new_suspicion s.from k lo hi env.now).0 m.node_timers)
        × (m'.num_nodes ≡ m.num_nodes)
        × (m'.awareness ≡ m.awareness)
        × (m'.events_sealed ≡ m.events_sealed)
        × (m'.shutdown ≡ m.shutdown)
  unfolding start_suspicion queue_broadcast put_state
  start_suspicion-tables state = (refl, refl, refl, refl, refl, refl, refl)

  mark_suspect_facts :
      (state : NodeState)
      → ((mark_suspect env s state).name ≡ state.name)
        × ((mark_suspect env s state).state ≡ state_suspect)
  unfolding mark_suspect
  mark_suspect_facts state = (refl, refl)

  pub start_suspicion-Inv :
      (state : NodeState)
      → lookup s.node m.node_map ≡ some state
      → same state.name cfg.name ≡ false
      → Inv cfg.name (start_suspicion cfg env s state m)
  start_suspicion-Inv state e other =
      let t = start_suspicion-tables state in
      let n = m.num_nodes in
      let lo = suspicion_timeout cfg n in
      let k = expected_confirmations cfg n in
      let hi = to_int64 (cfg.suspicion_max_timeout_mult *ℤ lo) in
      let timer = (new_suspicion s.from k lo hi env.now).0 in
      record {
        fits = λ j. ground (
          arith,
          t,
          mark_suspect_facts state,
          h.fits j,
          h.fits s.node,
          same_iff s.node j,
          same_comm state.name cfg.name,
          lookup-insert s.node j (mark_suspect env s state) m.node_map,
          lookup-insert s.node j timer m.node_timers,
        );
        counted = ground (arith, t, h.counted);
        healthy = ground (arith, t, h.healthy);
        sealed_shut = ground (arith, t, h.sealed_shut);
      }

-- A suspect message keeps the invariant.
pub suspect_node-Inv :
    (cfg : Config) (env : Env) (s : SuspectMsg) (m : Memberlist)
    → Inv cfg.name m
    → Inv cfg.name (suspect_node cfg env s m)
unfolding suspect_node
suspect_node-Inv cfg env s m h = elim (Option-cases (lookup s.node m.node_map)) [
  | inl e ↦ rw (e, suspect_node) (ground (arith, h))
  | inr (state, e) ↦ elim (Option-cases (lookup s.node m.node_timers)) [
    | inl f ↦
        rw (e, f, suspect_node)
          (ground (
            arith,
            h,
            refute-Inv cfg s.node state s.incarnation m e h,
            start_suspicion-Inv cfg env s m h state e,
          ))
    | inr (timer, f) ↦
        rw (e, f, suspect_node) (ground (arith, h, confirm_timer-Inv cfg env s m h timer f))
  ]
]

-- An expired suspicion, fresh or stale, keeps the invariant.
pub suspicion_expired-Inv :
    (cfg : Config) (env : Env) (node : Bytes) (change_time : ℤ) (m : Memberlist)
    → Inv cfg.name m
    → Inv cfg.name (suspicion_expired cfg env node change_time m)
unfolding suspicion_expired
suspicion_expired-Inv cfg env node change_time m h = elim (Option-cases (lookup node m.node_map)) [
  | inl e ↦ rw (e, suspicion_expired) (ground (arith, h))
  | inr (state, e) ↦
      let d : DeadMsg = record {
        incarnation = state.incarnation;
        node = state.name;
        from = cfg.name;
      } in
      rw (e, suspicion_expired) (ground (arith, h, dead_node_locked-Inv cfg env d false m h))
]
