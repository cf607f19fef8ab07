-- ===== src/Member/Suspect.antt =====
-- `suspectNode` of state.go with the expiry of its timer, and `suspicionTimeout` of util.go.
use mori.Prelude.{ℕ}
use mori.Prelude.{Bool, true, false, not, ◌&&◌, none, some}
use mori.Prelude.{[], ◌∷◌, ◌++◌, ltb, ◌==◌, if◌then◌else◌}
use mori.Prelude.{Bytes, same}
use mori.Prelude.Int.{ℤ, pos, pos_part, neg_part, ◌-ℤ◌, ◌*ℤ◌, ltb_ℤ, to_int64, quot_ℤ}
use mori.Prelude.Assoc.{lookup, insert}
use mori.Suspicion.{Suspicion, reset_timer, new_suspicion, confirm}
use mori.Member.Types.{NodeStateType, state_alive, state_suspect, NodeState}
use mori.Member.Types.{SuspectMsg, suspect_msg, no_notify, Config, Env, Memberlist}
use mori.Member.Nodes.{put_state, queue_broadcast, refute}
use mori.Member.Dead.{dead_node_locked}

-- `mult * Duration(nodeScale*1000) * interval / 1000`, multiplied from the left in int64.
unfoldable pub suspicion_timeout : Config → ℕ → ℤ
suspicion_timeout cfg n =
    quot_ℤ (to_int64 (to_int64 (cfg.suspicion_mult *ℤ cfg.node_scale n) *ℤ cfg.probe_interval)) 1000

-- The confirmations that are expected: none if the cluster is too small to give them.
unfoldable pub expected_confirmations : Config → ℕ → ℤ
expected_confirmations cfg n =
    let k = to_int64 (cfg.suspicion_mult -ℤ pos 2) in if ltb_ℤ (pos n -ℤ pos 2) k then pos 0 else k

unfoldable pub confirm_timer : Config → Env → SuspectMsg → Suspicion → Memberlist → Memberlist
confirm_timer cfg env s timer m =
    let (timer', ok, effect) = confirm cfg.raw_timeout env.now env.timer_stopped s.from timer in
    let m1 = record m {
      node_timers = insert s.node timer' m.node_timers;
      timer_effects = m.timer_effects ++ ((s.node, effect) ∷ []);
    } in
    if ok then queue_broadcast s.node (suspect_msg s) no_notify m1 else m1

unfoldable pub mark_suspect : Env → SuspectMsg → NodeState → NodeState
mark_suspect env s state = record state {
  incarnation = s.incarnation;
  state = state_suspect;
  state_change = env.now;
}

unfoldable pub start_suspicion : Config → Env → SuspectMsg → NodeState → Memberlist → Memberlist
unfolding mark_suspect expected_confirmations suspicion_timeout
start_suspicion cfg env s state m =
    let m1 = queue_broadcast s.node (suspect_msg s) no_notify m in
    let m2 = put_state s.node (mark_suspect env s state) m1 in
    let n = m2.num_nodes in
    let k = expected_confirmations cfg n in
    let lo = suspicion_timeout cfg n in
    let hi = to_int64 (cfg.suspicion_max_timeout_mult *ℤ lo) in
    let (timer, duration) = new_suspicion s.from k lo hi env.now in
    record m2 {
      node_timers = insert s.node timer m2.node_timers;
      timer_effects = m2.timer_effects ++ ((s.node, reset_timer duration) ∷ []);
    }

unfoldable pub is_alive_state : NodeStateType → Bool
is_alive_state state_alive = true
is_alive_state _ = false

unfoldable pub suspect_node : Config → Env → SuspectMsg → Memberlist → Memberlist
unfolding is_alive_state
suspect_node cfg env s m = if m.shutdown then m else elim (lookup s.node m.node_map) [
  | none ↦ m
  | some state ↦
      if ltb s.incarnation state.incarnation then m else elim (lookup s.node m.node_timers) [
        | some timer ↦ confirm_timer cfg env s timer m
        | none ↦
            if not (is_alive_state state.state)
            then m
            else if same state.name cfg.name
            then refute cfg s.node state s.incarnation m
            else start_suspicion cfg env s state m
      ]
]

unfoldable pub is_suspect : NodeStateType → Bool
is_suspect state_suspect = true
is_suspect _ = false

-- `time.Time.Equal`
unfoldable pub same_time : ℤ → ℤ → Bool
same_time a b = pos_part a == pos_part b && neg_part a == neg_part b

-- The function that `suspectNode` hands to its timer: `node` and `change_time` are what it closes
-- over. Clearing the timer from the map does not stop it, so it may run at any later time.
unfoldable pub suspicion_expired : Config → Env → Bytes → ℤ → Memberlist → Memberlist
unfolding is_suspect same_time
suspicion_expired cfg env node change_time m =
    if m.shutdown then m else elim (lookup node m.node_map) [
      | none ↦ m
      | some state ↦
          if not (is_suspect state.state && same_time state.state_change change_time)
          then m
          else dead_node_locked cfg env
              (record { incarnation = state.incarnation; node = state.name; from = cfg.name }) false
              m
    ]
