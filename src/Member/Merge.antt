-- ===== src/Member/Merge.antt =====
-- `mergeState` and `verifyProtocol` of state.go. A remote state is the number that was sent;
-- one below zero names no state, like every number that `node_state_type` does not know.
use mori.Prelude.{ℕ, ◌+◌}
use mori.Prelude.{false, none, some}
use mori.Prelude.{List, [], ◌∷◌}
use mori.Member.Types.{state_alive, state_suspect, state_dead, state_left, node_state_type}
use mori.Member.Types.{PushNodeState, Config, Env, Memberlist}
use mori.Member.Alive.{alive_node}
use mori.Member.Dead.{dead_node}
use mori.Member.Suspect.{suspect_node}

-- A remote node that is held dead is only suspected.
unfoldable pub merge_entry : Config → Env → PushNodeState → Memberlist → Memberlist
merge_entry cfg env r m = elim (node_state_type r.state) [
  | some state_alive ↦
      alive_node cfg env
        (record {
          incarnation = r.incarnation;
          node = r.name;
          addr = r.addr;
          port = r.port;
          meta = r.meta;
          vsn = r.vsn;
        })
        false m
  | some state_left ↦
      dead_node cfg env (record { incarnation = r.incarnation; node = r.name; from = r.name }) m
  | some state_dead ↦
      suspect_node cfg env (record { incarnation = r.incarnation; node = r.name; from = cfg.name })
        m
  | some state_suspect ↦
      suspect_node cfg env (record { incarnation = r.incarnation; node = r.name; from = cfg.name })
        m
  | none ↦ m
]

-- `env i` is what the i-th entry meets.
unfoldable pub merge_state : Config → (ℕ → Env) → List PushNodeState → Memberlist → Memberlist
unfolding merge_entry
merge_state cfg env [] m = m
merge_state cfg env (r ∷ rs) m = merge_state cfg (λ i. env (i + 1)) rs (merge_entry cfg (env 0) r m)
