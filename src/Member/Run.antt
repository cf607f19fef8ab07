-- ===== src/Member/Run.antt =====
-- The runs of a memberlist: the operations of the network layer, the timers, the schedule and the
-- callers, each one critical section under `nodeLock`, in any order.
use mori.Prelude.{ℕ, ◌+◌, ◌≡◌}
use mori.Prelude.{Bool, true, false}
use mori.Prelude.{List, [], ◌∷◌}
use mori.Prelude.{Bytes}
use mori.Prelude.Int.{ℤ}
use mori.Awareness.{new_awareness}
use mori.Member.Types.{AliveMsg, SuspectMsg, DeadMsg, PushNodeState, Config, Env, Memberlist}
use mori.Member.Alive.{alive_node}
use mori.Member.Dead.{dead_node}
use mori.Member.Suspect.{suspect_node, suspicion_expired}
use mori.Member.Merge.{merge_entry, merge_state}
use mori.Member.Nodes.{next_incarnation}
use mori.Member.Lifecycle.{
  commit_announcement, set_alive, update_node, adjust_health, leave_context, reset_nodes, shutdown,
  finish_shutdown,
}

-- The tables that `newMemberlist` starts with.
unfoldable pub new_memberlist : ℤ → Memberlist
new_memberlist awareness_max = record {
  incarnation = 0;
  num_nodes = 0;
  shutdown = false;
  leave = false;
  nodes = [];
  node_map = [];
  node_timers = [];
  awareness = new_awareness awareness_max;
  events = [];
  event_seq = 0;
  events_sealed = false;
  broadcasts = [];
  timer_effects = [];
}

pub data Step (cfg : Config) : Memberlist → Memberlist → Type 0 where
  recv_alive :
      (env : Env) (a : AliveMsg) (m : Memberlist) → Step cfg m (alive_node cfg env a false m)
  recv_suspect :
      (env : Env) (s : SuspectMsg) (m : Memberlist) → Step cfg m (suspect_node cfg env s m)
  recv_dead : (env : Env) (d : DeadMsg) (m : Memberlist) → Step cfg m (dead_node cfg env d m)
  -- One entry of a state exchange: `mergeState` holds the lock for each of them apart.
  merge : (env : Env) (r : PushNodeState) (m : Memberlist) → Step cfg m (merge_entry cfg env r m)
  expire :
      (env : Env) (node : Bytes) (change_time : ℤ) (m : Memberlist)
      → Step cfg m (suspicion_expired cfg env node change_time m)
  -- `setAlive` takes an incarnation and commits it later, as `announce`, when it may be an old one.
  take_incarnation : (m : Memberlist) → Step cfg m (next_incarnation m).0
  announce :
      (env : Env) (inc : ℕ) (addr : Bytes) (port : ℕ) (meta vsn : Bytes) (receipt : Bool)
      (m : Memberlist)
      → Step cfg m (commit_announcement cfg env inc addr port meta vsn receipt m).0
  update :
      (env : Env) (meta vsn : Bytes) (m : Memberlist)
      → Step cfg m (update_node cfg env meta vsn m).0
  -- The end of a probe.
  probed : (delta : ℤ) (m : Memberlist) → Step cfg m (adjust_health delta m)
  leave : (env : Env) (m : Memberlist) → Step cfg m (leave_context cfg env m).0
  reap : (env : Env) (draws : ℕ → ℕ) (m : Memberlist) → Step cfg m (reset_nodes cfg env draws m)
  stop : (m : Memberlist) → Step cfg m (shutdown m)
  -- `Shutdown` sets the flag before it calls `finishShutdown`.
  finish : (m : Memberlist) → m.shutdown ≡ true → Step cfg m (finish_shutdown m)

pub data Reach (cfg : Config) (m : Memberlist) : Memberlist → Type 0 where
  here : Reach cfg m m
  next : {m' m'' : Memberlist} → Reach cfg m m' → Step cfg m' m'' → Reach cfg m m''

-- A state exchange that nothing interrupts is a run.
merge_state-Reach :
    (cfg : Config) (env : ℕ → Env) (remote : List PushNodeState) {m m' : Memberlist}
    → Reach cfg m m'
    → Reach cfg m (merge_state cfg env remote m')
unfolding merge_state
merge_state-Reach cfg env [] r = r
merge_state-Reach cfg env (p ∷ ps) {m' = m'} r =
    merge_state-Reach cfg (λ i. env (i + 1)) ps (next r (merge (env 0) p m'))

-- So is an announcement.
set_alive-Reach :
    (cfg : Config) (env : Env) (addr : Bytes) (port : ℕ) (meta vsn : Bytes) (receipt : Bool)
    {m m' : Memberlist}
    → Reach cfg m m'
    → Reach cfg m (set_alive cfg env addr port meta vsn receipt m').0
unfolding set_alive
set_alive-Reach cfg env addr port meta vsn receipt {m' = m'} r =
    next (next r (take_incarnation m'))
      (announce env (next_incarnation m').1 addr port meta vsn receipt (next_incarnation m').0)
