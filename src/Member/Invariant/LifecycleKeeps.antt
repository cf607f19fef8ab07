-- ===== src/Member/Invariant/LifecycleKeeps.antt =====
-- The steps of a run, and whole runs, and the invariant (state.go, memberlist.go).
mod Calls
unfoldable pub use Calls.*
use mori.Prelude.{ℕ, ◌+◌, ◌%◌, ◌^◌, ◌≡◌, refl, ap, ◌∙◌}
use mori.Prelude.{◌≢◌, inl, inr, Bool, true, false, Option, none, some}
use mori.Prelude.{List, [], ◌∷◌, arith, ◌==◌, if◌then◌else◌}
use mori.Prelude.{Bool-cases, Option-cases}
use mori.Prelude.{take, drop, take-append-drop, length-take}
use mori.Prelude.{All}
use mori.Prelude.{Bytes, same-cases, same_comm}
use mori.Prelude.Int.{ℤ, pos, ◌≤ℤ◌, IsInt64}
use mori.Prelude.Assoc.{lookup, remove, lookup-remove}
use mori.Prelude.Totals.{total, total-append, once, count}
use mori.Member.Types.{
  NodeStateType, state_alive, state_suspect, state_dead, state_left, node_state_type, NodeState,
  dead_or_left,
}
use mori.Member.Types.{AliveMsg, DeadMsg, PushNodeState, no_notify, Config, Env, Memberlist}
use mori.Member.Nodes.{next_incarnation}
use mori.Awareness.Bounds.{new_awareness-InRange}
use mori.Member.Invariant.Defs.{NotSuspect, FitsAt, Inv}
use mori.Member.Invariant.Shared.{SameTables-Inv}
use mori.Member.Merge.{merge_entry, merge_state}
use mori.Member.Lifecycle.{
  leave_context, is_reapable, remove_all, reset_nodes, shutdown, finish_shutdown,
}
use mori.Util.MoveDead.{move_dead_nodes}
use mori.Util.MoveDead.Partition.{move_dead_nodes_splits}
use mori.Util.Shuffle.{shuffle_nodes, total-shuffle_nodes, length-shuffle_nodes}
use mori.Member.Run.{
  new_memberlist, Step, recv_alive, recv_suspect, recv_dead, merge, expire, take_incarnation,
  announce, update, probed, leave, reap, stop, finish, Reach, here, next,
}
use mori.Member.Invariant.AliveKeeps.{alive_node_locked-Inv, alive_node-Inv}
use mori.Member.Invariant.DeadKeeps.{dead_node_locked-Inv, dead_node-Inv}
use mori.Member.Invariant.SuspectKeeps.{suspect_node-Inv, suspicion_expired-Inv}

module _ (cfg : Config) where
  -- Every operation of a run keeps the invariant.
  pub Step-Inv : {m m' : Memberlist} → Step cfg m m' → Inv cfg.name m → Inv cfg.name m'
  Step-Inv (recv_alive env a m) h = alive_node-Inv cfg env a false m h
  Step-Inv (recv_suspect env s m) h = suspect_node-Inv cfg env s m h
  Step-Inv (recv_dead env d m) h = dead_node-Inv cfg env d m h
  Step-Inv (merge env r m) h = merge_entry-Inv cfg env r m h
  Step-Inv (expire env node t m) h = suspicion_expired-Inv cfg env node t m h
  Step-Inv (take_incarnation m) h = next_incarnation-Inv cfg m h
  Step-Inv (announce env inc addr port meta vsn receipt m) h =
      commit_announcement-Inv cfg env inc addr port meta vsn receipt m h
  Step-Inv (update env meta vsn m) h = update_node-Inv cfg env meta vsn m h
  Step-Inv (probed delta m) h = adjust_health-Inv cfg delta m h
  Step-Inv (leave env m) h = leave_context-Inv cfg env m h
  Step-Inv (reap env draws m) h = reset_nodes-Inv cfg env draws m h
  Step-Inv (stop m) h = shutdown-Inv cfg m h
  Step-Inv (finish m e) h = finish_shutdown-Inv cfg m e h

  new_memberlist-Inv : (n : ℤ) → IsInt64 n → pos 1 ≤ℤ n → Inv cfg.name (new_memberlist n)
  unfolding new_memberlist count lookup
  new_memberlist-Inv n f p = record {
    fits = λ k. ground arith;
    counted = refl;
    healthy = new_awareness-InRange n f p;
    sealed_shut = λ e. cc;
  }

  pub Reach_from-Inv : {m m' : Memberlist} → Inv cfg.name m → Reach cfg m m' → Inv cfg.name m'
  Reach_from-Inv h here = h
  Reach_from-Inv h (next r st) = Step-Inv st (Reach_from-Inv h r)

  -- In every run from a new memberlist whose awareness limit is an int of at least 1, the tables
  -- stay consistent, in the sense of Inv.
  pub Reach-Inv :
      (n : ℤ) {m : Memberlist}
      → IsInt64 n
      → pos 1 ≤ℤ n
      → Reach cfg (new_memberlist n) m
      → Inv cfg.name m
  Reach-Inv n f p r = Reach_from-Inv (new_memberlist-Inv n f p) r
