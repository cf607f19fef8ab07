-- ===== src/Member/Safety/Ending.antt =====
-- Leaving and shutting down, and the member queries.
use mori.Prelude.{ℕ, ◌+◌, ◌≡◌, refl, sym, ap₂, ◌∙◌, subst}
use mori.Prelude.{◌⊎◌, inl}
use mori.Prelude.{drop}
use mori.Prelude.{◌≢◌, Bool, true, false, Option, none, some}
use mori.Prelude.{List, [], ◌∷◌, ◌++◌, arith, if◌then◌else◌}
use mori.Prelude.{length}
use mori.Prelude.{Bytes, same, same_refl, same_iff}
use mori.Prelude.Assoc.{lookup, insert, lookup-insert}
use mori.Member.Types.{
  NodeStateType, state_alive, state_suspect, state_dead, state_left, node_state_type, NodeState,
  dead_or_left,
}
use mori.Member.Types.{
  AliveMsg, DeadMsg, PushNodeState, dead_msg, Notify, leave_broadcast, Config, Env, Memberlist,
}
use mori.Member.Nodes.{put_state, clear_timer, queue_broadcast, enqueue_event}
use mori.Member.Alive.{check_alive, alive_node_locked, alive_node}
use mori.Member.Dead.{mark_dead, commit_dead, dead_node_locked, dead_node}
use mori.Member.Invariant.Defs.{Inv}
use mori.Member.Suspect.{suspect_node, suspicion_expired}
use mori.Member.Merge.{merge_entry}
use mori.Member.Lifecycle.{
  states_of, live_nodes, members, count_live, num_members, leave_context, commit_announcement,
  update_node, adjust_health, is_reapable, reset_nodes, shutdown, finish_shutdown,
}
use mori.Member.Nodes.{next_incarnation}
use mori.Util.MoveDead.{move_dead_nodes}
use mori.Member.Run.{
  Step, recv_alive, recv_suspect, recv_dead, merge, expire, take_incarnation, announce, update,
  probed, leave, reap, stop, finish, Reach, here, next,
}
use mori.Member.Invariant.LifecycleKeeps.{lookup-remove_all}
use mori.Member.Safety.Timers.{commit_dead-facts}

module _ (cfg : Config) (m : Memberlist) (e : m.shutdown ≡ true) where
  merge_entry-stopped : (env : Env) (r : PushNodeState) → merge_entry cfg env r m ≡ m
  unfolding merge_entry alive_node suspect_node dead_node
  merge_entry-stopped env r = go (node_state_type r.state) refl
    where
      go : (t : Option NodeStateType) → node_state_type r.state ≡ t → merge_entry cfg env r m ≡ m
      go none p = rw (p, merge_entry) refl
      go (some state_alive) p = rw (p, merge_entry) (ground (arith, e))
      go (some state_suspect) p = rw (p, merge_entry) (ground (arith, e))
      go (some state_dead) p = rw (p, merge_entry) (ground (arith, e))
      go (some state_left) p = rw (p, merge_entry) (ground (arith, e))

-- What may still change once the memberlist is shut down: reaping takes nodes out, and the counters of
-- the incarnation and of the health move on.
pub record Stopped (m m' : Memberlist) : Type 0 where
  pub still_down : m'.shutdown ≡ true
  pub no_broadcast : m'.broadcasts ≡ m.broadcasts
  pub no_event : m'.events ≡ m.events
  pub no_timer : m'.timer_effects ≡ m.timer_effects
  pub only_reaped :
      (k : Bytes) → (lookup k m'.node_map ≡ lookup k m.node_map) ⊎ (lookup k m'.node_map ≡ none)

module _ (cfg : Config) where
  idle : {m m' : Memberlist} → m.shutdown ≡ true → m' ≡ m → Stopped m m'
  idle {m} {m'} e same = subst (Stopped m) (sym same) (record {
    still_down = e;
    no_broadcast = refl;
    no_event = refl;
    no_timer = refl;
    only_reaped = λ k. inl refl;
  })

  reset_nodes-Stopped :
      (env : Env) (draws : ℕ → ℕ) (m : Memberlist)
      → m.shutdown ≡ true
      → Stopped m (reset_nodes cfg env draws m)
  unfolding reset_nodes
  reset_nodes-Stopped env draws m e =
      let cut =
        drop (move_dead_nodes (is_reapable cfg env m.node_map) m.nodes).1
          (move_dead_nodes (is_reapable cfg env m.node_map) m.nodes).0 in
      record {
        still_down = e;
        no_broadcast = refl;
        no_event = refl;
        no_timer = refl;
        only_reaped = λ k. ground (arith, lookup-remove_all cfg k cut m.node_map);
      }

  Step-Stopped : {m m' : Memberlist} → Step cfg m m' → m.shutdown ≡ true → Stopped m m'
  unfolding alive_node suspect_node dead_node suspicion_expired next_incarnation commit_announcement
      update_node adjust_health leave_context shutdown finish_shutdown
  Step-Stopped (recv_alive env a m) e = idle e (ground (arith, e))
  Step-Stopped (recv_suspect env s m) e = idle e (ground (arith, e))
  Step-Stopped (recv_dead env d m) e = idle e (ground (arith, e))
  Step-Stopped (merge env r m) e = idle e (merge_entry-stopped cfg m e env r)
  Step-Stopped (expire env node t m) e = idle e (ground (arith, e))
  Step-Stopped (take_incarnation m) e = record {
    still_down = e;
    no_broadcast = refl;
    no_event = refl;
    no_timer = refl;
    only_reaped = λ k. inl refl;
  }
  Step-Stopped (announce env inc addr port meta vsn receipt m) e = idle e (ground (arith, e))
  Step-Stopped (update env meta vsn m) e = idle e (ground (arith, e))
  Step-Stopped (probed delta m) e = record {
    still_down = e;
    no_broadcast = refl;
    no_event = refl;
    no_timer = refl;
    only_reaped = λ k. inl refl;
  }
  Step-Stopped (leave env m) e = idle e (ground (arith, e))
  Step-Stopped (reap env draws m) e = reset_nodes-Stopped env draws m e
  Step-Stopped (stop m) e = record {
    still_down = refl;
    no_broadcast = refl;
    no_event = refl;
    no_timer = refl;
    only_reaped = λ k. inl refl;
  }
  Step-Stopped (finish m up) e = record {
    still_down = e;
    no_broadcast = refl;
    no_event = refl;
    no_timer = refl;
    only_reaped = λ k. inl refl;
  }

  Stopped-trans : {m m' m'' : Memberlist} → Stopped m m' → Stopped m' m'' → Stopped m m''
  Stopped-trans a b = record {
    still_down = b.still_down;
    no_broadcast = b.no_broadcast ∙ a.no_broadcast;
    no_event = b.no_event ∙ a.no_event;
    no_timer = b.no_timer ∙ a.no_timer;
    only_reaped = λ k. ground (arith, a.only_reaped k, b.only_reaped k);
  }

  -- After shutdown, in every run, the memberlist stays shut down, no broadcast and no event is
  -- queued, no suspicion timer is started or moved, and no state of a node changes: reaping may
  -- take nodes out, but none comes in.
  pub Reach-Stopped : {m m' : Memberlist} → m.shutdown ≡ true → Reach cfg m m' → Stopped m m'
  Reach-Stopped e here = idle e refl
  Reach-Stopped e (next r st) =
      let before = Reach-Stopped e r in Stopped-trans before (Step-Stopped st before.still_down)

-- A node that has left is not brought back by an alive message about it, its own announcement
-- included.
pub left_not_rejoined :
    (cfg : Config) (env : Env) (a : AliveMsg) (channel : Notify) (bootstrap r : Bool)
    (m : Memberlist)
    → m.leave ≡ true
    → a.node ≡ cfg.name
    → alive_node_locked cfg env a channel bootstrap r m ≡ m
unfolding alive_node_locked check_alive
left_not_rejoined cfg env a channel bootstrap r m l us =
    ground (arith, l, us, same_iff a.node cfg.name)

module _ (cfg : Config) (env : Env) (m : Memberlist) (inv : Inv cfg.name m) (s : NodeState)
    (known : lookup cfg.name m.node_map ≡ some s) (alive : s.state ≡ state_alive)
    (up : m.shutdown ≡ false) (stays : m.leave ≡ false) where
  named : s.name ≡ cfg.name
  named = ground (arith, inv.fits cfg.name)

  abbrev farewell : DeadMsg
  farewell = record { incarnation = s.incarnation; node = s.name; from = s.name }

  taken :
      (leave_context cfg env m).0
      ≡ commit_dead cfg env farewell leave_broadcast true s
          (clear_timer s.name (record m { leave = true }))
  unfolding leave_context dead_node_locked dead_or_left
  taken =
      rw (known, leave_context)
        (ground (arith, up, stays, known, named, alive, same_iff s.name cfg.name))

  -- In a consistent state that is not shut down and has not left, leaving turns the local node,
  -- alive until now, into a left one at the incarnation that it had, sets the flag, broadcasts its
  -- own death on the leave channel, and changes no other entry of the node map.
  pub leave_context_commits :
      let m' = (leave_context cfg env m).0 in
      (m'.leave ≡ true)
      × (lookup cfg.name m'.node_map
          ≡ some (record s { state = state_left; state_change = env.now }))
      × ((k : Bytes) → k ≢ cfg.name → lookup k m'.node_map ≡ lookup k m.node_map)
      × (m'.broadcasts
          ≡ m.broadcasts
            ++ (record { node = s.name; msg = dead_msg farewell; notify = leave_broadcast } ∷ []))
  unfolding commit_dead put_state queue_broadcast enqueue_event clear_timer
  leave_context_commits =
      let m1 = record m { leave = true } in
      let f = commit_dead-facts cfg env farewell leave_broadcast true s m1 in
      let left_state = record s {
        incarnation = s.incarnation;
        state = state_left;
        state_change = env.now;
      } in
      let mark : mark_dead env farewell s ≡ left_state =
        unfold mark_dead in ground (arith, same_refl s.name) in
      let table = f.0 ∙ ap₂ (λ n x. insert n x m.node_map) named mark in
      rw taken (
        ground arith,
        rw (table, lookup-insert cfg.name cfg.name left_state m.node_map, same_refl cfg.name),
        λ k n.
            rw (table, lookup-insert cfg.name k left_state m.node_map) (elsewhere k n left_state),
        f.3,
      )
    where
      elsewhere :
          (k : Bytes)
          → k ≢ cfg.name
          → (x : NodeState)
          → (if same cfg.name k then some x else lookup k m.node_map) ≡ lookup k m.node_map
      elsewhere k n x = ground (arith, same_iff cfg.name k, λ (e : cfg.name ≡ k). n (sym e))

count_live-length : (n : ℕ) (ss : List NodeState) → count_live n ss ≡ n + length (live_nodes ss)
unfolding count_live live_nodes
count_live-length n [] = omega arith
count_live-length n (s ∷ ss) = ground (arith, count_live-length n ss, count_live-length (n + 1) ss)

-- NumMembers is the number of nodes that Members lists.
pub num_members-length : (m : Memberlist) → num_members m ≡ length (members m)
unfolding num_members members
num_members-length m = ground (arith, count_live-length 0 (states_of m.nodes m.node_map))
