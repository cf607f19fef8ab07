-- ===== src/Member/Invariant/LifecycleKeeps/Calls.antt =====
-- State exchanges, the calls of the application and reaping, and the invariant (state.go,
-- memberlist.go).
use mori.Prelude.{ℕ, ◌+◌, ◌%◌, ◌^◌, ◌≡◌, refl, ap, ◌∙◌}
use mori.Prelude.{◌≢◌, inl, inr, Bool, true, false, Option, none, some}
use mori.Prelude.{List, [], ◌∷◌, arith, ◌==◌, if◌then◌else◌}
use mori.Prelude.{Bool-cases, Option-cases, on_if}
use mori.Prelude.Int.{ℤ}
use mori.Awareness.Bounds.{apply_delta-InRange}
use mori.Prelude.{take, drop, take-append-drop, length-take}
use mori.Prelude.{All}
use mori.Prelude.{Bytes, same-cases, same_comm}
use mori.Prelude.Assoc.{lookup, remove, lookup-remove}
use mori.Prelude.Totals.{total, total-append, once, count}
use mori.Member.Types.{
  NodeStateType, state_alive, state_suspect, state_dead, state_left, node_state_type, NodeState,
  dead_or_left,
}
use mori.Member.Types.{DeadMsg, PushNodeState, no_notify, caller_notify, Config, Env, Memberlist}
use mori.Member.Nodes.{next_incarnation}
use mori.Member.Invariant.Defs.{NotSuspect, FitsAt, Inv}
use mori.Member.Invariant.Shared.{SameTables-Inv}
use mori.Member.Merge.{merge_entry}
use mori.Member.Lifecycle.{
  UpdateOutcome, commit_announcement, update_node, adjust_health, leave_context, is_reapable,
  remove_all, reset_nodes, shutdown, finish_shutdown,
}
use mori.Util.MoveDead.{move_dead_nodes}
use mori.Util.MoveDead.Partition.{move_dead_nodes_splits}
use mori.Util.Shuffle.{shuffle_nodes, total-shuffle_nodes, length-shuffle_nodes}
use mori.Member.Invariant.AliveKeeps.{alive_node_locked-Inv, alive_node-Inv}
use mori.Member.Invariant.DeadKeeps.{dead_node_locked-Inv, dead_node-Inv}
use mori.Member.Invariant.SuspectKeeps.{suspect_node-Inv}

module _ (cfg : Config) where
  pub merge_entry-Inv :
      (env : Env) (r : PushNodeState) (m : Memberlist)
      → Inv cfg.name m
      → Inv cfg.name (merge_entry cfg env r m)
  unfolding merge_entry
  merge_entry-Inv env r m h = go (node_state_type r.state) refl
    where
      go :
          (t : Option NodeStateType)
          → node_state_type r.state ≡ t
          → Inv cfg.name (merge_entry cfg env r m)
      go none e = rw (e, merge_entry) h
      go (some state_alive) e = rw (e, merge_entry) (alive_node-Inv cfg env _ false m h)
      go (some state_suspect) e = rw (e, merge_entry) (suspect_node-Inv cfg env _ m h)
      go (some state_dead) e = rw (e, merge_entry) (suspect_node-Inv cfg env _ m h)
      go (some state_left) e = rw (e, merge_entry) (dead_node-Inv cfg env _ m h)

  pub next_incarnation-Inv : (m : Memberlist) → Inv cfg.name m → Inv cfg.name (next_incarnation m).0
  unfolding next_incarnation
  next_incarnation-Inv m h = SameTables-Inv cfg.name (ground arith) h

  pub commit_announcement-Inv :
      (env : Env) (inc : ℕ) (addr : Bytes) (port : ℕ) (meta vsn : Bytes) (receipt : Bool)
      (m : Memberlist)
      → Inv cfg.name m
      → Inv cfg.name (commit_announcement cfg env inc addr port meta vsn receipt m).0
  unfolding commit_announcement
  commit_announcement-Inv env inc addr port meta vsn receipt m h =
      on_if (λ (x : Memberlist × Bool). Inv cfg.name x.0) m.shutdown (λ _. h)
        (λ _. alive_node_locked-Inv cfg env _ no_notify true receipt m h)

  pub update_node-Inv :
      (env : Env) (meta vsn : Bytes) (m : Memberlist)
      → Inv cfg.name m
      → Inv cfg.name (update_node cfg env meta vsn m).0
  unfolding update_node
  update_node-Inv env meta vsn m h = elim (Option-cases (lookup cfg.name m.node_map)) [
    | inl e ↦ rw (e, update_node) (ground (arith, h))
    | inr (s, e) ↦
        rw (e, update_node)
          (on_if (λ (x : Memberlist × UpdateOutcome). Inv cfg.name x.0) m.shutdown (λ _. h)
            (λ _.
              on_if (λ (x : Memberlist × UpdateOutcome). Inv cfg.name x.0) m.leave (λ _. h)
                (λ _.
                  alive_node_locked-Inv cfg env _ caller_notify true true (next_incarnation m).0
                    (next_incarnation-Inv m h))))
  ]

  pub adjust_health-Inv :
      (delta : ℤ) (m : Memberlist) → Inv cfg.name m → Inv cfg.name (adjust_health delta m)
  unfolding adjust_health
  adjust_health-Inv delta m h = record {
    fits = λ k. ground (arith, h.fits k);
    counted = h.counted;
    healthy = apply_delta-InRange delta m.awareness h.healthy;
    sealed_shut = h.sealed_shut;
  }

  pub leave_context-Inv :
      (env : Env) (m : Memberlist) → Inv cfg.name m → Inv cfg.name (leave_context cfg env m).0
  unfolding leave_context
  leave_context-Inv env m h = elim (Option-cases (lookup cfg.name m.node_map)) [
    | inl e ↦ rw (e, leave_context) (ground (arith, h))
    | inr (s, e) ↦
        let d : DeadMsg = record { incarnation = s.incarnation; node = s.name; from = s.name } in
        rw (e, leave_context)
          (ground (
            arith,
            h,
            dead_node_locked-Inv cfg env d true (record m { leave = true })
                (SameTables-Inv cfg.name {m = m} (ground arith) h),
          ))
  ]

  pub shutdown-Inv : (m : Memberlist) → Inv cfg.name m → Inv cfg.name (shutdown m)
  unfolding shutdown
  shutdown-Inv m h = record {
    fits = λ k. ground (arith, h.fits k);
    counted = h.counted;
    healthy = h.healthy;
    sealed_shut = λ e. refl;
  }

  pub finish_shutdown-Inv :
      (m : Memberlist) → m.shutdown ≡ true → Inv cfg.name m → Inv cfg.name (finish_shutdown m)
  unfolding finish_shutdown lookup
  finish_shutdown-Inv m e h = record {
    fits = λ k. ground (arith, h.fits k);
    counted = h.counted;
    healthy = h.healthy;
    sealed_shut = λ _. e;
  }

  lookup-remove_all_gone :
      (k : Bytes) (ks : List Bytes) (nm : List (Bytes × NodeState))
      → lookup k nm ≡ none
      → lookup k (remove_all ks nm) ≡ none
  unfolding remove_all
  lookup-remove_all_gone k [] nm h = h
  lookup-remove_all_gone k (j ∷ ks) nm h =
      lookup-remove_all_gone k ks (remove j nm) (ground (arith, lookup-remove j k nm))

  pub lookup-remove_all :
      (k : Bytes) (ks : List Bytes) (nm : List (Bytes × NodeState))
      → lookup k (remove_all ks nm) ≡ (if count k ks == 0 then lookup k nm else none)
  unfolding remove_all count
  lookup-remove_all k [] nm = refl
  lookup-remove_all k (j ∷ ks) nm = elim (same-cases j k) [
    | inl (e, _) ↦
        ground
          (arith, e, same_comm j k, lookup-remove j k nm, lookup-remove_all_gone k ks (remove j nm))
    | inr (e, _) ↦
        ground (arith, e, same_comm j k, lookup-remove j k nm, lookup-remove_all k ks (remove j nm))
  ]

  -- A name that occurs in a list of which every member passes a test passes it.
  pub test_of_count :
      (p : Bytes → Bool) (k : Bytes) (ks : List Bytes)
      → All (λ x. p x ≡ true) ks
      → count k ks ≢ 0
      → p k ≡ true
  unfolding count
  test_of_count p k [] h n = absurd (n refl)
  test_of_count p k (j ∷ ks) h n = elim (same-cases k j) [
    | inl (_, e) ↦ rw e h.0
    | inr (e, _) ↦ test_of_count p k ks h.1 (λ z. n (ground (arith, same_comm k j)))
  ]

  reapable_lem :
      (env : Env) (nm : List (Bytes × NodeState)) (k : Bytes)
      → is_reapable cfg env nm k ≡ true
      → lookup k nm ≢ none
      → (s : NodeState) × (lookup k nm ≡ some s) × (s.state ≢ state_suspect)
  unfolding is_reapable dead_or_left
  reapable_lem env nm k r n = elim (Option-cases (lookup k nm)) [
    | inl e ↦ absurd (n e)
    | inr (s, e) ↦ (s, e, ground arith)
  ]

  -- A name in the part that is cut off belongs to no suspect.
  cut-NotSuspect :
      (env : Env) (nm : List (Bytes × NodeState)) (k : Bytes) (ks : List Bytes)
      → All (λ x. is_reapable cfg env nm x ≡ true) ks
      → count k ks ≢ 0
      → NotSuspect (lookup k nm)
  cut-NotSuspect env nm k ks gone n = elim (Option-cases (lookup k nm)) [
    | inl e ↦ rw e tt
    | inr (s, e) ↦
        let (s', e', t) =
          reapable_lem env nm k (test_of_count (is_reapable cfg env nm) k ks gone n) (λ z. cc) in
        rw e' t
  ]

  module _ (env : Env) (draws : ℕ → ℕ) (ys : List Bytes) (idx : ℕ) (m : Memberlist) where
    parts_lem :
        (k : Bytes)
        → count k ys ≡ count k m.nodes
        → count k (shuffle_nodes draws (take idx ys)) + count k (drop idx ys) ≡ count k m.nodes
    unfolding count
    parts_lem k e = omega (
      arith,
      total-shuffle_nodes (once k) draws (take idx ys),
      total-append (once k) (take idx ys) (drop idx ys),
      ap (total (once k)) (take-append-drop idx ys),
    )

    reset-fits :
        (k : Bytes)
        → FitsAt cfg.name k m
        → count k ys ≡ count k m.nodes
        → All (λ x. is_reapable cfg env m.node_map x ≡ true) (drop idx ys)
        → FitsAt cfg.name k (record m {
          node_map = remove_all (drop idx ys) m.node_map;
          nodes = shuffle_nodes draws (take idx ys);
          num_nodes = idx % 2 ^ 32;
        })
    reset-fits k f same_count gone = elim (Bool-cases (count k (drop idx ys) == 0)) [
      | inl kept ↦
          let e : lookup k (remove_all (drop idx ys) m.node_map) ≡ lookup k m.node_map =
            lookup-remove_all k (drop idx ys) m.node_map ∙ rw kept in
          record {
            named = rw e f.named;
            listed = rw e (ground (arith, f.listed, parts_lem k same_count));
            timed = rw e f.timed;
            sure = rw e f.sure;
          }
      | inr cut ↦
          let e : lookup k (remove_all (drop idx ys) m.node_map) ≡ none =
            lookup-remove_all k (drop idx ys) m.node_map ∙ rw cut in
          let calm = cut-NotSuspect env m.node_map k (drop idx ys) gone (ground arith) in
          record {
            named = rw e tt;
            listed = rw e (ground (arith, f.listed, parts_lem k same_count));
            timed = rw e (ground (arith, calm, f));
            sure = λ _. rw e tt;
          }
    ]

  pub reset_nodes-Inv :
      (env : Env) (draws : ℕ → ℕ) (m : Memberlist)
      → Inv cfg.name m
      → Inv cfg.name (reset_nodes cfg env draws m)
  unfolding reset_nodes
  reset_nodes-Inv env draws m h =
      let p = is_reapable cfg env m.node_map in
      let ys = (move_dead_nodes p m.nodes).0 in
      let idx = (move_dead_nodes p m.nodes).1 in
      let (le, kept, gone, totals, len) = move_dead_nodes_splits p m.nodes in
      record {
        fits =
            λ k. reset-fits env draws ys idx m k (h.fits k) (unfold count in totals (once k)) gone;
        counted =
            ap (λ n. n % 2 ^ 32)
              (omega (arith, length-shuffle_nodes draws (take idx ys), length-take idx ys));
        healthy = h.healthy;
        sealed_shut = h.sealed_shut;
      }
