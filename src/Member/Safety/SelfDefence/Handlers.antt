-- ===== src/Member/Safety/SelfDefence/Handlers.antt =====
-- The local node under each message and timer of state.go.
use mori.Prelude.{ℕ, ◌≡◌, refl, sym, ap, ◌∙◌}
use mori.Prelude.{◌≢◌, inl, inr, Bool, false, not, ◌&&◌, Option, none, some}
use mori.Prelude.{List, arith, ltb}
use mori.Prelude.{Option-cases, on_if}
use mori.Prelude.{Bytes, same, same→eq, same_iff, same-cases}
use mori.Prelude.Int.{ℤ}
use mori.Prelude.Assoc.{lookup, insert, lookup-insert}
use mori.Member.Types.{
  NodeStateType, state_alive, state_suspect, state_dead, state_left, node_state_type, NodeState,
  dead_or_left,
}
use mori.Member.Types.{
  AliveMsg, SuspectMsg, DeadMsg, PushNodeState, Notify, no_notify, Config, Env, Memberlist,
}
use mori.Member.Nodes.{put_state, clear_timer, queue_broadcast, refute_incarnation, refute}
use mori.Member.Alive.{new_state, alive_node_locked, alive_node}
use mori.Member.Dead.{mark_dead, commit_dead, dead_node_locked, dead_node}
use mori.Member.Invariant.Defs.{Inv}
use mori.Member.Suspect.{
  mark_suspect, start_suspicion, is_alive_state, suspect_node, is_suspect, same_time,
  suspicion_expired,
}
use mori.Member.Merge.{merge_entry}
use mori.Member.Effects.AliveEffect.{
  Change, unchanged, refuted, accepted, Outcome, on_known, on_new, alive_node_locked-Outcome,
}
use mori.Member.Effects.Edges.{state_of, state_at, refute-map, commit_dead-map, confirm_timer-map}

-- Alive stays alive at `k`.
abbrev pub StaysAlive : Bytes → Memberlist → Memberlist → Type 0
StaysAlive k m m' = state_at k m ≡ some state_alive → state_at k m' ≡ some state_alive

pub alive_entry :
    {o : Option NodeState}
    → state_of o ≡ some state_alive
    → (s : NodeState) × (o ≡ some s) × (s.state ≡ state_alive)
alive_entry {o = none} e = cc
alive_entry {o = some s} e = (s, refl, cc)

-- A write to the table keeps `k` alive if it writes elsewhere, or writes an alive state.
put-alive :
    (k key : Bytes) (s' : NodeState) (nm nm' : List (Bytes × NodeState))
    → nm' ≡ insert key s' nm
    → (key ≡ k → s'.state ≡ state_alive)
    → state_of (lookup k nm) ≡ some state_alive
    → state_of (lookup k nm') ≡ some state_alive
put-alive k key s' nm nm' e f h =
    rw (e, lookup-insert key k s' nm)
      (elim (same-cases key k) [ inl (t, p) ↦ rw t (ap some (f p)) | inr (t, p) ↦ rw t h ])

module _ (cfg : Config) (env : Env) where
  Change-alive :
      (a : AliveMsg) (k : Bytes) (m : Memberlist) {m' : Memberlist}
      → Change cfg env a m m'
      → StaysAlive k m m'
  Change-alive a k m (unchanged e) h = rw e h
  Change-alive a k m {m'} (refuted old inc known l e) h =
      put-alive k a.node (record old { incarnation = inc }) m.node_map m'.node_map e
        (λ p. ground (arith, rw p at known)) h
  Change-alive a k m {m'} (accepted old s' known al inc n f e) h =
      put-alive k a.node s' m.node_map m'.node_map e (λ p. al) h

  pub alive_node_locked-alive :
      (a : AliveMsg) (channel : Notify) (bootstrap r : Bool) (k : Bytes) (m : Memberlist)
      → StaysAlive k m (alive_node_locked cfg env a channel bootstrap r m)
  alive_node_locked-alive a channel bootstrap r k m =
      go (alive_node_locked-Outcome cfg env a channel bootstrap r m)
    where
      go : {m' : Memberlist} → Outcome cfg env a m m' → StaysAlive k m m'
      go (on_known c) h = Change-alive a k m c h
      go (on_new m1 v unknown e c) h = Change-alive a k m1 c (
          put-alive k a.node (new_state a v) m.node_map m1.node_map e
            (λ p. absurd (no_entry (rw p at unknown) h)) h)
        where
          no_entry : lookup k m.node_map ≡ none → state_at k m ≡ some state_alive → ⊥
          no_entry u x = ground (arith, u, x)

  pub alive_node-alive :
      (a : AliveMsg) (bootstrap : Bool) (k : Bytes) (m : Memberlist)
      → StaysAlive k m (alive_node cfg env a bootstrap m)
  unfolding alive_node
  alive_node-alive a bootstrap k m =
      on_if (StaysAlive k m) m.shutdown (λ _ h. h)
        (λ _. alive_node_locked-alive a no_notify bootstrap false k m)

  refute-alive :
      (key : Bytes) (s : NodeState) (accused : ℕ) (k : Bytes) (m m1 : Memberlist)
      → m1.node_map ≡ m.node_map
      → lookup key m.node_map ≡ some s
      → StaysAlive k m (refute cfg key s accused m1)
  refute-alive key s accused k m m1 e known h =
      put-alive k key (record s { incarnation = (refute_incarnation accused m1).1 }) m.node_map _
        (refute-map cfg env key s accused m1
          ∙ ap (insert key (record s { incarnation = (refute_incarnation accused m1).1 })) e)
        (λ p. ground (arith, rw p at known)) h

  -- The death of another node.
  commit_dead-alive :
      (d : DeadMsg) (channel : Notify) (r : Bool) (s : NodeState) (k : Bytes) (m m1 : Memberlist)
      → m1.node_map ≡ m.node_map
      → d.node ≢ k
      → StaysAlive k m (commit_dead cfg env d channel r s m1)
  commit_dead-alive d channel r s k m m1 e other h =
      put-alive k d.node (mark_dead env d s) m.node_map _
        (commit_dead-map cfg env d channel r s m1 ∙ ap (insert d.node (mark_dead env d s)) e)
        (λ p. absurd (other p)) h

  -- A dead message about another node, or about the local node while it has not left.
  dead_node_locked-alive :
      (d : DeadMsg) (r : Bool) (m : Memberlist)
      → Inv cfg.name m
      → (d.node ≡ cfg.name → m.leave ≡ false)
      → StaysAlive cfg.name m (dead_node_locked cfg env d r m)
  unfolding dead_node_locked clear_timer
  dead_node_locked-alive d r m inv stays = elim (Option-cases (lookup d.node m.node_map)) [
    | inl e ↦ rw (e, dead_node_locked) (λ h. h)
    | inr (s, e) ↦
        let m1 = clear_timer d.node m in
        let named : s.name ≡ d.node = ground (arith, inv.fits d.node) in
        rw (e, dead_node_locked)
          (on_if (StaysAlive cfg.name m) (ltb d.incarnation s.incarnation) (λ _ h. h)
            (λ _.
              on_if (StaysAlive cfg.name m) (dead_or_left s.state) (λ _ h. h)
                (λ _.
                  on_if (StaysAlive cfg.name m) (same s.name cfg.name)
                    (λ ours.
                      let us : d.node ≡ cfg.name = sym named ∙ same→eq s.name cfg.name ours in
                      on_if (StaysAlive cfg.name m) (not m.leave)
                        (λ _. refute-alive d.node s d.incarnation cfg.name m m1 refl e)
                        (λ gone. absurd (no_leave us gone)))
                    (λ theirs.
                      commit_dead-alive d no_notify r s cfg.name m m1 refl
                        (λ p. not_us named theirs p)))))
  ]
    where
      no_leave : d.node ≡ cfg.name → not m.leave ≡ false → ⊥
      no_leave us gone = ground (arith, stays us)

      not_us : {n : Bytes} → n ≡ d.node → same n cfg.name ≡ false → d.node ≡ cfg.name → ⊥
      not_us {n} a b c = ground (arith, same_iff n cfg.name)

  pub dead_node-alive :
      (d : DeadMsg) (m : Memberlist)
      → Inv cfg.name m
      → m.leave ≡ false
      → StaysAlive cfg.name m (dead_node cfg env d m)
  unfolding dead_node
  dead_node-alive d m inv stays =
      on_if (StaysAlive cfg.name m) m.shutdown (λ _ h. h)
        (λ _. dead_node_locked-alive d false m inv (λ _. stays))

  start_suspicion-alive :
      (s : SuspectMsg) (state : NodeState) (m : Memberlist)
      → s.node ≢ cfg.name
      → StaysAlive cfg.name m (start_suspicion cfg env s state m)
  unfolding start_suspicion put_state queue_broadcast
  start_suspicion-alive s state m other h =
      put-alive cfg.name s.node (mark_suspect env s state) m.node_map _ refl (λ p. absurd (other p))
        h

  pub suspect_node-alive :
      (s : SuspectMsg) (m : Memberlist)
      → Inv cfg.name m
      → StaysAlive cfg.name m (suspect_node cfg env s m)
  unfolding suspect_node
  suspect_node-alive s m inv = elim (Option-cases (lookup s.node m.node_map)) [
    | inl e ↦ rw (e, suspect_node) (on_if (StaysAlive cfg.name m) m.shutdown (λ _ h. h) (λ _ h. h))
    | inr (state, e) ↦ elim (Option-cases (lookup s.node m.node_timers)) [
      | inr (timer, f) ↦
          rw (e, f, suspect_node)
            (on_if (StaysAlive cfg.name m) m.shutdown (λ _ h. h)
              (λ _.
                on_if (StaysAlive cfg.name m) (ltb s.incarnation state.incarnation) (λ _ h. h)
                  (λ _ h. rw (confirm_timer-map cfg env s timer m) h)))
      | inl f ↦
          rw (e, f, suspect_node)
            (on_if (StaysAlive cfg.name m) m.shutdown (λ _ h. h)
              (λ _.
                on_if (StaysAlive cfg.name m) (ltb s.incarnation state.incarnation) (λ _ h. h)
                  (λ _.
                    on_if (StaysAlive cfg.name m) (not (is_alive_state state.state)) (λ _ h. h)
                      (λ _.
                        on_if (StaysAlive cfg.name m) (same state.name cfg.name)
                          (λ ours. refute-alive s.node state s.incarnation cfg.name m m refl e)
                          (λ theirs.
                            start_suspicion-alive s state m
                              (λ p. not_us (ground (arith, inv.fits s.node)) theirs p))))))
    ]
  ]
    where
      not_us : {n : Bytes} → n ≡ s.node → same n cfg.name ≡ false → s.node ≡ cfg.name → ⊥
      not_us {n} a b c = ground (arith, same_iff n cfg.name)

  pub suspicion_expired-alive :
      (node : Bytes) (t : ℤ) (m : Memberlist)
      → Inv cfg.name m
      → m.leave ≡ false
      → StaysAlive cfg.name m (suspicion_expired cfg env node t m)
  unfolding suspicion_expired
  suspicion_expired-alive node t m inv stays = elim (Option-cases (lookup node m.node_map)) [
    | inl e ↦
        rw (e, suspicion_expired) (on_if (StaysAlive cfg.name m) m.shutdown (λ _ h. h) (λ _ h. h))
    | inr (s, e) ↦
        rw (e, suspicion_expired)
          (on_if (StaysAlive cfg.name m) m.shutdown (λ _ h. h)
            (λ _.
              on_if (StaysAlive cfg.name m) (not (is_suspect s.state && same_time s.state_change t))
                (λ _ h. h)
                (λ _.
                  dead_node_locked-alive
                    (record { incarnation = s.incarnation; node = s.name; from = cfg.name }) false m
                    inv (λ _. stays))))
  ]

  pub merge_entry-alive :
      (r : PushNodeState) (m : Memberlist)
      → Inv cfg.name m
      → m.leave ≡ false
      → StaysAlive cfg.name m (merge_entry cfg env r m)
  unfolding merge_entry
  merge_entry-alive r m inv stays = go (node_state_type r.state) refl
    where
      go :
          (t : Option NodeStateType)
          → node_state_type r.state ≡ t
          → StaysAlive cfg.name m (merge_entry cfg env r m)
      go none e = rw (e, merge_entry) (λ h. h)
      go (some state_alive) e = rw (e, merge_entry) (alive_node-alive _ false cfg.name m)
      go (some state_suspect) e = rw (e, merge_entry) (suspect_node-alive _ m inv)
      go (some state_dead) e = rw (e, merge_entry) (suspect_node-alive _ m inv)
      go (some state_left) e = rw (e, merge_entry) (dead_node-alive _ m inv stays)
