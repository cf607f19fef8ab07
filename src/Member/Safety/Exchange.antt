-- ===== src/Member/Safety/Exchange.antt =====
-- `mergeState`: what a push/pull exchange may do to the others.
use mori.Prelude.{ℕ, ◌+◌, ◌≡◌, refl}
use mori.Prelude.{inl, inr, Bool, true, false, not, Option, none, some}
use mori.Prelude.{List, [], ◌∷◌, arith, ltb, ◌==◌}
use mori.Prelude.{Option-cases, on_if}
use mori.Prelude.{All}
use mori.Prelude.{Bytes, same, same-cases}
use mori.Prelude.Assoc.{lookup, insert, lookup-insert}
use mori.Member.Types.{
  NodeStateType, state_alive, state_suspect, state_dead, state_left, node_state_type, NodeState,
}
use mori.Member.Types.{AliveMsg, SuspectMsg, PushNodeState, no_notify, Config, Env, Memberlist}
use mori.Member.Nodes.{put_state, queue_broadcast, refute_incarnation, refute}
use mori.Member.Alive.{new_state, alive_node}
use mori.Member.Suspect.{mark_suspect, start_suspicion, is_alive_state, suspect_node}
use mori.Member.Merge.{merge_entry, merge_state}
use mori.Member.Effects.AliveEffect.{
  Change, unchanged, refuted, accepted, Outcome, on_known, on_new, alive_node_locked-Outcome,
}
use mori.Member.Effects.Edges.{state_of, state_at, refute-map, confirm_timer-map}

-- A node that takes part: alive or only suspected.
unfoldable pub is_live : Option NodeStateType → Bool
is_live (some state_alive) = true
is_live (some state_suspect) = true
is_live _ = false

abbrev StaysLive : Bytes → Memberlist → Memberlist → Type 0
StaysLive k m m' = is_live (state_at k m) ≡ true → is_live (state_at k m') ≡ true

put-live :
    (k key : Bytes) (s' : NodeState) (nm nm' : List (Bytes × NodeState))
    → nm' ≡ insert key s' nm
    → (key ≡ k → is_live (some s'.state) ≡ true)
    → is_live (state_of (lookup k nm)) ≡ true
    → is_live (state_of (lookup k nm')) ≡ true
put-live k key s' nm nm' e f h =
    rw (e, lookup-insert key k s' nm)
      (elim (same-cases key k) [ inl (t, p) ↦ rw t (f p) | inr (t, p) ↦ rw t h ])

-- The entry says nothing of a node that left.
unfoldable pub not_left : PushNodeState → Bool
not_left r = not (r.state == 3)

module _ (cfg : Config) (env : Env) (k : Bytes) (m : Memberlist) where
  Change-live :
      (a : AliveMsg) (m1 : Memberlist) {m' : Memberlist}
      → Change cfg env a m1 m'
      → StaysLive k m1 m'
  Change-live a m1 (unchanged e) h = rw e h
  Change-live a m1 {m'} (refuted old inc known l e) h =
      put-live k a.node (record old { incarnation = inc }) m1.node_map m'.node_map e
        (λ p. still p h) h
    where
      still : a.node ≡ k → is_live (state_at k m1) ≡ true → is_live (some old.state) ≡ true
      still p g = rw (rw p at known) at g
  Change-live a m1 {m'} (accepted old s' known al inc n f e) h =
      put-live k a.node s' m1.node_map m'.node_map e (λ p. unfold is_live in rw al) h

  alive_node-live : (a : AliveMsg) (b : Bool) → StaysLive k m (alive_node cfg env a b m)
  unfolding alive_node
  alive_node-live a b =
      on_if (StaysLive k m) m.shutdown (λ _ h. h)
        (λ _. go (alive_node_locked-Outcome cfg env a no_notify b false m))
    where
      no_entry : lookup k m.node_map ≡ none → is_live (state_at k m) ≡ true → ⊥
      no_entry u x = unfold is_live in ground (arith, u, x)

      go : {m' : Memberlist} → Outcome cfg env a m m' → StaysLive k m m'
      go (on_known c) h = Change-live a m c h
      go (on_new m1 v unknown e c) h = Change-live a m1 c (
          put-live k a.node (new_state a v) m.node_map m1.node_map e
            (λ p. absurd (no_entry (rw p at unknown) h)) h)

  refute-live :
      (key : Bytes) (s : NodeState) (accused : ℕ)
      → lookup key m.node_map ≡ some s
      → StaysLive k m (refute cfg key s accused m)
  refute-live key s accused known h =
      put-live k key (record s { incarnation = (refute_incarnation accused m).1 }) m.node_map _
        (refute-map cfg env key s accused m) (λ p. still p h) h
    where
      still : key ≡ k → is_live (state_at k m) ≡ true → is_live (some s.state) ≡ true
      still p g = rw (rw p at known) at g

  start_suspicion-live :
      (s : SuspectMsg) (state : NodeState) → StaysLive k m (start_suspicion cfg env s state m)
  unfolding start_suspicion put_state queue_broadcast
  start_suspicion-live s state h =
      put-live k s.node (mark_suspect env s state) m.node_map _ refl
        (λ p. unfold mark_suspect is_live in refl) h

  suspect_node-live : (s : SuspectMsg) → StaysLive k m (suspect_node cfg env s m)
  unfolding suspect_node
  suspect_node-live s = elim (Option-cases (lookup s.node m.node_map)) [
    | inl e ↦ rw (e, suspect_node) (on_if (StaysLive k m) m.shutdown (λ _ h. h) (λ _ h. h))
    | inr (state, e) ↦ elim (Option-cases (lookup s.node m.node_timers)) [
      | inr (timer, f) ↦
          rw (e, f, suspect_node)
            (on_if (StaysLive k m) m.shutdown (λ _ h. h)
              (λ _.
                on_if (StaysLive k m) (ltb s.incarnation state.incarnation) (λ _ h. h)
                  (λ _ h. rw (confirm_timer-map cfg env s timer m) h)))
      | inl f ↦
          rw (e, f, suspect_node)
            (on_if (StaysLive k m) m.shutdown (λ _ h. h)
              (λ _.
                on_if (StaysLive k m) (ltb s.incarnation state.incarnation) (λ _ h. h)
                  (λ _.
                    on_if (StaysLive k m) (not (is_alive_state state.state)) (λ _ h. h)
                      (λ _.
                        on_if (StaysLive k m) (same state.name cfg.name)
                          (λ ours. refute-live s.node state s.incarnation e)
                          (λ theirs. start_suspicion-live s state)))))
    ]
  ]

  merge_entry-live :
      (r : PushNodeState) → not_left r ≡ true → StaysLive k m (merge_entry cfg env r m)
  unfolding merge_entry
  merge_entry-live r n = go (node_state_type r.state) refl
    where
      left_is_3 : (t : ℕ) → node_state_type t ≡ some state_left → t ≡ 3
      left_is_3 t e = unfold node_state_type in ground (arith, e)

      go :
          (t : Option NodeStateType)
          → node_state_type r.state ≡ t
          → StaysLive k m (merge_entry cfg env r m)
      go none e = rw (e, merge_entry) (λ h. h)
      go (some state_alive) e = rw (e, merge_entry) (alive_node-live _ false)
      go (some state_suspect) e = rw (e, merge_entry) (suspect_node-live _)
      go (some state_dead) e = rw (e, merge_entry) (suspect_node-live _)
      go (some state_left) e = absurd (unfold not_left in ground (arith, left_is_3 r.state e, n))

-- A state exchange in which no entry is of a node that left kills nobody: a node that was alive or
-- suspect is so afterwards, even if the remote side holds it dead.
pub merge_state-live :
    (cfg : Config) (env : ℕ → Env) (k : Bytes) (remote : List PushNodeState) (m : Memberlist)
    → All (λ r. not_left r ≡ true) remote
    → is_live (state_at k m) ≡ true
    → is_live (state_at k (merge_state cfg env remote m)) ≡ true
unfolding merge_state
merge_state-live cfg env k [] m n h = h
merge_state-live cfg env k (r ∷ rs) m (n, ns) h =
    merge_state-live cfg (λ i. env (i + 1)) k rs (merge_entry cfg (env 0) r m) ns
      (merge_entry-live cfg (env 0) k m r n h)
