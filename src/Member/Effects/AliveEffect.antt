-- ===== src/Member/Effects/AliveEffect.antt =====
-- The effect of `aliveNodeLocked` on `nodeMap`.
use mori.Prelude.{ℕ, ◌≤◌, ◌≡◌, refl, ◌∙◌}
use mori.Prelude.{◌⊎◌, inl, inr, Bool, true, false, not, ◌&&◌, ◌||◌, none, some}
use mori.Prelude.{arith, ltb, leb}
use mori.Prelude.{Option-cases, on_if}
use mori.Prelude.{same, same_refl}
use mori.Prelude.Assoc.{lookup, insert, lookup-insert}
use mori.Member.Types.{state_alive, Versions, NodeState, dead_or_left}
use mori.Member.Types.{AliveMsg, alive_msg, Notify, Config, Env, Memberlist}
use mori.Member.Nodes.{
  put_state, clear_timer, ip_allowed, queue_broadcast, enqueue_event, refute_incarnation, refute,
}
use mori.Member.Alive.{
  is_left, is_dead, check_alive, Admission, refused, admitted, new_state, add_node, admit_new,
  same_address, can_reclaim, report_conflict, admit_known, admit, accept_alive, notify_alive_event,
  agrees_with_us, commit_alive, alive_node_locked,
}

module _ (cfg : Config) (env : Env) (a : AliveMsg) where
  -- How the table may change: a refutation keeps all of a state but the incarnation; an accepted
  -- message is not older than what it replaces, unless a node that was dead or left came back under a
  -- new address.
  pub data Change (m m' : Memberlist) : Type 0 where
    unchanged : m'.node_map ≡ m.node_map → Change m m'
    refuted :
        (old : NodeState) (inc : ℕ)
        → lookup a.node m.node_map ≡ some old
        → same old.name cfg.name ≡ true
        → m'.node_map ≡ insert a.node (record old { incarnation = inc }) m.node_map
        → Change m m'
    accepted :
        (old s' : NodeState)
        → lookup a.node m.node_map ≡ some old
        → s'.state ≡ state_alive
        → s'.incarnation ≡ a.incarnation
        → s'.name ≡ old.name
        → (old.incarnation ≤ a.incarnation) ⊎ (dead_or_left old.state ≡ true)
        → m'.node_map ≡ insert a.node s' m.node_map
        → Change m m'

  notify-map :
      (old s : NodeState) (r : Bool) (m : Memberlist)
      → (notify_alive_event cfg old s r m).node_map ≡ m.node_map
  unfolding notify_alive_event enqueue_event
  notify-map old s r m = ground arith

  refute-map :
      (s : NodeState) (m : Memberlist)
      → (refute cfg a.node s a.incarnation (clear_timer a.node m)).node_map
        ≡ insert a.node
            (record s { incarnation = (refute_incarnation a.incarnation (clear_timer a.node m)).1 })
            m.node_map
  unfolding refute clear_timer
  refute-map s m = ground arith

  accept-map :
      (s : NodeState) (channel : Notify) (m : Memberlist)
      → let m1 = queue_broadcast a.node (alive_msg a) channel (clear_timer a.node m) in
        (put_state a.node s m1).node_map ≡ insert a.node s m.node_map
  unfolding put_state queue_broadcast clear_timer
  accept-map s channel m = refl

  module _ (s : NodeState) (m : Memberlist) (known : lookup a.node m.node_map ≡ some s) where
    kept-Change : Change m m
    kept-Change = unchanged refl

    cleared-Change : Change m (clear_timer a.node m)
    unfolding clear_timer
    cleared-Change = unchanged refl

    refuted-Change :
        (receipt : Bool)
        → same s.name cfg.name ≡ true
        → Change m (
            notify_alive_event cfg s s receipt
              (refute cfg a.node s a.incarnation (clear_timer a.node m)))
    refuted-Change receipt l = refuted s _ known l (notify-map s s receipt _ ∙ refute-map s m)

    accepted-Change :
        (v : Versions) (channel : Notify) (receipt : Bool)
        → (s.incarnation ≤ a.incarnation) ⊎ (dead_or_left s.state ≡ true)
        → Change m (
            notify_alive_event cfg s (accept_alive env a v s) receipt (
              put_state a.node
                (accept_alive env a v s)
                (queue_broadcast a.node (alive_msg a) channel (clear_timer a.node m))))
    accepted-Change v channel receipt fresh =
        accepted s (accept_alive env a v s) known (unfold accept_alive in ground arith)
          (unfold accept_alive in ground arith) (unfold accept_alive in ground arith) fresh
          (notify-map s (accept_alive env a v s) receipt _
            ∙ accept-map (accept_alive env a v s) channel m)

    fresh-Change :
        (v : Versions) (channel : Notify) (receipt : Bool)
        → s.incarnation ≤ a.incarnation
        → Change m (
            notify_alive_event cfg s (accept_alive env a v s) receipt (
              put_state a.node
                (accept_alive env a v s)
                (queue_broadcast a.node (alive_msg a) channel (clear_timer a.node m))))
    fresh-Change v channel receipt p = accepted-Change v channel receipt (inl p)

    back-Change :
        (v : Versions) (channel : Notify) (receipt : Bool)
        → dead_or_left s.state ≡ true
        → Change m (
            notify_alive_event cfg s (accept_alive env a v s) receipt (
              put_state a.node
                (accept_alive env a v s)
                (queue_broadcast a.node (alive_msg a) channel (clear_timer a.node m))))
    back-Change v channel receipt p = accepted-Change v channel receipt (inr p)

    commit_alive-Change :
        (v : Versions) (channel : Notify) (bootstrap receipt updates : Bool)
        → (updates ≡ true → dead_or_left s.state ≡ true)
        → Change m (commit_alive cfg env a v channel bootstrap receipt s updates m)
    unfolding commit_alive
    commit_alive-Change v channel bootstrap receipt updates u =
        on_if (Change m)
          (leb a.incarnation s.incarnation && not (same s.name cfg.name) && not updates)
          (λ stale. kept-Change)
          (λ fresh.
            on_if (Change m) (ltb a.incarnation s.incarnation && same s.name cfg.name)
              (λ old. kept-Change)
              (λ new.
                on_if (Change m) (not bootstrap && same s.name cfg.name)
                  (λ ours.
                    on_if (Change m) (agrees_with_us a v s) (λ agrees. cleared-Change)
                      (λ differs. refuted-Change receipt (ground arith)))
                  (λ theirs. accepted-Change v channel receipt (not_older fresh new))))
      where
        not_older :
            leb a.incarnation s.incarnation && not (same s.name cfg.name) && not updates ≡ false
            → ltb a.incarnation s.incarnation && same s.name cfg.name ≡ false
            → (s.incarnation ≤ a.incarnation) ⊎ (dead_or_left s.state ≡ true)
        not_older fresh new = ground arith

  -- A name that is not known is first registered as dead, at incarnation 0.
  pub data Outcome (m m' : Memberlist) : Type 0 where
    on_known : Change m m' → Outcome m m'
    on_new :
        (m1 : Memberlist) (v : Versions)
        → lookup a.node m.node_map ≡ none
        → m1.node_map ≡ insert a.node (new_state a v) m.node_map
        → Change m1 m'
        → Outcome m m'

  -- What `admit` hands on.
  data Entry (m : Memberlist) : Admission → Type 0 where
    stopped : (m' : Memberlist) → m'.node_map ≡ m.node_map → Entry m (refused m')
    found :
        (s : NodeState) (updates : Bool)
        → lookup a.node m.node_map ≡ some s
        → (updates ≡ true → dead_or_left s.state ≡ true)
        → Entry m (admitted m s updates)
    registered :
        (m1 : Memberlist) (v : Versions)
        → lookup a.node m.node_map ≡ none
        → m1.node_map ≡ insert a.node (new_state a v) m.node_map
        → Entry m (admitted m1 (new_state a v) false)

  conflict-map :
      (s : NodeState) (m : Memberlist) → (report_conflict cfg s a m).node_map ≡ m.node_map
  unfolding report_conflict enqueue_event
  conflict-map s m = ground arith

  admit_known-Entry :
      (s : NodeState) (m : Memberlist)
      → lookup a.node m.node_map ≡ some s
      → Entry m (admit_known cfg env a s m)
  unfolding admit_known dead_or_left
  admit_known-Entry s m known =
      on_if (Entry m) (same_address s a) (λ p. found s false known (λ e. cc))
        (λ p.
          on_if (Entry m) (not (ip_allowed cfg a.addr)) (λ q. stopped m refl)
            (λ q.
              on_if (Entry m) (is_left s.state || (is_dead s.state && can_reclaim cfg env s))
                (λ r. found s true known (λ _. gone r))
                (λ r. stopped (report_conflict cfg s a m) (conflict-map s m))))
    where
      gone :
          is_left s.state || (is_dead s.state && can_reclaim cfg env s) ≡ true
          → dead_or_left s.state ≡ true
      gone r = ground arith

  admit-Entry : (v : Versions) (m : Memberlist) → Entry m (admit cfg env a v m)
  unfolding admit admit_new add_node put_state
  admit-Entry v m = elim (Option-cases (lookup a.node m.node_map)) [
    | inl e ↦
        rw (e, admit)
          (on_if (Entry m) (not (ip_allowed cfg a.addr)) (λ q. stopped m refl)
            (λ q. registered (add_node env a.node (new_state a v) m) v e refl))
    | inr (s, e) ↦ rw (e, admit) (admit_known-Entry s m e)
  ]

  after_entry :
      (v : Versions) (channel : Notify) (bootstrap receipt : Bool) (m : Memberlist) {r : Admission}
      → Entry m r
      → Outcome m (elim r [
        | refused m' ↦ m'
        | admitted m' s updates ↦ commit_alive cfg env a v channel bootstrap receipt s updates m'
      ])
  after_entry v channel bootstrap receipt m (stopped m' e) = on_known (unchanged e)
  after_entry v channel bootstrap receipt m (found s updates known u) =
      on_known (commit_alive-Change s m known v channel bootstrap receipt updates u)
  after_entry v channel bootstrap receipt m (registered m1 v' unknown e) = on_new m1 v' unknown e (
      commit_alive-Change (new_state a v') m1
        (rw (e, lookup-insert a.node a.node (new_state a v') m.node_map, same_refl a.node)) v
        channel bootstrap receipt false (λ f. cc))

  -- Every alive message ends in one of these ways.
  pub alive_node_locked-Outcome :
      (channel : Notify) (bootstrap receipt : Bool) (m : Memberlist)
      → Outcome m (alive_node_locked cfg env a channel bootstrap receipt m)
  unfolding alive_node_locked
  alive_node_locked-Outcome channel bootstrap receipt m =
      elim (Option-cases (check_alive cfg a bootstrap m)) [
        | inl e ↦ rw (e, alive_node_locked) (on_known (unchanged refl))
        | inr (v, e) ↦
            rw (e, alive_node_locked) (after_entry v channel bootstrap receipt m (admit-Entry v m))
      ]
