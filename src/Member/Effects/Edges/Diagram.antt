-- ===== src/Member/Effects/Edges/Diagram.antt =====
-- The diagram of the states, and an alive message on it.
use mori.Prelude.{◌≡◌, refl}
use mori.Prelude.{inl, inr, Bool, true, false, Option, none, some}
use mori.Prelude.{arith}
use mori.Prelude.{Bytes, same-cases}
use mori.Prelude.Assoc.{lookup, insert, lookup-insert}
use mori.Member.Types.{
  NodeStateType, state_alive, state_suspect, state_dead, state_left, Versions, NodeState,
}
use mori.Member.Types.{AliveMsg, Notify, Config, Env, Memberlist}
use mori.Member.Alive.{new_state, alive_node_locked}
use mori.Member.Effects.AliveEffect.{
  Change, unchanged, refuted, accepted, Outcome, on_known, on_new, alive_node_locked-Outcome,
}

abbrev pub state_of : Option NodeState → Option NodeStateType
state_of none = none
state_of (some s) = some s.state

-- The state that `m` holds under a name, if any.
abbrev pub state_at : Bytes → Memberlist → Option NodeStateType
state_at k m = state_of (lookup k m.node_map)

-- The edges: a node is registered as alive, or as dead if its first message has incarnation 0; an
-- alive node may be suspected, die or leave; a suspect one may be cleared, die or leave; and a dead or
-- left node may only come back to life.
unfoldable pub edge : Option NodeStateType → Option NodeStateType → Bool
edge none none = true
edge none (some state_alive) = true
edge none (some state_dead) = true
edge none _ = false
edge (some s) none = false
edge (some state_alive) (some t) = true
edge (some state_suspect) (some t) = true
edge (some state_dead) (some state_dead) = true
edge (some state_left) (some state_left) = true
edge (some s) (some state_alive) = true
edge (some state_dead) _ = false
edge (some state_left) _ = false

pub edge_refl : (o : Option NodeStateType) → edge o o ≡ true
unfolding edge
edge_refl o = ground arith

edge-alive : (o : Option NodeStateType) → edge o (some state_alive) ≡ true
unfolding edge
edge-alive o = ground arith

module _ (cfg : Config) (env : Env) (a : AliveMsg) where
  Change-edge :
      {m m' : Memberlist} (k : Bytes)
      → Change cfg env a m m'
      → edge (state_at k m) (state_at k m') ≡ true
  Change-edge {m} {m'} k (unchanged e) = rw e (edge_refl (state_at k m))
  Change-edge {m} {m'} k (refuted old inc known l e) =
      rw (e, lookup-insert a.node k (record old { incarnation = inc }) m.node_map)
        (elim (same-cases a.node k) [
          | inl (t, p) ↦ rw (t, ← p, known) (edge_refl (some old.state))
          | inr (t, p) ↦ rw t (edge_refl (state_at k m))
        ])
  Change-edge {m} {m'} k (accepted old s' known al inc n f e) =
      rw (e, lookup-insert a.node k s' m.node_map)
        (elim (same-cases a.node k) [
          | inl (t, p) ↦ rw (t, al) (edge-alive (state_at k m))
          | inr (t, p) ↦ rw t (edge_refl (state_at k m))
        ])

  on_new-edge :
      (m : Memberlist) {m1 m' : Memberlist} (k : Bytes) (v : Versions)
      → lookup a.node m.node_map ≡ none
      → m1.node_map ≡ insert a.node (new_state a v) m.node_map
      → Change cfg env a m1 m'
      → edge (state_at k m) (state_at k m') ≡ true
  unfolding edge new_state
  on_new-edge m {m1} {m'} k v unknown e c = elim (same-cases a.node k) [
    | inl (t, p) ↦
        let was_dead : state_at k m1 ≡ some state_dead =
          rw (e, lookup-insert a.node k (new_state a v) m.node_map, t) refl in
        let before : state_at k m ≡ none = rw (← p, unknown) refl in
        ground (arith, was_dead, before, Change-edge k c)
    | inr (t, p) ↦
        let same_entry : state_at k m1 ≡ state_at k m =
          rw (e, lookup-insert a.node k (new_state a v) m.node_map, t) refl in
        rw (← same_entry) (Change-edge k c)
  ]

  Outcome-edge :
      {m m' : Memberlist} (k : Bytes)
      → Outcome cfg env a m m'
      → edge (state_at k m) (state_at k m') ≡ true
  Outcome-edge k (on_known c) = Change-edge k c
  Outcome-edge {m} k (on_new m1 v unknown e c) = on_new-edge m k v unknown e c

  pub alive_node_locked-edge :
      (channel : Notify) (bootstrap receipt : Bool) (m : Memberlist) (k : Bytes)
      → edge (state_at k m) (state_at k (alive_node_locked cfg env a channel bootstrap receipt m))
        ≡ true
  alive_node_locked-edge channel bootstrap receipt m k =
      Outcome-edge k (alive_node_locked-Outcome cfg env a channel bootstrap receipt m)
