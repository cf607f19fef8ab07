-- ===== src/Member/Invariant/Shared.antt =====
-- How the shared operations of Nodes.antt act on the invariant.
use mori.Prelude.{ℕ, ◌+◌, ◌≡◌}
use mori.Prelude.{◌≢◌, Bool, Option, none, some}
use mori.Prelude.{List, [], ◌∷◌, ◌++◌, arith}
use mori.Prelude.{length, length-append}
use mori.Prelude.{Bytes, same_iff}
use mori.Prelude.Int.{pos}
use mori.Prelude.Assoc.{lookup, insert, lookup-insert, lookup-remove}
use mori.Prelude.Totals.{swap, total-append, total-swap, length-swap, once, count}
use mori.Awareness.{apply_delta}
use mori.Member.Types.{state_suspect, Node, NodeState}
use mori.Member.Types.{Message, Notify, EventKind, Config, Env, Memberlist}
use mori.Member.Nodes.{
  put_state, clear_timer, random_offset, queue_broadcast, enqueue_event, refute_incarnation, refute,
}
use mori.Awareness.Bounds.{apply_delta-InRange}
use mori.Member.Alive.{add_node}
use mori.Member.Invariant.Defs.{Inv}

-- The parts of a memberlist that the invariant reads.
pub record SameTables (m m' : Memberlist) : Type 0 where
  pub same_map : m'.node_map ≡ m.node_map
  pub same_nodes : m'.nodes ≡ m.nodes
  pub same_timers : m'.node_timers ≡ m.node_timers
  pub same_num : m'.num_nodes ≡ m.num_nodes
  pub same_health : m'.awareness ≡ m.awareness
  pub same_sealed : m'.events_sealed ≡ m.events_sealed
  pub same_shutdown : m'.shutdown ≡ m.shutdown

pub queue_broadcast-SameTables :
    (node : Bytes) (msg : Message) (n : Notify) (m : Memberlist)
    → SameTables m (queue_broadcast node msg n m)
unfolding queue_broadcast
queue_broadcast-SameTables node msg n m = ground arith

pub enqueue_event-SameTables :
    (kind : EventKind) (node : Node) (other : Option Node) (r : Bool) (m : Memberlist)
    → SameTables m (enqueue_event kind node other r m)
unfolding enqueue_event
enqueue_event-SameTables kind node other r m = ground arith

module _ (self : Bytes) where
  pub SameTables-Inv : {m m' : Memberlist} → SameTables m m' → Inv self m → Inv self m'
  SameTables-Inv {m} {m'} t h = record {
    fits = λ k. ground (arith, h.fits k);
    counted = ground arith;
    healthy = ground (arith, h.healthy);
    sealed_shut = ground arith;
  }

  pub queue_broadcast-Inv :
      (node : Bytes) (msg : Message) (n : Notify) (m : Memberlist)
      → Inv self m
      → Inv self (queue_broadcast node msg n m)
  queue_broadcast-Inv node msg n m = SameTables-Inv (queue_broadcast-SameTables node msg n m)

  pub enqueue_event-Inv :
      (kind : EventKind) (node : Node) (other : Option Node) (r : Bool) (m : Memberlist)
      → Inv self m
      → Inv self (enqueue_event kind node other r m)
  enqueue_event-Inv kind node other r m =
      SameTables-Inv (enqueue_event-SameTables kind node other r m)

  -- The timer of a node that is not suspect is cleared: there is none.
  pub clear_timer-Inv :
      (key : Bytes) (m : Memberlist) {s : NodeState}
      → lookup key m.node_map ≡ some s
      → s.state ≢ state_suspect
      → Inv self m
      → Inv self (clear_timer key m)
  unfolding clear_timer
  clear_timer-Inv key m e n h = record {
    fits = λ k.
        ground (arith, h.fits k, h.fits key, same_iff key k, lookup-remove key k m.node_timers);
    counted = ground (arith, h.counted);
    healthy = ground (arith, h.healthy);
    sealed_shut = ground (arith, h.sealed_shut);
  }

-- A registered node's state is replaced: it keeps its name.
module _ (self key : Bytes) (s : NodeState) (m : Memberlist) where
  -- The timer fits the new state.
  pub put_state-Inv :
      (old : NodeState)
      → lookup key m.node_map ≡ some old
      → s.name ≡ old.name
      → s.state ≡ old.state
      → Inv self m
      → Inv self (put_state key s m)
  unfolding put_state
  put_state-Inv old e n t h = record {
    fits = λ k. ground (
      arith,
      h.fits k,
      h.fits key,
      same_iff key k,
      same_iff self k,
      lookup-insert key k s m.node_map,
    );
    counted = ground (arith, h.counted);
    healthy = ground (arith, h.healthy);
    sealed_shut = ground (arith, h.sealed_shut);
  }

  -- The new state is not suspect, and the timer is cleared.
  pub settle-Inv :
      (old : NodeState)
      → lookup key m.node_map ≡ some old
      → s.name ≡ old.name
      → s.state ≢ state_suspect
      → Inv self m
      → Inv self (put_state key s (clear_timer key m))
  unfolding put_state clear_timer
  settle-Inv old e n t h = record {
    fits = λ k. ground (
      arith,
      h.fits k,
      h.fits key,
      same_iff key k,
      same_iff self k,
      lookup-insert key k s m.node_map,
      lookup-remove key k m.node_timers,
    );
    counted = ground (arith, h.counted);
    healthy = ground (arith, h.healthy);
    sealed_shut = ground (arith, h.sealed_shut);
  }

module _ (cfg : Config) (key : Bytes) (me : NodeState) (accused : ℕ) (m : Memberlist) where
  refute-tables :
      let m' = refute cfg key me accused m in
      let inc = (refute_incarnation accused m).1 in
      (m'.node_map ≡ insert key (record me { incarnation = inc }) m.node_map)
      × (m'.nodes ≡ m.nodes)
      × (m'.node_timers ≡ m.node_timers)
      × (m'.num_nodes ≡ m.num_nodes)
      × (m'.awareness ≡ apply_delta (pos 1) m.awareness)
      × (m'.events_sealed ≡ m.events_sealed)
      × (m'.shutdown ≡ m.shutdown)
  unfolding refute
  refute-tables = ground arith

  -- A refutation changes the incarnation of the accused state, and the health.
  pub refute-Inv :
      lookup key m.node_map ≡ some me → Inv cfg.name m → Inv cfg.name (refute cfg key me accused m)
  refute-Inv e h =
      let inc = (refute_incarnation accused m).1 in
      let t = refute-tables in
      record {
        fits = λ k. ground (
          arith,
          t,
          h.fits k,
          h.fits key,
          same_iff key k,
          same_iff cfg.name k,
          lookup-insert key k (record me { incarnation = inc }) m.node_map,
        );
        counted = ground (arith, t, h.counted);
        healthy = ground (arith, t, apply_delta-InRange (pos 1) m.awareness h.healthy);
        sealed_shut = ground (arith, t, h.sealed_shut);
      }

count-add :
    (k name : Bytes) (i : ℕ) (xs : List Bytes)
    → count k (swap i (length xs) (xs ++ (name ∷ []))) ≡ count k xs + once k name
unfolding count
count-add k name i xs = omega (
  arith,
  total-swap (once k) i (length xs) (xs ++ (name ∷ [])),
  total-append (once k) xs (name ∷ []),
)

length-add :
    (name : Bytes) (i : ℕ) (xs : List Bytes)
    → length (swap i (length xs) (xs ++ (name ∷ []))) ≡ length xs + 1
length-add name i xs =
    omega (arith, length-swap i (length xs) (xs ++ (name ∷ [])), length-append xs (name ∷ []))

-- An unknown node is registered.
pub add_node-Inv :
    (self : Bytes) (env : Env) (name : Bytes) (s : NodeState) (m : Memberlist)
    → lookup name m.node_map ≡ none
    → s.name ≡ name
    → s.state ≢ state_suspect
    → Inv self m
    → Inv self (add_node env name s m)
unfolding add_node put_state
add_node-Inv self env name s m e n t h =
    let i = random_offset (length m.nodes) env.rand in
    record {
      fits = λ k. ground (
        arith,
        h.fits k,
        h.fits name,
        same_iff name k,
        same_iff k name,
        same_iff self k,
        lookup-insert name k s m.node_map,
        count-add k name i m.nodes,
      );
      counted = ground (arith, h.counted, length-add name i m.nodes);
      healthy = ground (arith, h.healthy);
      sealed_shut = ground (arith, h.sealed_shut);
    }
