-- ===== src/Member/Invariant/Defs.antt =====
-- What ties `nodeMap`, `nodes`, `numNodes` and `nodeTimers` together, stated name by name.
use mori.Prelude.{ℕ, ◌%◌, ◌^◌, ◌≡◌}
use mori.Prelude.{◌≢◌, Bool, true, false, Option, none, some}
use mori.Prelude.{length}
use mori.Prelude.{Bytes, same}
use mori.Prelude.Assoc.{lookup}
use mori.Prelude.Totals.{count}
use mori.Suspicion.{Suspicion}
use mori.Member.Types.{state_suspect, NodeState}
use mori.Member.Types.{Memberlist}
use mori.Awareness.Bounds.{InRange}

-- A registered state carries the name that it is registered under.
abbrev pub NamedAs : Bytes → Option NodeState → Type 0
NamedAs k none = Unit {0}
NamedAs k (some s) = s.name ≡ k

abbrev pub registered : Option NodeState → ℕ
registered none = 0
registered (some s) = 1

-- A suspicion timer stands in the map exactly while its node is suspect. Once shutdown has cleared
-- the timers only one direction is left.
abbrev pub TimerFits : Bool → Option NodeState → Option Suspicion → Type 0
TimerFits _ none (some t) = ⊥
TimerFits _ none none = Unit {0}
TimerFits _ (some s) (some t) = s.state ≡ state_suspect
TimerFits false (some s) none = s.state ≢ state_suspect
TimerFits true (some s) none = Unit {0}

abbrev pub NotSuspect : Option NodeState → Type 0
NotSuspect none = Unit {0}
NotSuspect (some s) = s.state ≢ state_suspect

-- `self` is the local node's name: a node never suspects itself.
pub record FitsAt (self k : Bytes) (m : Memberlist) : Type 0 where
  pub named : NamedAs k (lookup k m.node_map)
  pub listed : count k m.nodes ≡ registered (lookup k m.node_map)
  pub timed : TimerFits m.events_sealed (lookup k m.node_map) (lookup k m.node_timers)
  pub sure : same self k ≡ true → NotSuspect (lookup k m.node_map)

pub record Inv (self : Bytes) (m : Memberlist) : Type 0 where
  pub fits : (k : Bytes) → FitsAt self k m
  pub counted : m.num_nodes ≡ length m.nodes % 2 ^ 32
  pub healthy : InRange m.awareness
  pub sealed_shut : m.events_sealed ≡ true → m.shutdown ≡ true
