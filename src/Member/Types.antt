-- ===== src/Member/Types.antt =====
-- The types of state.go and memberlist.go. A Go pointer to a `nodeState` is the name that it is
-- registered under, which never changes: `node_map` holds the states, and `nodes` lists the names in
-- the slice's order. Times and durations of the configuration are numbers of nanoseconds.
use mori.Prelude.{ℕ, zero, suc}
use mori.Prelude.{Bool, true, false, ◌&&◌, Option, none, some}
use mori.Prelude.{List, [], ◌∷◌, ◌==◌}
use mori.Prelude.{Bytes}
use mori.Prelude.Int.{ℤ}
use mori.Awareness.{Awareness}
use mori.Suspicion.{Suspicion, TimerEffect}

pub data NodeStateType : Type 0 where
  state_alive state_suspect state_dead state_left : NodeStateType

-- `NodeStateType(r.State)` for a number from the network; others are no constant of the type.
unfoldable pub node_state_type : ℕ → Option NodeStateType
node_state_type zero = some state_alive
node_state_type (suc zero) = some state_suspect
node_state_type (suc (suc zero)) = some state_dead
node_state_type (suc (suc (suc zero))) = some state_left
node_state_type (suc (suc (suc (suc n)))) = none

-- `[vsnLen]uint8`, and the six version fields of a `Node`.
pub record Versions : Type 0 where
  pub pmin : ℕ
  pub pmax : ℕ
  pub pcur : ℕ
  pub dmin : ℕ
  pub dmax : ℕ
  pub dcur : ℕ

abbrev pub zero_versions : Versions
zero_versions = record { pmin = 0; pmax = 0; pcur = 0; dmin = 0; dmax = 0; dcur = 0 }

-- `vsn == versions` on arrays.
unfoldable pub same_versions : Versions → Versions → Bool
same_versions v w =
    v.pmin == w.pmin
    && v.pmax == w.pmax
    && v.pcur == w.pcur
    && v.dmin == w.dmin
    && v.dmax == w.dmax
    && v.dcur == w.dcur

-- `none` is the malformed vector, `ok == false`.
unfoldable pub parse_vsn : Bytes → Option Versions
parse_vsn [] = some zero_versions
parse_vsn (a ∷ b ∷ c ∷ d ∷ e ∷ f ∷ _) =
    some (record { pmin = a; pmax = b; pcur = c; dmin = d; dmax = e; dcur = f })
parse_vsn _ = none

-- `Node` and `nodeState`.
pub record Node : Type 0 where
  pub name : Bytes
  pub addr : Bytes
  pub port : ℕ
  pub meta : Bytes
  pub state : NodeStateType
  pub vsn : Versions

pub record NodeState : Type 0 where
  pub name : Bytes
  pub addr : Bytes
  pub port : ℕ
  pub meta : Bytes
  pub state : NodeStateType
  pub vsn : Versions
  pub incarnation : ℕ  -- uint32
  pub state_change : ℤ

abbrev pub node_of : NodeState → Node
node_of s = record {
  name = s.name;
  addr = s.addr;
  port = s.port;
  meta = s.meta;
  state = s.state;
  vsn = s.vsn;
}

unfoldable pub dead_or_left : NodeStateType → Bool
dead_or_left state_dead = true
dead_or_left state_left = true
dead_or_left _ = false

-- The messages `alive`, `suspect` and `dead`, and an entry of a push/pull state.
pub record AliveMsg : Type 0 where
  pub incarnation : ℕ
  pub node : Bytes
  pub addr : Bytes
  pub port : ℕ
  pub meta : Bytes
  pub vsn : Bytes

pub record SuspectMsg : Type 0 where
  pub incarnation : ℕ
  pub node : Bytes
  pub from : Bytes

pub record DeadMsg : Type 0 where
  pub incarnation : ℕ
  pub node : Bytes
  pub from : Bytes

pub record PushNodeState : Type 0 where
  pub name : Bytes
  pub addr : Bytes
  pub port : ℕ
  pub meta : Bytes
  pub incarnation : ℕ
  pub state : ℕ
  pub vsn : Bytes

pub data Message : Type 0 where
  alive_msg : AliveMsg → Message
  suspect_msg : SuspectMsg → Message
  dead_msg : DeadMsg → Message

-- The channel of a broadcast: nil, the caller's, or `m.leaveBroadcast`.
pub data Notify : Type 0 where
  no_notify caller_notify leave_broadcast : Notify

-- A call of `queueBroadcast(node, encode(msg), notify)`.
pub record Broadcast : Type 0 where
  pub node : Bytes
  pub msg : Message
  pub notify : Notify

pub data EventKind : Type 0 where
  event_join event_update event_leave event_conflict : EventKind

-- `receipt` tells whether a receipt is attached.
pub record QueuedEvent : Type 0 where
  pub kind : EventKind
  pub node : Node
  pub other : Option Node
  pub seq : ℕ  -- uint64
  pub receipt : Bool

-- The part of `Config` that the state machine reads. `cidrs_allowed` has the `Contains` of each
-- allowed network; `alive_delegate` is the user's filter, true where `NotifyAlive` returns nil.
-- `ip_string` is `net.IP.String`, `node_scale` the floating point factor of `suspicionTimeout`, and
-- `raw_timeout` that of suspicion.go.
pub record Config : Type 0 where
  pub name : Bytes
  pub cidrs_allowed : List (Bytes → Bool)
  pub alive_delegate : Option (Node → Bool)
  pub has_conflict_delegate : Bool
  pub has_event_delegate : Bool
  pub dead_node_reclaim_time : ℤ
  pub suspicion_mult : ℤ
  pub suspicion_max_timeout_mult : ℤ
  pub probe_interval : ℤ
  pub gossip_to_the_dead_time : ℤ
  pub ip_string : Bytes → Bytes
  pub node_scale : ℕ → ℤ
  pub raw_timeout : ℕ → ℤ → ℤ → ℤ → ℤ

-- What one call meets: the clock, a random number, and whether the timer that it stops still ran.
pub record Env : Type 0 where
  pub now : ℤ
  pub rand : ℕ
  pub timer_stopped : Bool

-- `broadcasts` and `timer_effects` are the calls made so far, in order; metrics and logs are left out.
pub record Memberlist : Type 0 where
  pub incarnation : ℕ  -- atomic.Uint32
  pub num_nodes : ℕ  -- atomic.Uint32
  pub shutdown : Bool
  pub leave : Bool
  pub nodes : List Bytes
  pub node_map : List (Bytes × NodeState)
  pub node_timers : List (Bytes × Suspicion)
  pub awareness : Awareness
  pub events : List QueuedEvent
  pub event_seq : ℕ
  pub events_sealed : Bool
  pub broadcasts : List Broadcast
  pub timer_effects : List (Bytes × TimerEffect)
