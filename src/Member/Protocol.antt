-- ===== src/Member/Protocol.antt =====
-- verifyProtocol of state.go: the versions that the nodes of both sides speak.
pub mod Verified
use mori.Prelude.{
  ℕ, zero, suc, ◌+◌, ◌-◌, ◌*◌, ◌/◌, ◌%◌, ◌^◌, ◌≤◌, ◌<◌, min, max, ◌≡◌, refl, sym, ap, ap₂, ◌∙◌,
  subst,
}
use mori.Prelude.{◌≢◌, ◌↔◌, ◌⊎◌, inl, inr, Bool, true, false, not, ◌&&◌, ◌||◌, Option, none, some}
use mori.Prelude.{
  List, [], ◌∷◌, ◌++◌, map, append-nil, append_assoc, arith, ltb, leb, ◌==◌, if◌then◌else◌,
}
use mori.Prelude.{
  ltb→lt, lt→ltb, leb→le, ==_iff, tests, Bool-cases, Option-cases, Bool-contra, on_if,
}
use mori.Prelude.{
  length, get_elem?, set, take, drop, replicate, length-append, length-set, take-append-drop,
  length-take,
}
use mori.Prelude.{
  length-drop, take-append, drop-append, All, All-append, All-append_left, All-append_right,
  All-imp,
}
use mori.Prelude.{Bytes, IsByte, same, same_refl, same→eq, same_iff, same-cases, same_comm}
use mori.Prelude.Assoc.{lookup, insert, remove, lookup-insert, lookup-remove}
use mori.Prelude.Totals.{swap, total, total-append, total-swap, length-swap, once, count}
use mori.Awareness.{Awareness, apply_delta, new_awareness}
use mori.Suspicion.{
  Suspicion, TimerEffect, leave_timer, reset_timer, fire_now, has_confirmed, new_suspicion, confirm,
}
use mori.Member.Types.{
  NodeStateType, state_alive, state_suspect, state_dead, state_left, node_state_type, Versions,
  zero_versions, same_versions, parse_vsn, Node, NodeState, node_of, dead_or_left,
}
use mori.Member.Types.{
  AliveMsg, SuspectMsg, DeadMsg, PushNodeState, Message, alive_msg, suspect_msg, dead_msg, Notify,
  no_notify, caller_notify, leave_broadcast, Broadcast, EventKind, event_join, event_update,
  event_leave, event_conflict, QueuedEvent, Config, Env, Memberlist,
}
use mori.Member.Nodes.{
  put_state, clear_timer, ip_equal, ip_allowed, random_offset, next_incarnation, skip_incarnation,
  queue_broadcast, enqueue_event, refute_incarnation, refute,
}
use mori.Member.Alive.{is_alive}
use mori.Member.Lifecycle.{states_of}

-- The greatest minimum and the least maximum of the two ranges.
pub record Range : Type 0 where
  pub max_pmin : ℕ
  pub min_pmax : ℕ
  pub max_dmin : ℕ
  pub min_dmax : ℕ

abbrev pub full_range : Range
full_range = record { max_pmin = 0; min_pmax = 255; max_dmin = 0; min_dmax = 255 }

unfoldable pub narrow : Versions → Range → Range
narrow v r = record {
  max_pmin = max r.max_pmin v.pmin;
  min_pmax = min r.min_pmax v.pmax;
  max_dmin = max r.max_dmin v.dmin;
  min_dmax = min r.min_dmax v.dmax;
}

-- `vsn, _ := parseVsn(n.Vsn)`
abbrev pub versions_of : Bytes → Versions
versions_of vsn = elim (parse_vsn vsn) [ none ↦ zero_versions | some v ↦ v ]

unfoldable pub binds : PushNodeState → Bool
unfolding is_alive
binds n =
    elim (node_state_type n.state) [ none ↦ false | some s ↦ is_alive s ] && not (length n.vsn == 0)

unfoldable pub gone : PushNodeState → Bool
unfolding dead_or_left
gone n = elim (node_state_type n.state) [ none ↦ false | some s ↦ dead_or_left s ]

-- None where a version vector is malformed.
unfoldable pub scan_remote : List PushNodeState → Range → Option Range
unfolding binds narrow
scan_remote [] r = some r
scan_remote (n ∷ ns) r =
    let rest = scan_remote ns (if binds n then narrow (versions_of n.vsn) r else r) in
    elim (parse_vsn n.vsn) [ none ↦ none | some v ↦ rest ]

unfoldable pub scan_local : List NodeState → Range → Range
unfolding is_alive narrow
scan_local [] r = r
scan_local (s ∷ ss) r = scan_local ss (if not (is_alive s.state) then r else narrow s.vsn r)

unfoldable pub within : Versions → Range → Bool
within v r =
    not (ltb v.pcur r.max_pmin || ltb r.min_pmax v.pcur)
    && not (ltb v.dcur r.max_dmin || ltb r.min_dmax v.dcur)

unfoldable pub check_remote : List PushNodeState → Range → Bool
unfolding gone within
check_remote [] r = true
check_remote (n ∷ ns) r =
    let rest = check_remote ns r in if gone n then rest else within (versions_of n.vsn) r && rest

unfoldable pub check_local : List NodeState → Range → Bool
unfolding within
check_local [] r = true
check_local (s ∷ ss) r =
    let rest = check_local ss r in if dead_or_left s.state then rest else within s.vsn r && rest

-- True where `verifyProtocol` returns nil.
unfoldable pub verify_protocol : List PushNodeState → Memberlist → Bool
unfolding scan_remote scan_local check_remote check_local states_of
verify_protocol remote m =
    let locals = states_of m.nodes m.node_map in
    elim (scan_remote remote full_range) [
      | none ↦ false
      | some r ↦
          check_remote remote (scan_local locals r) && check_local locals (scan_local locals r)
    ]
