-- ===== src/Tests/MemberRuns.antt =====
-- The membership theorems at the run of the fixture.
use mori.Prelude.{◌+◌, ◌-◌, ◌^◌, ◌<◌, ◌≡◌, refl}
use mori.Prelude.{◌⊎◌, true, false, none, some}
use mori.Prelude.{[], ◌∷◌, arith}
use mori.Prelude.{Bytes}
use mori.Prelude.{All, ◌∷◌, []}
use mori.Member.Protocol.{
  verify_protocol, scan_remote, scan_local, check_remote, check_local, binds, gone, narrow, within,
  versions_of,
}
use mori.Member.Protocol.Verified.{Understood, verify_protocol-Understood}
use mori.Member.Lifecycle.{states_of}
use mori.Prelude.Int.{pos, ◌≤ℤ◌}
use mori.Prelude.Assoc.{lookup}
use mori.Awareness.{apply_delta, new_awareness}
use mori.Suspicion.{Suspicion, leave_timer, has_confirmed, new_suspicion, confirm}
use mori.Member.Types.{state_alive, state_suspect, state_dead, node_state_type, NodeState}
use mori.Member.Types.{AliveMsg, DeadMsg, PushNodeState}
use mori.Member.Nodes.{refute}
use mori.Awareness.Bounds.{InRange, apply_delta-InRange, new_awareness-InRange}
use mori.Member.Alive.{alive_node}
use mori.Member.Dead.{dead_node}
use mori.Member.Invariant.Defs.{Inv}
use mori.Member.Suspect.{suspect_node, suspicion_expired}
use mori.Member.Merge.{merge_state}
use mori.Member.Lifecycle.{leave_context}
use mori.Member.Effects.Edges.{state_at, edge, events-edge}
use mori.Tests.Fixture.{
  cfg, at, vsn6, peer_alive, peer_suspect, alone, pair, doubting, doubting-Reach, alone-Inv,
  doubting-Inv,
}
use mori.Member.Run.{recv_alive, recv_dead, Reach, here, next}
use mori.Member.Types.{Memberlist}
use mori.Member.Invariant.LifecycleKeeps.{Reach-Inv}
use mori.Member.Safety.SelfDefence.{Reach-alive}
use mori.Tests.Fixture.{all_open}
use mori.Suspicion.Laws.{confirm_exact}
use mori.Member.Safety.Exchange.{not_left, merge_state-live, is_live}
use mori.Member.Safety.Refutation.{refute_beats, refute_wraps}
use mori.Member.Safety.Timers.{suspicion_expired_kills}
use mori.Member.Safety.Ending.{Stopped, Reach-Stopped, leave_context_commits}

Reach-Inv_example : Inv cfg.name doubting
Reach-Inv_example = Reach-Inv cfg (pos 8) (omega arith) (omega arith) doubting-Reach

abbrev accusation : DeadMsg
accusation = record { incarnation = 9; node = b'a' ∷ []; from = b'c' ∷ [] }

us_alive : state_at cfg.name doubting ≡ some state_alive
unfolding all_open
us_alive = refl

us_stay : doubting.leave ≡ false
unfolding all_open
us_stay = refl

abbrev accused_run : Reach cfg doubting (dead_node cfg (at 40) accusation doubting)
accused_run = next here (recv_dead (at 40) accusation doubting)

Reach-alive_example :
    let m = dead_node cfg (at 40) accusation doubting in
    (m.leave ≡ true) ⊎ (state_at cfg.name m ≡ some state_alive)
Reach-alive_example = Reach-alive cfg doubting-Inv us_stay us_alive accused_run

events-edge_example :
    edge
      (state_at (b'b' ∷ []) pair)
      (state_at (b'b' ∷ []) (suspect_node cfg (at 30) peer_suspect pair))
    ≡ true
events-edge_example =
    (events-edge cfg (at 30) peer_alive false peer_suspect accusation (b'b' ∷ []) (pos 0) pair
      (b'b' ∷ [])).1

abbrev us : NodeState
us = record {
  name = b'a' ∷ [];
  addr = 10 ∷ 0 ∷ 0 ∷ 1 ∷ [];
  port = 7946;
  meta = [];
  state = state_alive;
  vsn = record { pmin = 1; pmax = 5; pcur = 5; dmin = 0; dmax = 0; dcur = 0 };
  incarnation = 1;
  state_change = pos 10;
}

abbrev peer : NodeState
peer = record {
  name = b'b' ∷ [];
  addr = 10 ∷ 0 ∷ 0 ∷ 2 ∷ [];
  port = 7946;
  meta = [];
  state = state_suspect;
  vsn = record { pmin = 1; pmax = 5; pcur = 5; dmin = 0; dmax = 0; dcur = 0 };
  incarnation = 3;
  state_change = pos 30;
}

us_known : lookup cfg.name alone.node_map ≡ some us
unfolding all_open
us_known = refl

peer_known : lookup (b'b' ∷ []) doubting.node_map ≡ some peer
unfolding all_open
peer_known = refl

alone_up : (alone.shutdown ≡ false) × (alone.leave ≡ false) × (alone.incarnation ≡ 1)
unfolding all_open
alone_up = (refl, refl, refl)

doubting_up : doubting.shutdown ≡ false
unfolding all_open
doubting_up = refl

no_timer : lookup (b'b' ∷ []) alone.node_timers ≡ none
unfolding all_open
no_timer = refl

refute_beats_example : 9 < (refute cfg cfg.name us 9 alone).incarnation
refute_beats_example =
    (refute_beats cfg cfg.name us 9 alone (omega arith) (omega (arith, alone_up))).0

refute_wraps_example : (refute cfg cfg.name us (2 ^ 32 - 1) alone).incarnation ≡ 0
refute_wraps_example =
    (refute_wraps cfg cfg.name us (2 ^ 32 - 1) alone refl (omega (arith, alone_up))).0

suspicion_expired_kills_example :
    lookup (b'b' ∷ []) (suspicion_expired cfg (at 90) (b'b' ∷ []) (pos 30) doubting).node_map
    ≡ some (record peer { state = state_dead; state_change = pos 90 })
suspicion_expired_kills_example =
    (suspicion_expired_kills cfg (at 90) (b'b' ∷ []) (pos 30) doubting doubting-Inv peer peer_known
      refl doubting_up refl).0

leave_context_commits_example : (leave_context cfg (at 50) alone).0.leave ≡ true
leave_context_commits_example =
    (leave_context_commits cfg (at 50) alone alone-Inv us us_known refl (alone_up.0) (alone_up.1)).0

abbrev our_alive : AliveMsg
our_alive = record peer_alive { node = b'a' ∷ [] }

-- "a" is shut down while it suspects "b", and a message about "b" comes in.
abbrev off : Memberlist
off = record doubting { shutdown = true }

Reach-Stopped_example : Stopped off (alive_node cfg (at 80) peer_alive false off)
Reach-Stopped_example = Reach-Stopped cfg refl (next here (recv_alive (at 80) peer_alive off))

abbrev dead_entry : PushNodeState
dead_entry = record {
  name = b'b' ∷ [];
  addr = 10 ∷ 0 ∷ 0 ∷ 2 ∷ [];
  port = 7946;
  meta = [];
  incarnation = 4;
  state = 2;
  vsn = vsn6;
}

peer_lives : is_live (state_at (b'b' ∷ []) doubting) ≡ true
unfolding all_open is_live
peer_lives = refl

entry_stays : not_left dead_entry ≡ true
unfolding not_left node_state_type
entry_stays = refl

merge_state-live_example :
    is_live (state_at (b'b' ∷ []) (merge_state cfg (λ i. at (70 + i)) (dead_entry ∷ []) doubting))
    ≡ true
merge_state-live_example =
    merge_state-live cfg (λ i. at (70 + i)) (b'b' ∷ []) (dead_entry ∷ []) doubting (entry_stays, tt)
      peer_lives

start_score : InRange (new_awareness (pos 8))
start_score = new_awareness-InRange (pos 8) (omega arith) (omega arith)

apply_delta-InRange_example : InRange (apply_delta (pos 20) (new_awareness (pos 8)))
apply_delta-InRange_example = apply_delta-InRange (pos 20) (new_awareness (pos 8)) start_score

abbrev suspected : Suspicion
suspected = (new_suspicion (b'c' ∷ []) (pos 2) (pos 10) (pos 60) (pos 0)).0

confirm_exact_example :
    let from : Bytes = b'c' ∷ [] in
    let (s', ok, effect) = confirm cfg.raw_timeout (pos 5) true from suspected in
    ((ok ≡ true)
      × (pos (suspected.n + 1) ≤ℤ suspected.k)
      × (has_confirmed from suspected.confirmations ≡ false)
      × (s'.n ≡ suspected.n + 1)
      × (has_confirmed from s'.confirmations ≡ true))
    ⊎ ((ok ≡ false)
        × ((suspected.k ≤ℤ pos suspected.n) ⊎ (has_confirmed from suspected.confirmations ≡ true))
        × (s' ≡ suspected)
        × (effect ≡ leave_timer))
confirm_exact_example = confirm_exact cfg.raw_timeout (pos 5) true (b'c' ∷ []) suspected

both_speak : verify_protocol (dead_entry ∷ []) doubting ≡ true
unfolding all_open verify_protocol scan_remote scan_local check_remote check_local states_of binds
    gone narrow within node_state_type
both_speak = refl

verify_protocol-Understood_example :
    All
      (λ n.
        gone n ≡ false
        → Understood
            (dead_entry ∷ [])
            (states_of doubting.nodes doubting.node_map)
            (versions_of n.vsn))
      (dead_entry ∷ [])
verify_protocol-Understood_example =
    (verify_protocol-Understood (dead_entry ∷ []) doubting both_speak).0
