-- ===== src/Tests/Fixture.antt =====
-- A local node named "a" at 10.0.0.1, a peer "b", and the memberlists of a short run.
use mori.Prelude.{ℕ}
use mori.Prelude.{true, false, none}
use mori.Prelude.{[], ◌∷◌, arith}
use mori.Prelude.{Bytes, same}
use mori.Prelude.Int.{pos, ◌+ℤ◌, ◌-ℤ◌, ◌*ℤ◌, to_int64, to_int32, quot_ℤ, since}
use mori.Prelude.Assoc.{lookup, insert, remove}
use mori.Prelude.Totals.{swap}
use mori.Awareness.{apply_delta, new_awareness}
use mori.Suspicion.{has_confirmed, new_suspicion, confirm}
use mori.Member.Types.{same_versions, parse_vsn, dead_or_left}
use mori.Member.Types.{AliveMsg, SuspectMsg, Config, Env, Memberlist}
use mori.Member.Nodes.{
  put_state, clear_timer, ip_equal, ip_allowed, random_offset, next_incarnation, skip_incarnation,
  queue_broadcast, enqueue_event, refute_incarnation, refute,
}
use mori.Member.Alive.{
  has_vsn, bad_versions, claimed_node, delegate_accepts, check_alive, new_state, add_node,
  admit_new, same_address, can_reclaim, report_conflict, admit_known, admit, accept_alive,
  notify_alive_event, agrees_with_us, commit_alive, alive_node_locked, alive_node,
}
use mori.Member.Dead.{dead_node_locked, dead_node}
use mori.Member.Invariant.Defs.{Inv}
use mori.Member.Suspect.{
  suspicion_timeout, expected_confirmations, confirm_timer, mark_suspect, start_suspicion,
  is_alive_state, suspect_node, is_suspect, same_time, suspicion_expired,
}
use mori.Member.Lifecycle.{set_alive, commit_announcement}
use mori.Member.Run.{
  new_memberlist, recv_alive, recv_suspect, take_incarnation, announce, Reach, here, next,
}
use mori.Member.Invariant.LifecycleKeeps.{Reach-Inv}
use mori.Member.Nodes.{any_contains, ip_must_be_checked}
use mori.Member.Alive.{is_left, is_dead, is_alive}
use mori.Suspicion.{remaining_suspicion_time}

abbrev pub cfg : Config
cfg = record {
  name = b'a' ∷ [];
  cidrs_allowed = [];
  alive_delegate = none;
  has_conflict_delegate = true;
  has_event_delegate = true;
  dead_node_reclaim_time = pos 0;
  suspicion_mult = pos 4;
  suspicion_max_timeout_mult = pos 6;
  probe_interval = pos 1000;
  gossip_to_the_dead_time = pos 30;
  ip_string = λ ip. ip;
  node_scale = λ n. pos 1000;
  raw_timeout = λ n k lo hi. hi;
}

abbrev pub at : ℕ → Env
at t = record { now = pos t; rand = t; timer_stopped = true }

abbrev pub vsn6 : Bytes
vsn6 = 1 ∷ 5 ∷ 5 ∷ 0 ∷ 0 ∷ 0 ∷ []

abbrev pub peer_alive : AliveMsg
peer_alive = record {
  incarnation = 3;
  node = b'b' ∷ [];
  addr = 10 ∷ 0 ∷ 0 ∷ 2 ∷ [];
  port = 7946;
  meta = [];
  vsn = vsn6;
}

abbrev pub peer_suspect : SuspectMsg
peer_suspect = record { incarnation = 3; node = b'b' ∷ []; from = b'c' ∷ [] }

-- "a" announces itself, hears of "b", and then suspects it.
abbrev pub empty : Memberlist
empty = new_memberlist (pos 8)

abbrev pub alone : Memberlist
alone = (set_alive cfg (at 10) (10 ∷ 0 ∷ 0 ∷ 1 ∷ []) 7946 [] vsn6 false empty).0

abbrev pub pair : Memberlist
pair = alive_node cfg (at 20) peer_alive false alone

abbrev pub doubting : Memberlist
doubting = suspect_node cfg (at 30) peer_suspect pair

pub alone-Reach : Reach cfg empty alone
unfolding set_alive next_incarnation new_memberlist
alone-Reach =
    next (next here (take_incarnation empty))
      (announce (at 10) 1 (10 ∷ 0 ∷ 0 ∷ 1 ∷ []) 7946 [] vsn6 false (next_incarnation empty).0)

pub doubting-Reach : Reach cfg empty doubting
doubting-Reach =
    next (next alone-Reach (recv_alive (at 20) peer_alive alone))
      (recv_suspect (at 30) peer_suspect pair)

pub alone-Inv : Inv cfg.name alone
alone-Inv = Reach-Inv cfg (pos 8) (omega arith) (omega arith) alone-Reach

pub doubting-Inv : Inv cfg.name doubting
doubting-Inv = Reach-Inv cfg (pos 8) (omega arith) (omega arith) doubting-Reach

-- Opens the definitions that the runs compute with.
unfoldable pub all_open : ℕ
unfolding new_memberlist set_alive commit_announcement alive_node suspect_node dead_node
    alive_node_locked dead_node_locked new_awareness lookup insert remove same next_incarnation
    check_alive parse_vsn delegate_accepts admit admit_new admit_known ip_allowed commit_alive
    notify_alive_event dead_or_left enqueue_event put_state queue_broadcast clear_timer add_node
    accept_alive start_suspicion apply_delta agrees_with_us bad_versions can_reclaim claimed_node
    has_vsn new_state report_conflict same_address ip_equal random_offset refute refute_incarnation
    skip_incarnation confirm_timer expected_confirmations is_alive_state mark_suspect
    suspicion_timeout same_versions quot_ℤ to_int32 since to_int64 ◌*ℤ◌ ◌+ℤ◌ ◌-ℤ◌ swap confirm
    has_confirmed new_suspicion ip_must_be_checked is_left is_dead is_alive remaining_suspicion_time
    any_contains same_time is_suspect suspicion_expired
all_open = 0
