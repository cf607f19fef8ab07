-- ===== src/Tests/QueueRuns.antt =====
-- The queue, the shuffle and the move of dead nodes at concrete inputs.
use mori.Prelude.{ℕ, ◌+◌, ◌-◌, ◌≤◌, ◌≡◌, refl}
use mori.Prelude.{◌⊎◌, leb, if◌then◌else◌}
use mori.Prelude.{inl, inr, false, Option, none, some}
use mori.Prelude.{List, [], ◌∷◌, arith, ltb, ◌==◌}
use mori.Prelude.{length, take}
use mori.Prelude.{All}
use mori.Prelude.{Bytes, same}
use mori.Prelude.Assoc.{lookup, insert, remove}
use mori.Queue.Item.{Item, less}
use mori.Queue.Treap.{
  Treap, leaf, node, treap_insert, treap_delete, ascend_from, treap_split, treap_min, treap_max,
  before, ascend_loop, stack_left, size,
}
use mori.Queue.Treap.Lists.{to_list, IsOrdered, IsHeap, IdNot, Unique, In, remove_id}
use mori.Queue.Treap.Updates.{treap_insert_lem, treap_delete_lem}
use mori.Queue.Treap.Searches.{first, until_stop, skip_before, ascend_from-until}
use mori.Queue.Limited.{
  BroadcastOps, LimitedQueue, new_queue, delete_item, add_item, finish, name_of, is_plain,
  is_unique, voided, finish_all, delete_all, invalidate, new_item, queue_broadcast, transmits_of,
  pick, gather, start, get_broadcasts, prune,
}
use mori.Queue.Limited.Invariant.{entries, QueueInv, new_queue-QueueInv}
use mori.Queue.Limited.Queueing.{queue_broadcast-effect}
use mori.Queue.Limited.Pruning.{prune-take}
use mori.Queue.Limited.Picking.{fits, pick-first}
use mori.Queue.Limited.Sending.{cost}
use mori.Queue.Limited.Calls.{rounds_enough, get_broadcasts-fits}
use mori.Wire.Label.{label_overhead}
use mori.Packet.Piggyback.{KeepsLimit, UserBroadcasts, sealed_length, send_msg, send_msg-fits}
use mori.Tests.PacketRuns.{sender}
use mori.Util.MoveDead.{move_dead_nodes}
use mori.Util.MoveDead.Partition.{move_dead_nodes_splits}

abbrev entry : ℕ → ℕ → ℕ → Item ℕ
entry transmits msg_len id = record {
  transmits = transmits;
  msg_len = msg_len;
  id = id;
  b = id;
  name = [];
}

abbrev two : Treap ℕ
two = node leaf (entry 0 9 1) 7 (node leaf (entry 1 4 2) 3 leaf)

two-IsOrdered : IsOrdered two
unfolding to_list less
two-IsOrdered = ((refl, tt), (tt, tt))

two-IsHeap : IsHeap two
two-IsHeap = (tt, omega arith, tt, (tt, tt, tt, tt))

two_new : All (IdNot 3) (to_list two)
unfolding to_list
two_new = (omega arith, (omega arith, tt))

two-Unique : Unique (to_list two)
unfolding to_list
two-Unique = ((omega arith, tt), (tt, tt))

second-In : In (entry 1 4 2) (to_list two)
unfolding to_list
second-In = inr (inl refl)

treap_insert_lem_example : IsOrdered (treap_insert two (entry 0 5 3) 9)
treap_insert_lem_example = (treap_insert_lem two (entry 0 5 3) 9 two-IsOrdered two-IsHeap two_new).0

treap_delete_lem_example : to_list (treap_delete two (entry 1 4 2)) ≡ remove_id 2 (to_list two)
treap_delete_lem_example =
    (treap_delete_lem two (entry 1 4 2) two-IsOrdered two-IsHeap two-Unique second-In).2

ascend_from-until_example :
    ascend_from two none (λ x. x.id == 1)
    ≡ until_stop (λ x. x.id == 1) (skip_before none (to_list two))
ascend_from-until_example = ascend_from-until two none (λ x. x.id == 1) two-IsOrdered

move_dead_nodes_splits_example :
    let xs : List ℕ = 4 ∷ 1 ∷ 6 ∷ [] in length (move_dead_nodes (λ n. ltb 3 n) xs).0 ≡ length xs
move_dead_nodes_splits_example = (move_dead_nodes_splits (λ n. ltb 3 n) (4 ∷ 1 ∷ 6 ∷ [])).4

-- Broadcasts that are byte strings; those of more than two bytes are named by their first byte.
abbrev named_by : Bytes → Option Bytes
named_by (a ∷ b ∷ c ∷ s) = some (a ∷ [])
named_by _ = none

abbrev plain_ops : BroadcastOps Bytes
plain_ops = record {
  message = λ b. b;
  named = named_by;
  unique = λ b. false;
  invalidates = λ a b. false;
}

abbrev fresh : LimitedQueue Bytes
fresh = new_queue 4

fresh-QueueInv : QueueInv plain_ops fresh
fresh-QueueInv = new_queue-QueueInv plain_ops 4

queue_broadcast-effect_example :
    QueueInv plain_ops (queue_broadcast plain_ops 7 (1 ∷ 2 ∷ 3 ∷ []) 0 fresh)
queue_broadcast-effect_example =
    (queue_broadcast-effect plain_ops 7 (1 ∷ 2 ∷ 3 ∷ []) 0 fresh fresh-QueueInv).0

abbrev one_queued : LimitedQueue Bytes
one_queued = queue_broadcast plain_ops 7 (1 ∷ 2 ∷ 3 ∷ []) 0 fresh

one_queued-QueueInv : QueueInv plain_ops one_queued
one_queued-QueueInv = (queue_broadcast-effect plain_ops 7 (1 ∷ 2 ∷ 3 ∷ []) 0 fresh fresh-QueueInv).0

abbrev two_queued : LimitedQueue Bytes
two_queued = queue_broadcast plain_ops 9 (5 ∷ 6 ∷ []) 0 one_queued

two_queued-QueueInv : QueueInv plain_ops two_queued
two_queued-QueueInv =
    (queue_broadcast-effect plain_ops 9 (5 ∷ 6 ∷ []) 0 one_queued one_queued-QueueInv).0

two_ids : (two_queued.id_gen ≡ 2) × (two_queued.n ≡ 2)
unfolding queue_broadcast new_item name_of invalidate add_item is_unique voided finish_all
    delete_all delete_item finish new_queue lookup insert remove same treap_insert treap_split
    ascend_from ascend_loop stack_left before size is_plain
two_ids = (refl, refl)

prune-take_example : entries (prune 1 two_queued) ≡ take 1 (entries two_queued)
prune-take_example = (prune-take plain_ops 1 two_queued two_queued-QueueInv).1

pick-first_example : pick plain_ops 0 2 two_queued ≡ first (fits plain_ops 0 2) (entries two_queued)
pick-first_example =
    pick-first plain_ops 0 2 two_queued two_queued-QueueInv (omega (arith, two_ids))

rounds_enough_example :
    let g =
      gather plain_ops
        (two_queued.n
          + (transmits_of plain_ops (treap_max two_queued.root)
              + 1
              - transmits_of plain_ops (treap_min two_queued.root)))
        3
        12
        4
        (transmits_of plain_ops (treap_max two_queued.root))
        (transmits_of plain_ops (treap_min two_queued.root))
        (start plain_ops two_queued) in
    g.bytes_used ≤ 12
rounds_enough_example =
    (rounds_enough plain_ops 3 12 two_queued two_queued-QueueInv (omega (arith, two_ids)) 4).1

get_broadcasts-fits_example :
    cost 3 (get_broadcasts plain_ops (λ n. 1) 2 (λ i. i) 3 12 two_queued).1 ≤ 12
get_broadcasts-fits_example =
    (get_broadcasts-fits plain_ops 3 12 two_queued two_queued-QueueInv (omega (arith, two_ids))
      (λ n. 1) 2 (λ i. i)).1

-- A delegate that has one broadcast of one byte, where there is room.
abbrev asker : UserBroadcasts
asker = some (λ overhead limit. if leb (overhead + 1) limit then (9 ∷ []) ∷ [] else [])

asker-KeepsLimit : KeepsLimit asker
asker-KeepsLimit overhead limit = ground arith

send_msg-fits_example :
    let sent =
      (send_msg plain_ops (λ n. 1) 2 (λ i. i) asker sender 100 (0 ∷ 1 ∷ []) two_queued).1 in
    (sent ≡ 0 ∷ 1 ∷ [])
    ⊎ (label_overhead (b'x' ∷ []) + sealed_length sender (5 + length sent) ≤ 100)
send_msg-fits_example =
    send_msg-fits plain_ops two_queued (λ n. 1) 2 (λ i. i) asker sender 100 (0 ∷ 1 ∷ [])
      two_queued-QueueInv (omega (arith, two_ids)) asker-KeepsLimit
