-- ===== src/Util/MoveDead.antt =====
-- `moveDeadNodes` of util.go. `gone` is the test of the loop: the node is dead or left, and has been
-- for longer than the gossip-to-the-dead time.
pub mod Partition
use mori.Prelude.{
  ℕ, zero, suc, ◌+◌, ◌-◌, ◌*◌, ◌/◌, ◌%◌, ◌^◌, ◌≤◌, ◌<◌, min, max, ◌≡◌, refl, sym, ap, ap₂, ◌∙◌,
  subst,
}
use mori.Prelude.{◌≢◌, ◌↔◌, ◌⊎◌, inl, inr, Bool, true, false, not, ◌&&◌, ◌||◌, Option, none, some}
use mori.Prelude.{
  List, [], ◌∷◌, ◌++◌, map, append-nil, append_assoc, arith, ltb, leb, ◌==◌, if◌then◌else◌,
}
use mori.Prelude.{ltb→lt, lt→ltb, leb→le, ==_iff, tests, Bool-cases, Option-cases, Bool-contra}
use mori.Prelude.{
  length, get_elem?, set, take, drop, replicate, length-append, length-set, take-append-drop,
  length-take,
}
use mori.Prelude.{
  length-drop, take-append, drop-append, All, All-append, All-append_left, All-append_right,
  All-imp,
}
use mori.Prelude.{Bytes, IsByte, same, same_refl, same→eq, same_iff, same-cases, same_comm}
use mori.Prelude.Totals.{swap, total, total-swap, length-swap, total-append}

module _ {ℓ} {A : Type ℓ} (gone : A → Bool) where
  -- One round either counts `i` up or `num_dead`, so the length of the list is enough fuel.
  unfoldable pub move_dead_loop : ℕ → ℕ → ℕ → List A → List A × ℕ
  move_dead_loop zero i num_dead xs = (xs, num_dead)
  move_dead_loop (suc fuel) i num_dead xs =
      let next = move_dead_loop fuel (i + 1) num_dead xs in
      let moved = move_dead_loop fuel i (num_dead + 1) (swap i (length xs - num_dead - 1) xs) in
      if not (ltb i (length xs - num_dead))
      then (xs, num_dead)
      else elim (get_elem? xs i) [ none ↦ next | some x ↦ if gone x then moved else next ]

  -- The reordered nodes and the index of the first dead one.
  unfoldable pub move_dead_nodes : List A → List A × ℕ
  unfolding move_dead_loop
  move_dead_nodes xs =
      let (ys, num_dead) = move_dead_loop (length xs) 0 0 xs in (ys, length xs - num_dead)
