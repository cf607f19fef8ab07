-- ===== src/Queue/Treap.antt =====
-- The treap of queue.go: ordered by `less` and heap-ordered by a random priority. The links `left` and
-- `right` are the subtrees. Pointer equality `t == x` is equality of ids, which are unique in a queue.
pub mod Lists
pub mod Updates
pub mod Searches
use mori.Prelude.{
  ℕ, zero, suc, ◌+◌, ◌-◌, ◌*◌, ◌/◌, ◌%◌, ◌^◌, ◌≤◌, ◌<◌, min, max, ◌≡◌, refl, sym, ap, ap₂, ◌∙◌,
  subst,
}
use mori.Prelude.{◌≢◌, ◌↔◌, ◌⊎◌, inl, inr, Bool, true, false, not, ◌&&◌, ◌||◌, Option, none, some}
use mori.Prelude.{
  List, [], ◌∷◌, ◌++◌, map, append-nil, append_assoc, arith, ltb, leb, ◌==◌, if◌then◌else◌,
}
use mori.Prelude.{
  ltb→lt, lt→ltb, leb→le, ==_iff, tests, Bool-cases, Option-cases, Bool-contra, on_if,
}
use mori.Prelude.{
  length, get_elem?, set, take, drop, replicate, length-append, length-set, take-append-drop,
  length-take,
}
use mori.Prelude.{
  length-drop, take-append, drop-append, All, All-append, All-append_left, All-append_right,
  All-imp,
}
use mori.Prelude.{Bytes, IsByte, same, same_refl, same→eq, same_iff, same-cases, same_comm}
use mori.Queue.Item.{Item, less}

pub data Treap (B : Type 0) : Type 0 where
  leaf : Treap B
  node : Treap B → Item B → ℕ → Treap B → Treap B

-- The stack of `ascendFrom`: an entry, and what is right of it.
abbrev pub Stack : Type 0 → Type 0
Stack B = List (Item B × Treap B)

module _ {B : Type 0} where
  unfoldable pub treap_split : Treap B → Item B → Treap B × Treap B
  treap_split leaf k = (leaf, leaf)
  treap_split (node l x p r) k =
      let (rl, rh) = treap_split r k in
      let (ll, lh) = treap_split l k in
      if less x k then (node l x p rl, rh) else (ll, node lh x p r)

  unfoldable pub treap_insert : Treap B → Item B → ℕ → Treap B
  unfolding treap_split
  treap_insert leaf x prio = node leaf x prio leaf
  treap_insert (node l y p r) x prio =
      let left = treap_insert l x prio in
      let right = treap_insert r x prio in
      if ltb p prio
      then (let (lo, hi) = treap_split (node l y p r) x in node lo x prio hi)
      else if less x y
      then node left y p r
      else node l y p right

  unfoldable pub treap_merge : Treap B → Treap B → Treap B
  treap_merge leaf hi = hi
  treap_merge (node l x p r) leaf = node l x p r
  treap_merge (node l x p r) (node l' y q r') =
      let lower = treap_merge r (node l' y q r') in
      let upper = treap_merge (node l x p r) l' in
      if ltb q p then node l x p lower else node upper y q r'

  -- At a leaf the source would follow a nil pointer: `x` must be linked.
  unfoldable pub treap_delete : Treap B → Item B → Treap B
  unfolding treap_merge
  treap_delete leaf x = leaf
  treap_delete (node l y p r) x =
      let left = treap_delete l x in
      let right = treap_delete r x in
      if y.id == x.id
      then treap_merge l r
      else if less x y
      then node left y p r
      else node l y p right

  -- The first entry that does not order before `k`; `best` is the loop's variable.
  unfoldable pub ceil_loop : Treap B → Item B → Option (Item B) → Option (Item B)
  ceil_loop leaf k best = best
  ceil_loop (node l x p r) k best =
      let right = ceil_loop r k best in
      let left = ceil_loop l k (some x) in if less x k then right else left

  unfoldable pub treap_ceil : Treap B → Item B → Option (Item B)
  unfolding ceil_loop
  treap_ceil t k = ceil_loop t k none

  -- The entry right after `x`.
  unfoldable pub next_loop : Treap B → Item B → Option (Item B) → Option (Item B)
  next_loop leaf x best = best
  next_loop (node l y p r) x best =
      let left = next_loop l x (some y) in
      let right = next_loop r x best in if less x y then left else right

  unfoldable pub treap_next : Treap B → Item B → Option (Item B)
  unfolding next_loop
  treap_next t x = next_loop t x none

  unfoldable pub treap_min : Treap B → Option (Item B)
  treap_min leaf = none
  treap_min (node leaf x p r) = some x
  treap_min (node (node l y q s) x p r) = treap_min (node l y q s)

  unfoldable pub treap_max : Treap B → Option (Item B)
  treap_max leaf = none
  treap_max (node l x p leaf) = some x
  treap_max (node l x p (node s y q r)) = treap_max (node s y q r)

  -- `ascendFrom`: the inner loop goes down to the left, past what orders before `k`, and stacks the
  -- entries with what is right of them.
  unfoldable pub before : Item B → Option (Item B) → Bool
  before x none = false
  before x (some k) = less x k

  unfoldable pub stack_left : Treap B → Option (Item B) → Stack B → Stack B
  unfolding before
  stack_left leaf k stack = stack
  stack_left (node l x p r) k stack =
      let skip = stack_left r k stack in
      let push = stack_left l k ((x, r) ∷ stack) in if before x k then skip else push

  -- The entries that are handed to `f`, in order, until it answers false.
  unfoldable pub ascend_loop : ℕ → Stack B → (Item B → Bool) → List (Item B)
  ascend_loop zero stack f = []
  ascend_loop (suc fuel) [] f = []
  ascend_loop (suc fuel) ((x, r) ∷ stack) f =
      let rest = ascend_loop fuel (stack_left r none stack) f in
      if not (f x) then x ∷ [] else x ∷ rest

  unfoldable pub size : Treap B → ℕ
  size leaf = 0
  size (node l x p r) = size l + size r + 1

  -- One round for each entry, and one to see the empty stack.
  unfoldable pub ascend_from : Treap B → Option (Item B) → (Item B → Bool) → List (Item B)
  unfolding stack_left ascend_loop size
  ascend_from t k f = ascend_loop (size t + 1) (stack_left t k []) f

  unfoldable pub stack_right : Treap B → List (Treap B × Item B) → List (Treap B × Item B)
  stack_right leaf stack = stack
  stack_right (node l x p r) stack = stack_right r ((l, x) ∷ stack)

  unfoldable pub descend_loop : ℕ → List (Treap B × Item B) → (Item B → Bool) → List (Item B)
  descend_loop zero stack f = []
  descend_loop (suc fuel) [] f = []
  descend_loop (suc fuel) ((l, x) ∷ stack) f =
      let rest = descend_loop fuel (stack_right l stack) f in if not (f x) then x ∷ [] else x ∷ rest

  unfoldable pub descend : Treap B → (Item B → Bool) → List (Item B)
  unfolding stack_right descend_loop size
  descend t f = descend_loop (size t + 1) (stack_right t []) f
