-- ===== src/Queue/Item.antt =====
-- `limitedBroadcast` of queue.go without its links, and its order. `B` is the type of the broadcasts.
use mori.Prelude.{ℕ, ◌≡◌}
use mori.Prelude.{◌≢◌, Bool, true, false, not}
use mori.Prelude.{arith, ltb, ◌==◌, if◌then◌else◌}
use mori.Prelude.{Bytes}

pub record Item (B : Type 0) : Type 0 where
  pub transmits : ℕ
  pub msg_len : ℕ  -- int64
  pub id : ℕ  -- int64
  pub b : B
  pub name : Bytes

module _ {B : Type 0} where
  -- Fewer transmits first, then longer messages, then newer ones.
  unfoldable pub less : Item B → Item B → Bool
  less x o =
      if not (x.transmits == o.transmits)
      then ltb x.transmits o.transmits
      else if not (x.msg_len == o.msg_len)
      then ltb o.msg_len x.msg_len
      else ltb o.id x.id

  pub less_irrefl : (x : Item B) → less x x ≡ false
  unfolding less
  less_irrefl x = ground arith

  pub less_trans : (x y z : Item B) → less x y ≡ true → less y z ≡ true → less x z ≡ true
  unfolding less
  less_trans x y z p q = ground arith

  pub less_asymm : (x y : Item B) → less x y ≡ true → less y x ≡ false
  unfolding less
  less_asymm x y p = ground arith

  -- Of two entries with different ids one orders before the other.
  pub less_total : (x y : Item B) → x.id ≢ y.id → less x y ≡ false → less y x ≡ true
  unfolding less
  less_total x y n p = ground arith

  -- What does not order before a bound does not order before what the bound is behind.
  pub not_less_trans : (x y z : Item B) → less y x ≡ false → less y z ≡ true → less x z ≡ true
  unfolding less
  not_less_trans x y z p q = ground arith
