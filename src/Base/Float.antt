-- ===== src/Base/Float.antt =====
-- Python's floats. The model takes the type and its operations as an argument; the code's results
-- are then terms in these operations, whatever the rounding. `div` is not used at 0.0, where Python
-- raises. `thousandths` is one instance, fixed-point numbers, for tests.
use datacube_ows.Base.{ℕ, ◌+◌, ◌*◌, ◌/◌, ◌^◌, Bool, nat_beq}
use datacube_ows.Base.Int.{ℤ, pos, pos_part, neg_part, sub_ℕ, ◌+ℤ◌, ◌-ℤ◌, ◌*ℤ◌, ltb_ℤ}

pub record Floats : Type 1 where
  pub F : Type 0
  -- `float(n)`
  pub from_ℤ : ℤ → F
  -- The literal for m / 10 ^ k.
  pub decimal : ℤ → ℕ → F
  pub add : F → F → F
  pub sub : F → F → F
  pub mul : F → F → F
  pub div : F → F → F
  pub abs : F → F
  pub lt : F → F → Bool
  pub eq : F → F → Bool
  -- `int(x)`
  pub trunc : F → ℤ

-- z / n, rounded towards zero.
unfoldable pub quot : ℤ → ℕ → ℤ
quot z n = sub_ℕ (pos_part z / n) (neg_part z / n)

abbrev pub thousandths : Floats
thousandths = record {
  F = ℤ;
  from_ℤ = λ n. n *ℤ pos 1000;
  decimal = λ m k. quot (m *ℤ pos 1000) (10 ^ k);
  add = λ a b. a +ℤ b;
  sub = λ a b. a -ℤ b;
  mul = λ a b. quot (a *ℤ b) 1000;
  div = λ a b.
      sub_ℕ (pos_part a * 1000 / pos_part b + neg_part a * 1000 / neg_part b)
        (pos_part a * 1000 / neg_part b + neg_part a * 1000 / pos_part b);
  abs = λ a. pos (pos_part a + neg_part a);
  lt = ltb_ℤ;
  eq = λ a b. nat_beq (pos_part a + neg_part b) (pos_part b + neg_part a);
  trunc = λ a. quot a 1000;
}
