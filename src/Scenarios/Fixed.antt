-- ===== src/Scenarios/Fixed.antt =====
-- Signed numbers with six digits after the point, to evaluate the controllers at.
use fire_ai.Prelude.{ℕ, suc, ◌+◌, ◌-◌, ◌*◌, Bool, true, false, not, ltb, if◌then◌else◌, arith}
use Prim.Native.Nat.{◌/◌}
use fire_ai.Prelude.Num.{Num, NumOrder}

pub data Fixed : Type 0 where
  pos : ℕ → Fixed
  negsuc : ℕ → Fixed

abbrev up : Fixed → ℕ
up (pos n) = n
up (negsuc n) = 0

abbrev down : Fixed → ℕ
down (pos n) = 0
down (negsuc n) = suc n

-- a - b
abbrev diff : ℕ → ℕ → Fixed
diff a b = if ltb a b then negsuc (b - suc a) else pos (a - b)

abbrev is_negative : Fixed → Bool
is_negative (pos n) = false
is_negative (negsuc n) = true

abbrev signed : Bool → Bool → ℕ → Fixed
signed false false m = diff m 0
signed true true m = diff m 0
signed false true m = diff 0 m
signed true false m = diff 0 m

abbrev size : Fixed → ℕ
size x = up x + down x

abbrev below : Fixed → Fixed → Bool
below x y = ltb (up x + down y) (down x + up y)

instance abbrev pub fixed_num : Num Fixed
fixed_num = record {
  lit = λ n. pos (n * 1000000);
  add = λ x y. diff (up x + up y) (down x + down y);
  sub = λ x y. diff (up x + down y) (down x + up y);
  mul = λ x y. signed (is_negative x) (is_negative y) (size x * size y / 1000000);
  div = λ x y. signed (is_negative x) (is_negative y) (size x * 1000000 / size y);
  lt = below;
  le = λ x y. not (below y x);
  trunc = λ x. signed (is_negative x) false (size x / 1000000 * 1000000);
}

pub fixed_order : NumOrder fixed_num
fixed_order = record {
  lt_irrefl = λ x. ground arith;
  le-or-lt = λ x y. ground arith;
  lt-le = λ x y h. ground arith;
  not_lt-le = λ x y h. ground arith;
}
