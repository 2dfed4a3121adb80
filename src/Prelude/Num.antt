-- ===== src/Prelude/Num.antt =====
-- The numbers that Python's `int` and `float` arithmetic computes with: temperatures, clock
-- readings, ratios. The arithmetic is the interpreter's and stays a parameter, so that every
-- rounding is the program's own.
use Prim.Native.Nat.{ℕ, ◌+◌, ◌-◌, ◌*◌, ◌/◌, compare, Ordering}
use mathlib.Core.Path.{◌≡◌}
use mathlib.Core.Logic.{◌⊎◌}
use mathlib.Core.Bool.{Bool, true, false}
use native.Mathlib.Omega.{arith}

-- The operations that the program uses. `trunc` is `int(x)`.
pub record Num (N : Type 0) : Type 0 where
  pub lit : ℕ → N
  pub add : N → N → N
  pub sub : N → N → N
  pub mul : N → N → N
  pub div : N → N → N
  pub lt : N → N → Bool
  pub le : N → N → Bool
  pub trunc : N → N

-- What is relied on of the order of the values other than `nan`.
pub record NumOrder {N : Type 0} (o : Num N) : Type 0 where
  pub lt_irrefl : (a : N) → o.lt a a ≡ false
  pub le-or-lt : (a b : N) → (o.le a b ≡ true) ⊎ (o.lt b a ≡ true)
  pub lt-le : (a b : N) → o.lt a b ≡ true → o.le a b ≡ true
  pub not_lt-le : (a b : N) → o.lt a b ≡ false → o.le b a ≡ true

module _ {N : Type 0} ⦃o : Num N⦄ where
  infix 50 ◌<?◌ ◌≤?◌ ◌=?◌
  abbrev pub ◌<?◌ : N → N → Bool
  a <? b = o.lt a b

  abbrev pub ◌≤?◌ : N → N → Bool
  a ≤? b = o.le a b

  infixl 65 ◌+!◌ ◌-!◌
  infixl 70 ◌*!◌ ◌/!◌
  abbrev pub ◌+!◌ : N → N → N
  a +! b = o.add a b

  abbrev pub ◌-!◌ : N → N → N
  a -! b = o.sub a b

  abbrev pub ◌*!◌ : N → N → N
  a *! b = o.mul a b

  abbrev pub ◌/!◌ : N → N → N
  a /! b = o.div a b

  abbrev pub # : ℕ → N
  # n = o.lit n

  -- `min(a, b)` and `max(a, b)` of Python: the first unless the second is smaller, or larger
  abbrev pub min : N → N → N
  min a b = elim (b <? a) [ true ↦ b | false ↦ a ]

  abbrev pub max : N → N → N
  max a b = elim (a <? b) [ true ↦ b | false ↦ a ]

  -- `a == b`
  abbrev pub ◌=?◌ : N → N → Bool
  a =? b = elim (a ≤? b) [ true ↦ b ≤? a | false ↦ false ]

module _ {N : Type 0} ⦃o : Num N⦄ (ord : NumOrder o) where
  pub le_refl : (a : N) → (a ≤? a) ≡ true
  le_refl a = ord.not_lt-le a a (ord.lt_irrefl a)

  -- Between two bounds in order, from above and from below.
  pub clamp_bounds :
      (lo hi x : N)
      → (lo ≤? hi) ≡ true
      → ((lo ≤? min (max x lo) hi) ≡ true) × ((min (max x lo) hi ≤? hi) ≡ true)
  clamp_bounds lo hi x h =
      ground
        (arith, le_refl lo, le_refl hi, ord.not_lt-le x lo, ord.not_lt-le hi x, ord.not_lt-le hi lo)

-- An instance to evaluate the model at: whole numbers from 0, with truncated difference.
instance abbrev pub nat_num : Num ℕ
nat_num = record {
  lit = λ n. n;
  add = λ a b. a + b;
  sub = λ a b. a - b;
  mul = λ a b. a * b;
  div = λ a b. a / b;
  lt = λ a b. elim (compare a b) [ Ordering.lt ↦ true | _ ↦ false ];
  le = λ a b. elim (compare a b) [ Ordering.gt ↦ false | _ ↦ true ];
  trunc = λ a. a;
}

pub nat_order : NumOrder nat_num
nat_order = record {
  lt_irrefl = λ a. ground arith;
  le-or-lt = λ a b. ground arith;
  lt-le = λ a b h. ground arith;
  not_lt-le = λ a b h. ground arith;
}
