-- ===== src/Controllers.antt =====
-- The controllers, controller/pid*.py. Each is a record of the object's fields with its methods. A
-- method takes the readings of the clock that it makes; two readings that a quotient is taken of
-- differ. A literal such as 0.65 is the quotient 65 / 100, which is the same float, and -x is 0 - x.
pub mod Pid
pub mod Clamping
pub mod Adaptive
pub mod Bounds
pub mod Smith
use fire_ai.Prelude.{ℕ, Bool, true, false, Option, none, some, if◌then◌else◌}
use fire_ai.Prelude.Num.{Num, ◌<?◌, ◌=?◌, ◌-!◌, ◌*!◌, ◌/!◌, #}

-- The gains kp, ki and kd.
pub record Gains (N : Type 0) : Type 0 where
  pub kp : N
  pub ki : N
  pub kd : N

-- The keys of a configuration that `config.get` reads.
pub record PidConfig (N : Type 0) : Type 0 where
  pub pb : Option N
  pub ti : Option N
  pub td : Option N
  pub center : Option N

module _ {N : Type 0} where
  -- `config.get(key, default)`
  abbrev pub get_or : Option N → N → N
  get_or none d = d
  get_or (some x) d = x

module _ {N : Type 0} ⦃o : Num N⦄ where
  abbrev pub neg : N → N
  neg x = # 0 -! x

  abbrev pub abs : N → N
  abs x = if x <? # 0 then neg x else x

  -- `_calculate_gains(pb, ti, td)`
  unfoldable pub calculate_gains : N → N → N → Gains N
  calculate_gains pb ti td =
      let kp : N = if pb =? # 0 then # 0 else neg (# 1) /! pb in
      record { kp = kp; ki = if ti =? # 0 then # 0 else kp /! ti; kd = kp *! td }
