-- ===== src/Main/Critical.antt =====
-- The main loop of control.py after a critical error: a module that could not be loaded, or a
-- process that did not respond.
use fire_ai.Prelude.{◌≡◌, Bool, true, false, Option, if◌then◌else◌}
use fire_ai.Prelude.Num.{Num}
use fire_ai.Types.{Notify, Control}
use fire_ai.Settings.{Settings}
use fire_ai.GrillPlatform.{GrillPlatform}
use fire_ai.Notify.{Notified}
use fire_ai.Control.{Flow, on, leave, raise}
use fire_ai.Main.{Process}

-- The error stands in the structure in hand and in the one in Redis, over these outputs.
pub record IsHalted {N : Type 0} (g : GrillPlatform N) (p : Process N) : Type 0 where
  pub control : p.control.critical_error ≡ true
  pub stored : p.stored.critical_error ≡ true
  pub platform : p.platform ≡ g

-- The process is between two iterations, or was ended by an exception; it is in no work cycle.
abbrev pub HaltedEnd : {N : Type 0} → GrillPlatform N → Flow (Process N) → Type 0
HaltedEnd g (on p) = IsHalted g p
HaltedEnd g (leave p) = ⊥
HaltedEnd g raise = Unit

module _ {N : Type 0} where
  IsHalted-if :
      (b : Bool) (g : GrillPlatform N) (p q : Process N)
      → IsHalted g p
      → IsHalted g q
      → IsHalted g (if b then p else q)
  IsHalted-if true g p q h k = h
  IsHalted-if false g p q h k = k

-- Both structures of a call of `check_notify` have the error.
record HasFailed {N : Type 0} (n : Notified N) : Type 0 where
  control : n.control.critical_error ≡ true
  stored : n.stored.critical_error ≡ true
