-- ===== src/Legacy/Agrees.antt =====
-- The two interfaces to the grill: `process_command` of common/common.py, and the registry of
-- core/commands.py.
use fire_ai.Prelude.{String, ◌≡◌, Bool, true, false, some, List, [], ◌∷◌}
use fire_ai.Prelude.Num.{Num}
use fire_ai.Settings.{Units, celsius, fahrenheit}
use fire_ai.Commands.{
  Command, mode_startup, mode_smoke, mode_shutdown, mode_stop, mode_monitor, mode_manual,
  mode_reignite, lid_open_toggle, mode_hold, setpoint, smoke_plus, pwm_control, tuning_mode,
  CommandResult, ok, World,
}
use fire_ai.Legacy.{Parser, Reply, accepted, nothing, Store}

abbrev word : Bool → String
word true = "true"
word false = "false"

abbrev is_fahrenheit : Units → Bool
is_fahrenheit fahrenheit = true
is_fahrenheit celsius = false

-- The arguments of 'set' that ask for what a command of the registry does.
pub data Spells {N : Type 0} (p : Parser N) : Command N → List String → Type 0 where
  spells_startup : Spells p mode_startup ("mode" ∷ "startup" ∷ [])
  spells_smoke : Spells p mode_smoke ("mode" ∷ "smoke" ∷ [])
  spells_shutdown : Spells p mode_shutdown ("mode" ∷ "shutdown" ∷ [])
  spells_stop : Spells p mode_stop ("mode" ∷ "stop" ∷ [])
  spells_monitor : Spells p mode_monitor ("mode" ∷ "monitor" ∷ [])
  spells_manual : Spells p mode_manual ("mode" ∷ "manual" ∷ [])
  spells_reignite : Spells p mode_reignite ("mode" ∷ "reignite" ∷ [])
  spells_lid : Spells p lid_open_toggle ("lid_open" ∷ "toggle" ∷ [])
  spells_splus : (b : Bool) → Spells p (smoke_plus b) ("splus" ∷ word b ∷ [])
  spells_pwm : (b : Bool) → Spells p (pwm_control b) ("pwm" ∷ word b ∷ [])
  spells_tuning : (b : Bool) → Spells p (tuning_mode b) ("tuning_mode" ∷ word b ∷ [])
  spells_hold :
      {t : String} {x : N}
      → p.isnumeric t ≡ true
      → p.to_float t ≡ some x
      → Spells p (mode_hold x) ("mode" ∷ "hold" ∷ t ∷ [])
  spells_psp :
      {t : String} {x : N}
      → p.isnumeric t ≡ true
      → p.to_float t ≡ some x
      → Spells p (setpoint x) ("psp" ∷ t ∷ [])

-- Both accept, and store the same control structure and settings.
pub record IsSame {N : Type 0} (r : Reply N × Store N) (a : CommandResult × World N) : Type 0 where
  pub reply : r.0 ≡ accepted nothing
  pub result : a.0 ≡ ok
  pub general : r.1.general ≡ a.1.redis.general
  pub settings : r.1.settings ≡ a.1.settings

module _ {N : Type 0} where
  -- The registry on the same control structure and settings.
  abbrev pub world_of : Store N → World N
  world_of s = record { redis = record { general = s.general; queue = [] }; settings = s.settings }
