-- ===== src/Commands/Entries.antt =====
-- What every command of core/commands.py leaves alone in the control structure.
use fire_ai.Prelude.{◌≡◌, Option, String, map}
use fire_ai.Prelude.Num.{Num}
use fire_ai.Types.{Notify, NotifyKind, Control}
use fire_ai.ControlWrites.{deep_update}
use fire_ai.Commands.{Answer, raise, patch, World}

-- What an entry is looked up by.
abbrev pub entry_key : {N : Type 0} → Notify N → String × NotifyKind
entry_key e = (e.label, e.kind)

pub record CommandKeeps {N : Type 0} (c c' : Control N) : Type 0 where
  pub entries : map entry_key c'.notify_data ≡ map entry_key c.notify_data
  pub safety : c'.safety ≡ c.safety
  pub smartstart : c'.smartstart ≡ c.smartstart
  pub status : c'.status ≡ c.status
  pub startup_timestamp : c'.startup_timestamp ≡ c.startup_timestamp
  pub critical_error : c'.critical_error ≡ c.critical_error

module _ {N : Type 0} where
  -- What the patch of an answer keeps.
  abbrev Keeps : Answer N → World N → Type 0
  Keeps (raise code) w = Unit
  Keeps (patch s p) w = CommandKeeps w.redis.general (deep_update w.redis.general p)
