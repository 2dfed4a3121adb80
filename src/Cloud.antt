-- ===== src/Cloud.antt =====
-- The command registry as the cloud bridge has it: core/commands.py behind the interface that
-- bridge/sync.py uses. The arguments' parsing by the argument models is a parameter: it makes a
-- document's name and arguments a command.
use text.Mathlib.Text.{◌==◌ as str_eq}
use fire_ai.Prelude.{
  ◌≡◌, refl, sym, subst, ◌∙◌, String, Bool, true, false, Option, none, some, List, [], ◌∷◌,
  if◌then◌else◌,
}
use fire_ai.Prelude.Num.{Num}
use fire_ai.Types.{Mode}
use fire_ai.Commands.{Command, CommandResult, ok, error, Host, World}
use fire_ai.Commands.Handlers.{execute}
use fire_ai.Commands.Merged.{requested_mode, merged, execute-requested_mode}
use fire_ai.Bridge.{CommandDoc, Registry, Bridge, Moment, done, failed, handle_command}
use fire_ai.Bridge.Checks.{IsPassed, handle_command_runs}

-- `_REGISTRY`: the names, and whether the cloud may issue them.
abbrev pub command_table : List (String × Bool)
command_table =
    ("mode.startup", true)
    ∷ ("mode.smoke", true)
    ∷ ("mode.shutdown", true)
    ∷ ("mode.stop", true)
    ∷ ("mode.monitor", true)
    ∷ ("mode.manual", true)
    ∷ ("mode.reignite", true)
    ∷ ("mode.hold", true)
    ∷ ("mode.prime", true)
    ∷ ("setpoint", true)
    ∷ ("smoke_plus", true)
    ∷ ("pwm_control", true)
    ∷ ("duty_cycle", true)
    ∷ ("pmode", true)
    ∷ ("units", true)
    ∷ ("lid_open.toggle", true)
    ∷ ("tuning_mode", true)
    ∷ ("timer.start", true)
    ∷ ("timer.pause", true)
    ∷ ("timer.resume", true)
    ∷ ("timer.stop", true)
    ∷ ("notify.set", true)
    ∷ ("manual.output", true)
    ∷ ("manual.pwm", true)
    ∷ ("recipe.start", true)
    ∷ ("recipe.continue", true)
    ∷ ("settings.patch", true)
    ∷ ("hopper.check", true)
    ∷ ("system.restart_control", false)
    ∷ ("system.reboot", false)
    ∷ ("system.shutdown", false)
    ∷ []

unfoldable pub find_command : String → List (String × Bool) → Option Bool
find_command name [] = none
find_command name ((n, allowed) ∷ rest) =
    if str_eq n name then some allowed else find_command name rest

abbrev is_ok : CommandResult → Bool
is_ok ok = true
is_ok (error code) = false

module _ {N : Type 0} ⦃o : Num N⦄ (host : Host N) (parse : CommandDoc N → Command N) where
  abbrev pub cloud_registry : Registry N (World N)
  cloud_registry = record {
    cloud_allowed = λ name. find_command name command_table;
    execute = λ cmd w. let (result, w') = execute host false (parse cmd) w in (is_ok result, w');
  }

  is_ok-ok : (r : CommandResult) → (if is_ok r then done else failed) ≡ done → r ≡ ok
  is_ok-ok ok h = refl
  is_ok-ok (error code) h = cc

  -- A command of the cloud that asks for a mode and ends done has its effect: whatever writes
  -- waited, once the control process has merged the queue the control structure has that mode and
  -- announces it.
  pub handle_command-requested_mode :
      (m : Moment N) (id : String) (cmd : CommandDoc N) (b : Bridge N (World N)) (mode : Mode)
      → IsPassed cloud_registry m cmd b
      → requested_mode (parse cmd) ≡ some mode
      → (handle_command cloud_registry m id cmd b).1 ≡ done
      → let c = (merged (handle_command cloud_registry m id cmd b).0.world).redis.general in
        (c.mode ≡ mode) × (c.updated ≡ true)
  handle_command-requested_mode m id cmd b mode passed asks fine =
      let (world, status) = handle_command_runs cloud_registry m id cmd b passed in
      let accepted = is_ok-ok (execute host false (parse cmd) b.world).0 (sym status ∙ fine) in
      let (is_mode, told, drained) =
        execute-requested_mode host (parse cmd) b.world mode asks accepted in
      subst
        (λ (w : World N).
          ((merged w).redis.general.mode ≡ mode) × ((merged w).redis.general.updated ≡ true))
        (sym world) (is_mode, told)
