-- ===== src/Control/Exits.antt =====
-- The ends of a mode in `_work_cycle` (control.py): startup, shutdown and prime times, the exit
-- temperature, and the step of a recipe.
use fire_ai.Prelude.{Bool, true, false, not, ◌&&◌, none, some, get_elem?, if◌then◌else◌}
use fire_ai.Prelude.Num.{Num, ◌<?◌, ◌≤?◌, ◌=?◌, ◌-!◌, #}
use fire_ai.Types.{Mode, shutdown, prime}
use fire_ai.Notify.{recipe_step_message, is_recipe}
use fire_ai.Control.{Cycle, Tick, Flow, on, leave, raise, write_control, notify}
use fire_ai.Control.Requests.{starting}

abbrev pub is_shutdown : Mode → Bool
is_shutdown shutdown = true
is_shutdown _ = false

abbrev pub is_prime : Mode → Bool
is_prime prime = true
is_prime _ = false

module _ {N K : Type 0} ⦃o : Num N⦄ where
  -- The time is up, or the exit temperature is reached. A grill that started at the exit
  -- temperature or above has none (`exit_temp = 0`).
  unfoldable pub startup_over : N → N → Tick N → Cycle N K → Bool
  startup_over timer exit t s =
      let timed_out = timer <? (t.now -! s.start_time) in
      let started_hot = exit ≤? s.raw_startup_temp in
      let is_zero = exit =? # 0 in
      if timed_out then true else not started_hot && not is_zero && (exit ≤? s.ptemp)

  unfoldable pub startup_exit : Mode → Tick N → Cycle N K → Flow (Cycle N K)
  unfolding startup_over
  startup_exit mode t s =
      if not (starting mode)
      then on s
      else if s.settings.startup.smartstart.enabled
      then elim (get_elem? s.settings.startup.smartstart.profiles
          s.control.smartstart.profile_selected) [
            | none ↦ raise
            | some p ↦
                if startup_over p.startuptime s.settings.startup.smartstart.exit_temp t s
                then leave s
                else on s
          ]
      else if startup_over s.settings.startup.duration s.settings.startup.startup_exit_temp t s
      then leave s
      else on s

  unfoldable pub timed_exit : Mode → Tick N → Cycle N K → Flow (Cycle N K)
  timed_exit mode t s =
      if is_shutdown mode && (s.settings.shutdown_duration <? (t.now -! s.start_time))
      then leave s
      else if is_prime mode && (s.prime_duration <? (t.now -! s.start_time))
      then leave s
      else on s

  -- 'End of Loop Recipe Check': a triggered step ends, unless it waits for the user.
  unfoldable pub recipe_exit : Cycle N K → Flow (Cycle N K)
  recipe_exit s =
      let step = s.control.recipe.step_data in
      if is_recipe s.control.mode && step.triggered
      then (if not step.pause
          then leave (if step.notify then notify recipe_step_message s else s)
          else if step.notify
          then on (
              write_control (
                notify recipe_step_message (record s {
                  control = record s.control {
                    recipe = record s.control.recipe { step_data = record step { notify = false } };
                  };
                })))
          else on s)
      else on s
