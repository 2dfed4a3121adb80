-- ===== src/Control/Guards.antt =====
-- The safety tests of `_work_cycle` (control.py): what holds after a round that goes on.
use fire_ai.Prelude.{◌≡◌, true, false, arith}
use fire_ai.Prelude.Num.{Num, ◌<?◌, ◌-!◌}
use fire_ai.Types.{Mode}
use fire_ai.Notify.{burning}
use fire_ai.Control.{Controller, Cycle, Tick, on, >>=-eq-on}
use fire_ai.Control.Requests.{starting}
use fire_ai.Control.Fan.{fan_control}
use fire_ai.Control.Exits.{is_shutdown, is_prime, startup_exit, timed_exit, recipe_exit}
use fire_ai.Control.Safety.{safety_controls, max_temp_control}
use fire_ai.Control.WorkCycle.{check_ends, round}
use fire_ai.Control.Readings.{fan_control-Keeps}

-- The tests that end a round, all failed.
pub record IsGuarded {N K : Type 0} ⦃o : Num N⦄ (mode : Mode) (t : Tick N) (s : Cycle N K)
    : Type 0 where
  -- not above the maximum temperature
  pub below_max : (s.settings.safety.maxtemp <? s.ptemp) ≡ false
  -- in Smoke and Hold, not below the startup temperature
  pub lit : burning mode ≡ true → (s.ptemp <? s.control.safety.startuptemp) ≡ false
  -- within the times of Shutdown, of Prime, and of a startup without Smart Start
  pub shutdown_time :
      is_shutdown mode ≡ true → (s.settings.shutdown_duration <? (t.now -! s.start_time)) ≡ false
  pub prime_time : is_prime mode ≡ true → (s.prime_duration <? (t.now -! s.start_time)) ≡ false
  pub startup_time :
      starting mode ≡ true
      → s.settings.startup.smartstart.enabled ≡ false
      → (s.settings.startup.duration <? (t.now -! s.start_time)) ≡ false

module _ {N K : Type 0} ⦃o : Num N⦄ (mode : Mode) (t : Tick N) where
  safety_controls-lit :
      (s : Cycle N K) {s' : Cycle N K}
      → safety_controls mode s ≡ on s'
      → burning mode ≡ true
      → (s'.ptemp <? s'.control.safety.startuptemp) ≡ false
  unfolding safety_controls
  safety_controls-lit s h b = ground arith

  check_ends-IsGuarded :
      (s : Cycle N K) {s' : Cycle N K}
      → check_ends mode t s ≡ on s'
      → (burning mode ≡ true → (s.ptemp <? s.control.safety.startuptemp) ≡ false)
      → IsGuarded mode t s'
  unfolding check_ends startup_exit timed_exit max_temp_control recipe_exit
  check_ends-IsGuarded s h l = ground arith

  -- A round of `_work_cycle` that goes on to another has passed every safety test and time limit:
  -- the pit is not above the maximum temperature; in Smoke and Hold it is not below the startup
  -- temperature; and Shutdown, Prime, and a startup without Smart Start are within their times.
  pub round-IsGuarded :
      (ctl : Controller N K) (s : Cycle N K) {s' : Cycle N K}
      → round ctl mode t s ≡ on s'
      → IsGuarded mode t s'
  unfolding round
  round-IsGuarded ctl s h =
      let (a, toward, ends) = >>=-eq-on _ (check_ends mode t) h in
      let (b, toward', fan) = >>=-eq-on _ (fan_control mode t) toward in
      let (c, toward'', safe) = >>=-eq-on _ (safety_controls mode) toward' in
      let same = (fan_control-Keeps mode t).at b fan in
      check_ends-IsGuarded a ends
        λ burns. rw (same.ptemp, same.safety) (safety_controls-lit c safe burns)
