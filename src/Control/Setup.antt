-- ===== src/Control/Setup.antt =====
-- `_work_cycle` (control.py) before its loop: the triggers of a recipe's step, the outputs, the
-- auger's times, the safety temperatures and Smart Start.
use text.Mathlib.Text.{◌==◌ as str_eq}
use fire_ai.Prelude.{
  ℕ, ◌+◌, String, Bool, true, false, not, ◌&&◌, ◌||◌, none, List, [], ◌∷◌, if◌then◌else◌,
}
use fire_ai.Prelude.Num.{Num, ◌<?◌, ◌+!◌, ◌*!◌, ◌=?◌, #}
use fire_ai.Types.{
  Mode, startup, reignite, smoke, hold, shutdown, NotifyKind, timer, Notify, Control,
}
use fire_ai.Settings.{Settings}
use fire_ai.GrillPlatform.{
  GrillPlatform, auger_on, auger_off, igniter_on, igniter_off, power_on, power_off, fan_off,
  set_pwm_frequency,
}
use fire_ai.Notify.{is_probe, is_recipe, burning}
use fire_ai.Control.Requests.{starting}
use fire_ai.Control.Auger.{feeding}
use fire_ai.Control.Exits.{is_prime}
use fire_ai.Control.Fan.{start_fan}

-- What the start of a cycle reads: settings.json, the switch, the pit, the clock.
pub record Start (N : Type 0) : Type 0 where
  pub settings : Settings N
  pub switch : Bool
  pub ptemp : N
  pub timer_start : N
  pub start_time : N
  pub hopper_level : N

abbrev is_timer : NotifyKind → Bool
is_timer timer = true
is_timer _ = false

-- the modes ('Startup', 'Reignite', 'Smoke', 'Hold', 'Shutdown')
abbrev pub fanned : Mode → Bool
fanned startup = true
fanned reignite = true
fanned smoke = true
fanned hold = true
fanned shutdown = true
fanned _ = false

abbrev pub is_startup : Mode → Bool
is_startup startup = true
is_startup _ = false

module _ {N : Type 0} ⦃o : Num N⦄ where
  has_timer : List (Notify N) → Bool
  has_timer [] = false
  has_timer (item ∷ rest) = is_timer item.kind || has_timer rest

  request_timer : List (Notify N) → List (Notify N)
  request_timer [] = []
  request_timer (item ∷ rest) =
      (if is_timer item.kind
        then record item { req = true; shutdown = false; keep_warm = false }
        else item)
      ∷ request_timer rest

  -- 'If requested, set Timer Trigger'
  unfoldable pub timer_trigger : N → Control N → Control N × Bool
  unfolding has_timer request_timer
  timer_trigger now c =
      let minutes = c.recipe.step_data.timer in
      if (# 0 <? minutes) && has_timer c.notify_data
      then (
        record c {
          notify_data = request_timer c.notify_data;
          timer = record {
            start = now;
            paused = # 0;
            end = now +! minutes *! # 60;
            shutdown = false;
          };
        },
        true,
      )
      else (c, false)

  -- The first entry of the probe is set, if there is one.
  unfoldable pub request_probe : String → N → List (Notify N) → List (Notify N) × Bool
  request_probe label value [] = ([], false)
  request_probe label value (item ∷ rest) =
      let (rest', found) = request_probe label value rest in
      if is_probe item.kind && str_eq item.label label
      then (record item { target = value; req = true } ∷ rest, true)
      else (item ∷ rest', found)

  -- 'If requested, set Probe Temp Triggers'
  unfoldable pub probe_triggers : List (String × N) → Control N × Bool → Control N × Bool
  unfolding request_probe
  probe_triggers [] (c, set) = (c, set)
  probe_triggers ((label, value) ∷ rest) (c, set) =
      let (items, found) = request_probe label value c.notify_data in
      probe_triggers rest
        (if # 0 <? value then (record c { notify_data = items }, set || found) else (c, set))

  unfoldable pub recipe_triggers : Mode → N → Control N → Control N × Bool
  recipe_triggers mode now c =
      if is_recipe c.mode && burning mode
      then probe_triggers c.recipe.step_data.trigger_temps (timer_trigger now c)
      else (c, false)

  -- The outputs with which a mode starts.
  unfoldable pub start_outputs : Mode → Settings N → Control N → GrillPlatform N → GrillPlatform N
  unfolding start_fan
  start_outputs mode settings c p =
      let tuned =
        if settings.platform.dc_fan && not (settings.pwm.frequency =? p.frequency)
        then set_pwm_frequency settings.pwm.frequency p
        else p in
      let off = auger_off (igniter_off tuned) in
      let fanned_on =
        if fanned mode
        then power_on (
            start_fan settings (if starting mode then settings.startup.pwm_duty_cycle else none)
              off)
        else if is_prime mode
        then power_on (fan_off off)
        else power_off (fan_off off) in
      let lit = if starting mode then igniter_on fanned_on else fanned_on in
      let fed = if feeding mode then auger_on lit else lit in
      if is_prime mode && settings.prime_ignition && is_startup c.next_mode
      then igniter_on fed
      else fed

  -- The first profile whose range the temperature is below; else the one past the last range.
  unfoldable pub select_profile : N → ℕ → List N → ℕ
  select_profile temp i [] = i
  select_profile temp i (range ∷ ranges) =
      if temp <? range then i else select_profile temp (i + 1) ranges
