-- ===== src/Control/Requests.antt =====
-- The first half of the loop of `_work_cycle` (control.py): what other processes requested, the
-- switch, and the manual changes of the outputs.
use fire_ai.Prelude.{Bool, true, false, not, ◌&&◌, ◌||◌, Option, none, some, if◌then◌else◌}
use fire_ai.Prelude.Num.{Num, ◌<?◌, ◌=?◌, ◌+!◌, ◌-!◌, ◌*!◌, ◌/!◌, #}
use fire_ai.Types.{
  Mode, stop, startup, reignite, smoke, hold, manual, active, Output, power, igniter, fan, auger,
  pwm,
}
use fire_ai.Settings.{Settings}
use fire_ai.GrillPlatform.{
  auger_on, auger_off, igniter_on, igniter_off, power_on, power_off, fan_on, fan_off,
  set_duty_cycle, get_output_status,
}
use fire_ai.ControlWrites.{merge_writes}
use fire_ai.Control.{Controller, Cycle, Tick, Flow, on, leave, write_control, with_platform}

abbrev pub is_hold : Mode → Bool
is_hold hold = true
is_hold _ = false

abbrev pub is_manual : Mode → Bool
is_manual manual = true
is_manual _ = false

-- the modes ('Startup', 'Reignite')
abbrev pub starting : Mode → Bool
starting startup = true
starting reignite = true
starting _ = false

-- the modes ('Startup', 'Reignite', 'Smoke')
abbrev pub smoke_timed : Mode → Bool
smoke_timed startup = true
smoke_timed reignite = true
smoke_timed smoke = true
smoke_timed _ = false

abbrev pub bool_eq : Bool → Bool → Bool
bool_eq true b = b
bool_eq false b = not b

module _ {N K : Type 0} ⦃o : Num N⦄ where
  -- `execute_control_writes(); control = read_control()`, and the test of `updated`
  unfoldable pub take_writes : Tick N → Cycle N K → Flow (Cycle N K)
  unfolding merge_writes
  take_writes t s =
      let c = merge_writes s.stored t.writes in
      let s' = record s { control = c; stored = c } in if c.updated then leave s' else on s'

  -- The auger times of the modes without a controller, from the settings.
  abbrev pub smoke_cycle : Settings N → Cycle N K → Cycle N K
  smoke_cycle settings s =
      let on_time = settings.cycle_data.smoke_on_cycle_time in
      let total =
        on_time
        +! (settings.cycle_data.smoke_off_cycle_time +! settings.cycle_data.pmode *! # 10) in
      record s { cycle_time = total; cycle_ratio = on_time /! total }

  unfoldable pub update_settings : Mode → Tick N → Cycle N K → Flow (Cycle N K)
  update_settings mode t s =
      if s.control.settings_update
      then (let s' =
            write_control (record s { control = record s.control { settings_update = false } }) in
          let s'' = record s' { settings = t.settings } in
          on (if smoke_timed mode then smoke_cycle t.settings s'' else s''))
      else on s

  unfoldable pub update_controller : Controller N K → Mode → Tick N → Cycle N K → Flow (Cycle N K)
  update_controller ctl mode t s =
      if s.control.controller_update && is_hold mode
      then (let s' =
            write_control (record s { control = record s.control { controller_update = false } }) in
          on (record s' {
            settings = t.settings;
            controller = ctl.create t.settings s'.control.primary_setpoint;
          }))
      else on s

  unfoldable pub update_distances : Cycle N K → Flow (Cycle N K)
  update_distances s =
      if s.control.distance_update
      then on (write_control (record s { control = record s.control { distance_update = false } }))
      else on s

  -- The level is read when that is requested, or after 60 seconds.
  unfoldable pub check_hopper_level : Tick N → Cycle N K → Flow (Cycle N K)
  check_hopper_level t s =
      if s.control.hopper_check || (# 60 <? (t.now -! s.hopper_toggle_time))
      then (let s' =
            if s.control.hopper_check
            then write_control (record s { control = record s.control { hopper_check = false } })
            else s in
          on (record s' { hopper_level = t.level; hopper_toggle_time = t.now }))
      else on s

  unfoldable pub check_switch : Tick N → Cycle N K → Flow (Cycle N K)
  check_switch t s =
      if not s.settings.platform.standalone && not (bool_eq s.last t.switch)
      then (let s' = record s { last = t.switch_again } in
          if t.switch_again
          then on s'
          else leave (
              write_control (record s' {
                control = record s'.control { updated = true; mode = stop; status = active };
              })))
      else on s

  unfoldable pub read_outputs : Cycle N K → Flow (Cycle N K)
  read_outputs s = on (record s { current = get_output_status s.platform })

  -- One output, if it is not what was asked for; `pwm` only with a DC fan that runs.
  unfoldable pub change_output : Output → N → Cycle N K → Cycle N K
  change_output fan until s =
      let s' = record s { manual_override = record s.manual_override { fan = until } } in
      if s.control.manual.output && not s.current.fan
      then with_platform (fan_on (# 100)) s'
      else if not s.control.manual.output && s.current.fan
      then with_platform fan_off s'
      else s'
  change_output auger until s =
      let s' = record s { manual_override = record s.manual_override { auger = until } } in
      if s.control.manual.output && not s.current.auger
      then with_platform auger_on s'
      else if not s.control.manual.output && s.current.auger
      then with_platform auger_off s'
      else s'
  change_output igniter until s =
      let s' = record s { manual_override = record s.manual_override { igniter = until } } in
      if s.control.manual.output && not s.current.igniter
      then with_platform igniter_on s'
      else if not s.control.manual.output && s.current.igniter
      then with_platform igniter_off s'
      else s'
  change_output power until s =
      let s' = record s { manual_override = record s.manual_override { power = until } } in
      if s.control.manual.output && not s.current.power
      then with_platform power_on s'
      else if not s.control.manual.output && s.current.power
      then with_platform power_off s'
      else s'
  change_output pwm until s =
      let speed = s.control.manual.pwm in
      if s.settings.platform.dc_fan && s.current.fan && not (speed =? s.current.pwm)
      then (let s' = with_platform (set_duty_cycle speed) s in
          record s' {
            manual_override = record s.manual_override { pwm = until };
            control = record s.control { manual = record s.control.manual { pwm = # 100 } };
          })
      else s

  change_requested : Mode → Tick N → Option Output → Cycle N K → Cycle N K
  unfolding change_output
  change_requested mode t none s = s
  change_requested mode t (some output) s =
      let until = if is_manual mode then # 0 else t.now +! s.settings.safety.manual_override_time in
      let s' = change_output output until s in
      write_control (record s' {
        control = record s'.control {
          manual = record s'.control.manual { change = none; output = false };
        };
      })

  -- Outside Manual mode the settings must allow the changes.
  unfoldable pub manual_changes : Mode → Tick N → Cycle N K → Flow (Cycle N K)
  unfolding change_requested
  manual_changes mode t s =
      if is_manual mode || s.settings.safety.allow_manual_changes
      then on (change_requested mode t s.control.manual.change s)
      else on s
