-- ===== src/Control/Fan.antt =====
-- The control of the fan in Smoke and Hold modes, in `_work_cycle` (control.py): the lid, the duty
-- cycle by temperature, the fan's share in the controller's output, and Smoke Plus; and
-- `_start_fan`.
use fire_ai.Prelude.{
  Bool, true, false, not, ◌&&◌, ◌||◌, Option, none, some, List, [], ◌∷◌, if◌then◌else◌,
}
use fire_ai.Prelude.Num.{Num, ◌<?◌, ◌≤?◌, ◌=?◌, ◌+!◌, ◌-!◌, ◌*!◌, ◌/!◌, #, min, max}
use fire_ai.Types.{Mode, smoke}
use fire_ai.Settings.{Settings, Pwm}
use fire_ai.GrillPlatform.{GrillPlatform, auger_off, fan_on, fan_off, set_duty_cycle, pwm_fan_ramp}
use fire_ai.Notify.{burning}
use fire_ai.Control.{Cycle, Tick, Flow, on, raise, ◌>>=◌, write_control, with_platform}
use fire_ai.Control.Requests.{is_hold}

abbrev pub is_smoke : Mode → Bool
is_smoke smoke = true
is_smoke _ = false

module _ {N : Type 0} ⦃o : Num N⦄ where
  abbrev pub clamp_duty : Pwm N → N → N
  clamp_duty p duty_cycle = min (max duty_cycle p.min_duty_cycle) p.max_duty_cycle

  unfoldable pub start_fan : Settings N → Option N → GrillPlatform N → GrillPlatform N
  start_fan s duty_cycle p =
      if s.platform.dc_fan
      then fan_on (elim duty_cycle [ some d ↦ clamp_duty s.pwm d | none ↦ s.pwm.max_duty_cycle ]) p
      else fan_on (# 100) p

  -- The duty cycle of the first range that the pit is within; beyond the last, the maximum.
  unfoldable pub profile_duty : Pwm N → N → List N → List N → Option N
  profile_duty p below [] duties = some p.max_duty_cycle
  profile_duty p below (range ∷ ranges) [] =
      if below ≤? range then none else profile_duty p below ranges []
  profile_duty p below (range ∷ ranges) (duty ∷ duties) =
      if below ≤? range then some (clamp_duty p duty) else profile_duty p below ranges duties

module _ {N K : Type 0} ⦃o : Num N⦄ where
  abbrev pub fan_as_set : Cycle N K → Cycle N K
  fan_as_set s = with_platform (start_fan s.settings (some s.control.duty_cycle)) s

  unfoldable pub check_target : Mode → Cycle N K → Flow (Cycle N K)
  check_target mode s = on (
      if is_hold mode && (s.control.primary_setpoint ≤? s.ptemp) && not s.target_temp_achieved
      then record s { target_temp_achieved = true }
      else s)

  -- The pause for an open lid: auger and fan off.
  abbrev pub pause_for_lid : Tick N → Cycle N K → Cycle N K
  pause_for_lid t s = record s {
    lid_open_detect = true;
    platform = fan_off (auger_off s.platform);
    auger_toggle_time = t.now;
    lid_open_event_expires = t.now +! s.settings.cycle_data.lid_open_pause_time;
  }

  unfoldable pub detect_lid : Tick N → Cycle N K → Flow (Cycle N K)
  detect_lid t s =
      if s.target_temp_achieved
        && s.settings.cycle_data.lid_open_detect_enabled
        && (s.ptemp
            <? s.control.primary_setpoint
              *! ((# 100 -! s.settings.cycle_data.lid_open_threshold) /! # 100))
      then on (record (pause_for_lid t s) { target_temp_achieved = false })
      else on s

  -- 'Clear Lid Open Detect Event, Reset', and the user's toggle.
  unfoldable pub clear_lid : Mode → Tick N → Cycle N K → Flow (Cycle N K)
  clear_lid mode t s =
      if is_hold mode && s.lid_open_detect && (s.lid_open_event_expires <? t.time_lid)
      then on (record (fan_as_set s) { lid_open_detect = false })
      else on s

  unfoldable pub toggle_lid : Mode → Tick N → Cycle N K → Flow (Cycle N K)
  toggle_lid mode t s =
      if is_hold mode && s.control.lid_open_toggle
      then (let s' =
            write_control (record s { control = record s.control { lid_open_toggle = false } }) in
          on (
            if s.lid_open_detect
            then record s' { lid_open_detect = false }
            else pause_for_lid t s'))
      else on s

  set_duty : N → Cycle N K → Cycle N K
  set_duty d s = write_control (record s { control = record s.control { duty_cycle = d } })

  -- The duty cycle by temperature, if it is time for it. With no ranges nothing is set.
  unfoldable pub temperature_duty : Mode → Tick N → Cycle N K → Flow (Cycle N K)
  unfolding profile_duty set_duty
  temperature_duty mode t s =
      if s.settings.platform.dc_fan
        && is_hold mode
        && s.control.pwm_control
        && (s.settings.pwm.update_time <? (t.now -! s.fan_update_time))
      then (let s' = record s { fan_update_time = t.now } in
          if s.control.primary_setpoint <? s.ptemp
          then on (set_duty s.settings.pwm.min_duty_cycle s')
          else elim s.settings.pwm.temp_range_list [
            | [] ↦ on s'
            | _ ∷ _ ↦
                elim (profile_duty s.settings.pwm (s.control.primary_setpoint -! s.ptemp)
                  s.settings.pwm.temp_range_list s.settings.pwm.profiles) [
                    | none ↦ raise
                    | some d ↦ on (set_duty d s')
                  ]
          ])
      else on s

  -- The share of the fan's cycle: the controller's output by `u_min`, from 0 up.
  unfoldable pub fan_pid : Mode → Tick N → Cycle N K → Flow (Cycle N K)
  fan_pid mode t s =
      if is_hold mode
        && s.target_temp_achieved
        && s.control_fan_pid
        && not s.lid_open_detect
        && not s.control.pwm_control
      then (let sp = s.settings.smoke_plus in
          let total = if s.control.s_plus then sp.on_time +! sp.off_time else s.cycle_time in
          let max_ratio = if s.control.s_plus then sp.on_time /! total else # 1 in
          let ratio = max (# 0) (s.pid_output /! s.settings.cycle_data.u_min) *! max_ratio in
          let elapsed = t.now -! s.fan_cycle_toggle_time in
          if (total *! ratio <? elapsed) && s.current.fan
          then on (record (with_platform fan_off s) { fan_cycle_toggle_time = t.now })
          else if (total *! (# 1 -! ratio) <? elapsed) && not s.current.fan
          then on (record (fan_as_set s) { fan_cycle_toggle_time = t.now })
          else on s)
      else on s

  -- Smoke Plus: the fan's own cycle between the temperatures, and on outside them.
  unfoldable pub smoke_plus_cycle : Mode → Tick N → Cycle N K → Cycle N K
  smoke_plus_cycle mode t s =
      let sp = s.settings.smoke_plus in
      let elapsed = t.now -! s.fan_cycle_toggle_time in
      let free = s.manual_override.fan <? t.now in
      if ((sp.max_temp <? s.ptemp) || (s.ptemp <? sp.min_temp)) && free
      then (if s.current.fan then s else fan_as_set s)
      else if (sp.on_time <? elapsed) && s.current.fan
      then (if free
          then record (with_platform fan_off s) {
            manual_override = record s.manual_override { fan = # 0 };
            fan_cycle_toggle_time = t.now;
          }
          else s)
      else if (sp.off_time <? elapsed) && not s.current.fan && free
      then (if s.settings.platform.dc_fan
            && (is_smoke mode || (is_hold mode && not s.control.pwm_control))
            && sp.fan_ramp
          then record (with_platform pwm_fan_ramp s) {
            fan_cycle_toggle_time = t.now;
            pwm_fan_ramping = true;
          }
          else record (fan_as_set s) { fan_cycle_toggle_time = t.now })
      else s

  -- Without Smoke Plus: the fan back on, and the duty cycle as set.
  unfoldable pub plain_fan : Tick N → Cycle N K → Cycle N K
  unfolding set_duty
  plain_fan t s =
      let free = s.manual_override.fan <? t.now in
      let dc_fan = s.settings.platform.dc_fan in
      let off_duty = not (s.current.pwm =? s.control.duty_cycle) in
      let full = s.settings.pwm.max_duty_cycle in
      if not s.current.fan
        && not s.control.s_plus
        && not s.control_fan_pid
        && not s.lid_open_detect
        && free
      then fan_as_set s
      else if dc_fan && off_duty && not s.control.s_plus && s.pwm_fan_ramping && free
      then record (with_platform (set_duty_cycle s.control.duty_cycle) s) {
        pwm_fan_ramping = false;
      }
      else if dc_fan && s.control.pwm_control && off_duty && free
      then with_platform (set_duty_cycle s.control.duty_cycle) s
      else if dc_fan && not s.control.pwm_control && not (s.current.pwm =? full) && free
      then with_platform (set_duty_cycle full) (set_duty full s)
      else s

  unfoldable pub smoke_plus : Mode → Tick N → Cycle N K → Flow (Cycle N K)
  smoke_plus mode t s = on (
      if (is_smoke mode || (is_hold mode && s.target_temp_achieved))
        && s.control.s_plus
        && not s.control_fan_pid
        && not s.lid_open_detect
      then smoke_plus_cycle mode t s
      else plain_fan t s)

  unfoldable pub fan_control : Mode → Tick N → Cycle N K → Flow (Cycle N K)
  fan_control mode t s =
      if burning mode
      then check_target mode s
        >>= detect_lid t
        >>= clear_lid mode t
        >>= toggle_lid mode t
        >>= temperature_duty mode t
        >>= fan_pid mode t
        >>= smoke_plus mode t
      else on s
