-- ===== src/Control/WorkCycle.antt =====
-- `_work_cycle` of control.py: how its parts are composed. The display, the history and the
-- metrics other than the auger's time are output alone and are left out. Cycle times are not 0.
use fire_ai.Prelude.{
  Bool, true, false, not, ◌&&◌, Option, none, some, List, [], ◌∷◌, get_elem?, if◌then◌else◌,
}
use fire_ai.Prelude.Num.{Num, ◌<?◌, ◌+!◌, ◌*!◌, ◌/!◌, #, min, max}
use fire_ai.Types.{Mode, shutdown, monitor, manual, prime, Control}
use fire_ai.Settings.{Settings, Profile}
use fire_ai.GrillPlatform.{
  GrillPlatform, auger_off, igniter_off, power_off, fan_off, get_output_status,
}
use fire_ai.Notify.{burning}
use fire_ai.Control.{
  Controller, Cycle, Tick, Flow, on, leave, raise, ◌>>=◌, write_control, with_platform,
}
use fire_ai.Control.Requests.{
  is_hold, starting, smoke_timed, smoke_cycle, take_writes, update_settings, update_controller,
  update_distances, check_hopper_level, check_switch, read_outputs, manual_changes,
}
use fire_ai.Control.Auger.{auger_control}
use fire_ai.Control.Safety.{read_probes, notifications, fire_out, safety_controls, max_temp_control}
use fire_ai.Control.Fan.{fan_control}
use fire_ai.Control.Exits.{is_prime, startup_exit, timed_exit, recipe_exit}
use fire_ai.Control.Setup.{Start, is_startup, recipe_triggers, start_outputs, select_profile}

-- the modes ('Shutdown', 'Monitor', 'Manual', 'Prime')
abbrev pub ends_dark : Mode → Bool
ends_dark shutdown = true
ends_dark monitor = true
ends_dark manual = true
ends_dark prime = true
ends_dark _ = false

module _ {N : Type 0} ⦃o : Num N⦄ where
  -- The startup temperature: nine tenths of the pit's, between the limits of the settings.
  unfoldable pub startup_temp : Settings N → N → N
  startup_temp s ptemp =
      o.trunc (
        min (o.trunc (max (ptemp *! (# 9 /! # 10)) s.safety.minstartuptemp))
          s.safety.maxstartuptemp)

module _ {N K : Type 0} ⦃o : Num N⦄ where
  -- The variables before the safety controls, with the outputs of the mode.
  unfoldable pub enter : Mode → Start N → Control N → GrillPlatform N → Cycle N K
  enter mode start c p =
      let checked = record c { hopper_check = true } in
      let (triggered, set) = recipe_triggers mode start.timer_start checked in
      let p' = start_outputs mode start.settings triggered p in
      record {
        settings = start.settings;
        control = triggered;
        stored = if set then triggered else checked;
        platform = p';
        current = get_output_status p';
        sent = [];
        active = true;
        last = start.switch;
        controller = none;
        cycle_time = # 0;
        cycle_ratio = # 0;
        lid_open_detect = false;
        lid_open_event_expires = # 0;
        ptemp = start.ptemp;
        raw_startup_temp = start.ptemp;
        start_time = start.start_time;
        controller_cycle_start = start.start_time;
        eta_toggle_time = start.start_time;
        auger_toggle_time = start.start_time;
        fan_cycle_toggle_time = start.start_time;
        hopper_toggle_time = start.start_time;
        fan_update_time = start.start_time;
        target_temp_achieved = false;
        pwm_fan_ramping = false;
        manual_override = record { igniter = # 0; auger = # 0; fan = # 0; power = # 0; pwm = # 0 };
        pid_output = # 0;
        control_fan_pid = false;
        prime_duration = # 0;
        augerontime = # 0;
        hopper_level = start.hopper_level;
      }

  -- The auger's times of the mode, and the controller in Hold mode.
  unfoldable pub set_times : Controller N K → Mode → Cycle N K → Cycle N K
  set_times ctl mode s =
      if smoke_timed mode
      then smoke_cycle s.settings s
      else if is_hold mode
      then (let core = ctl.create s.settings s.control.primary_setpoint in
          record s {
            cycle_time = s.settings.cycle_data.hold_cycle_time;
            cycle_ratio = s.settings.cycle_data.u_min;
            controller = core;
            active = elim core [ none ↦ false | some _ ↦ true ];
          })
      else if is_prime mode
      then (let duration = o.trunc (s.control.prime_amount /! s.settings.augerrate) in
          record s {
            prime_duration = duration;
            cycle_time = duration +! # 1;
            cycle_ratio = duration /! (duration +! # 1);
          })
      else s

  unfoldable pub enter_safety : Mode → Cycle N K → Cycle N K
  unfolding startup_temp fire_out
  enter_safety mode s =
      if starting mode
      then write_control (record s {
        control = record s.control {
          safety = record s.control.safety {
            startuptemp = startup_temp s.settings s.ptemp;
            afterstarttemp = s.ptemp;
          };
        };
      })
      else if burning mode && (s.control.safety.afterstarttemp <? s.control.safety.startuptemp)
      then record (fire_out mode s.control.safety.reigniteretries s) { active = false }
      else s

  apply_profile : Option (Profile N) → Cycle N K → Flow (Cycle N K)
  apply_profile none s = raise
  apply_profile (some p) s =
      let total =
        p.augerontime +! (s.settings.cycle_data.smoke_off_cycle_time +! p.p_mode *! # 10) in
      on (record s { cycle_time = total; cycle_ratio = p.augerontime /! total })

  -- The profile by the temperature at the start. With no ranges it stays as it was.
  unfoldable pub choose_profile : Mode → Cycle N K → Cycle N K
  unfolding select_profile
  choose_profile mode s =
      if not (starting mode)
      then s
      else (let temp = o.trunc s.ptemp in
          let c = record s.control {
            smartstart = record s.control.smartstart { startuptemp = temp };
          } in
          elim s.settings.startup.smartstart.temp_range_list [
            | [] ↦ record s { control = c }
            | range ∷ ranges ↦ write_control (record s {
              control = record c {
                smartstart = record c.smartstart {
                  profile_selected = select_profile temp 0 (range ∷ ranges);
                };
              };
            })
          ])

  unfoldable pub smart_start : Mode → Cycle N K → Flow (Cycle N K)
  unfolding apply_profile choose_profile
  smart_start mode s =
      if s.settings.startup.smartstart.enabled && smoke_timed mode
      then (let s' = choose_profile mode s in
          apply_profile
            (get_elem? s'.settings.startup.smartstart.profiles
              s'.control.smartstart.profile_selected)
            s')
      else on s

  unfoldable pub stamp_startup : Mode → Cycle N K → Flow (Cycle N K)
  stamp_startup mode s = on (
      if is_startup mode
      then write_control
          (record s { control = record s.control { startup_timestamp = s.start_time } })
      else s)

  -- All that stands before the loop; `leave` where `status` is no longer 'Active'.
  unfoldable pub set_up :
      Controller N K → Mode → Start N → Control N → GrillPlatform N → Flow (Cycle N K)
  unfolding enter set_times enter_safety smart_start stamp_startup
  set_up ctl mode start c p =
      smart_start mode (enter_safety mode (set_times ctl mode (enter mode start c p)))
      >>= stamp_startup mode
      >>= λ s. if s.active then on s else leave s

  -- What other processes asked for, up to the readings.
  unfoldable pub serve_requests : Controller N K → Mode → Tick N → Cycle N K → Flow (Cycle N K)
  serve_requests ctl mode t s =
      take_writes t s
      >>= update_settings mode t
      >>= update_controller ctl mode t
      >>= update_distances
      >>= check_hopper_level t
      >>= check_switch t
      >>= read_outputs
      >>= manual_changes mode t

  -- The ends of a round, after its safety controls.
  unfoldable pub check_ends : Mode → Tick N → Cycle N K → Flow (Cycle N K)
  check_ends mode t s =
      startup_exit mode t s >>= timed_exit mode t >>= max_temp_control >>= recipe_exit

  -- One round of the loop.
  unfoldable pub round : Controller N K → Mode → Tick N → Cycle N K → Flow (Cycle N K)
  unfolding serve_requests check_ends
  round ctl mode t s =
      serve_requests ctl mode t s
      >>= auger_control ctl mode t
      >>= read_probes t
      >>= notifications t
      >>= safety_controls mode
      >>= fan_control mode t
      >>= check_ends mode t

  -- The loop, over the rounds that the outside world gives it.
  unfoldable pub loop : Controller N K → Mode → List (Tick N) → Cycle N K → Flow (Cycle N K)
  unfolding round
  loop ctl mode [] s = on s
  loop ctl mode (t ∷ ts) s = round ctl mode t s >>= loop ctl mode ts

  -- 'Clean-up and Exit'
  unfoldable pub clean_up : Mode → Cycle N K → Cycle N K
  clean_up mode s =
      let s' = with_platform (λ p. igniter_off (auger_off p)) s in
      let s'' = if ends_dark mode then with_platform (λ p. power_off (fan_off p)) s' else s' in
      if starting mode
      then write_control (record s'' {
        control = record s''.control {
          safety = record s''.control.safety { afterstarttemp = s''.ptemp };
        };
      })
      else s''

-- How a run of `_work_cycle` stands after the given rounds.
pub data Outcome (S : Type 0) : Type 0 where
  running : S → Outcome S
  ended : S → Outcome S
  failed : Outcome S

module _ {N K : Type 0} ⦃o : Num N⦄ where
  abbrev pub outcome : Mode → Flow (Cycle N K) → Outcome (Cycle N K)
  outcome mode (on s) = running s
  outcome mode (leave s) = ended (clean_up mode s)
  outcome mode raise = failed

  unfoldable pub work_cycle :
      Controller N K
      → Mode
      → Start N
      → List (Tick N)
      → Control N
      → GrillPlatform N
      → Outcome (Cycle N K)
  unfolding set_up loop clean_up
  work_cycle ctl mode start ticks c p =
      outcome mode (set_up ctl mode start c p >>= loop ctl mode ticks)
