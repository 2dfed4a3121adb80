-- ===== src/Control/Auger.antt =====
-- 'Change Auger State based on Cycle Time', control.py: the controller's turn in Hold mode, and
-- the switching of the auger.
use fire_ai.Prelude.{Bool, true, false, not, ◌&&◌, Option, none, some, if◌then◌else◌}
use fire_ai.Prelude.Num.{Num, ◌<?◌, ◌+!◌, ◌-!◌, ◌*!◌, #, min}
use fire_ai.Types.{Mode, startup, reignite, smoke, hold, prime}
use fire_ai.GrillPlatform.{auger_on, auger_off}
use fire_ai.Control.{Controller, Cycle, Tick, Flow, on, raise, ◌>>=◌, with_platform}
use fire_ai.Control.Requests.{is_hold}

-- the modes ('Startup', 'Reignite', 'Smoke', 'Hold', 'Prime')
abbrev pub feeding : Mode → Bool
feeding startup = true
feeding reignite = true
feeding smoke = true
feeding hold = true
feeding prime = true
feeding _ = false

module _ {N K : Type 0} ⦃o : Num N⦄ where
  -- The ratio after the controller's turn, and whether the fan takes over below `u_min`.
  unfoldable pub set_ratio : N → Cycle N K → Cycle N K
  set_ratio raw s =
      let low = raw <? s.settings.cycle_data.u_min in
      record s {
        cycle_ratio =
            min (if low then s.settings.cycle_data.u_min else raw) s.settings.cycle_data.u_max;
        control_fan_pid = low && s.settings.cycle_data.fan_pid_enabled && not s.control.pwm_control;
      }

  unfoldable pub run_controller : Controller N K → Tick N → Option K → Cycle N K → Flow (Cycle N K)
  unfolding set_ratio
  run_controller ctl t none s = raise
  run_controller ctl t (some k) s =
      let (output, k') = ctl.update k s.ptemp in
      on (
        set_ratio (if s.lid_open_detect then s.settings.cycle_data.u_min else output)
          (record s { controller = some k'; pid_output = output; controller_cycle_start = t.now }))

  -- The controller has its turn once in each cycle.
  unfoldable pub controller_turn : Controller N K → Mode → Tick N → Cycle N K → Flow (Cycle N K)
  unfolding run_controller
  controller_turn ctl mode t s =
      if is_hold mode && (s.cycle_time <? (t.now -! s.controller_cycle_start))
      then run_controller ctl t s.controller s
      else on s

  -- The auger turns off after its share of the cycle, and on after the rest of it.
  unfoldable pub toggle_auger : Mode → Tick N → Cycle N K → Cycle N K
  toggle_auger mode t s =
      if s.current.auger
      then (if (s.cycle_time *! s.cycle_ratio) <? (t.now -! s.auger_toggle_time)
          then record (with_platform auger_off s) {
            augerontime = s.augerontime +! (t.now -! s.auger_toggle_time);
            auger_toggle_time = t.now;
          }
          else s)
      else if (s.cycle_time *! (# 1 -! s.cycle_ratio)) <? (t.now -! s.auger_toggle_time)
      then (let total = s.settings.cycle_data.hold_cycle_time in
          record (with_platform auger_on s) {
            auger_toggle_time = t.now;
            cycle_time =
                if is_hold mode
                then total *! s.cycle_ratio +! total *! (# 1 -! s.cycle_ratio)
                else s.cycle_time;
          })
      else s

  -- A manual change of the auger holds until its time has passed.
  unfoldable pub auger_cycle : Mode → Tick N → Cycle N K → Flow (Cycle N K)
  unfolding toggle_auger
  auger_cycle mode t s =
      if s.manual_override.auger <? t.now
      then on (
          toggle_auger mode t
            (record s { manual_override = record s.manual_override { auger = # 0 } }))
      else on s

  unfoldable pub auger_control : Controller N K → Mode → Tick N → Cycle N K → Flow (Cycle N K)
  unfolding controller_turn auger_cycle
  auger_control ctl mode t s =
      if feeding mode then controller_turn ctl mode t s >>= auger_cycle mode t else on s
