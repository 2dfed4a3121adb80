-- ===== src/Scenarios/Cycles.antt =====
-- The theorems on work cycles at concrete cycles.
use fire_ai.Prelude.{ℕ, All, ◌≡◌, refl, true, false, List, [], ◌∷◌, some}
use fire_ai.Prelude.Num.{nat_num, nat_order, ◌≤?◌}
use fire_ai.ControlWrites.{Assign}
use fire_ai.Types.{Control, Mode, smoke, hold, shutdown}
use fire_ai.Control.{Cycle, Tick, Flow, on, leave, raise}
use fire_ai.Control.Requests.{
  take_writes, update_settings, update_controller, update_distances, check_hopper_level,
  check_switch, read_outputs, manual_changes,
}
use fire_ai.Control.Auger.{controller_turn, auger_control}
use fire_ai.Control.Fan.{
  start_fan, check_target, detect_lid, clear_lid, toggle_lid, temperature_duty, fan_pid, plain_fan,
  smoke_plus, fan_control,
}
use fire_ai.Control.Exits.{startup_exit, timed_exit, recipe_exit}
use fire_ai.Control.Safety.{read_probes, notifications, safety_controls, max_temp_control}
use fire_ai.Control.Setup.{start_outputs, recipe_triggers}
use fire_ai.Control.WorkCycle.{enter, loop, Outcome, running, ended, failed, work_cycle}
use fire_ai.Control.Interlocks.{IsLocked, Forbids, work_cycle-IsLocked}
use fire_ai.Control.Lid.{work_cycle-IsPaused}
use fire_ai.Control.Ratio.{controller_turn_bounds}
use fire_ai.Notify.{check_notify}
use fire_ai.Scenarios.{control_in, platform, start, tick_at, counting}

abbrev state_of : Mode → Outcome (Cycle ℕ ℕ) → Cycle ℕ ℕ
state_of mode (running s) = s
state_of mode (ended s) = s
state_of mode failed = enter mode start (control_in mode) platform

abbrev flow_of : Mode → Flow (Cycle ℕ ℕ) → Cycle ℕ ℕ
flow_of mode (on s) = s
flow_of mode (leave s) = s
flow_of mode raise = enter mode start (control_in mode) platform

abbrev shutdown_rounds : List (Tick ℕ)
shutdown_rounds = tick_at 501 180 ∷ tick_at 502 179 ∷ []

abbrev shutting_down : Cycle ℕ ℕ
shutting_down =
    state_of shutdown
      (work_cycle counting shutdown start shutdown_rounds (control_in shutdown) platform)

shutdown_runs :
    work_cycle counting shutdown start shutdown_rounds (control_in shutdown) platform
    ≡ running shutting_down
unfolding work_cycle enter start_outputs start_fan recipe_triggers take_writes update_settings
    update_controller update_distances check_hopper_level check_switch read_outputs manual_changes
    auger_control read_probes notifications check_notify safety_controls fan_control startup_exit
    timed_exit max_temp_control recipe_exit
shutdown_runs = refl

rounds_forbid : All (Forbids {N = ℕ}) shutdown_rounds
rounds_forbid = (record { no_changes = refl }, (record { no_changes = refl }, tt))

work_cycle-IsLocked_example : IsLocked shutdown false true shutting_down
work_cycle-IsLocked_example =
    work_cycle-IsLocked counting shutdown start (control_in shutdown) platform shutdown_rounds refl
      refl rounds_forbid shutdown_runs

-- In Hold mode the lid is opened by the user's toggle.
abbrev lid_round : Tick ℕ
lid_round = record (tick_at 501 180) { writes = (Assign.lid_open_toggle true ∷ []) ∷ [] }

abbrev warm : Mode → Control ℕ
warm mode =
    let c = control_in mode in record c { safety = record c.safety { afterstarttemp = 180 } }

abbrev lid_open : Cycle ℕ ℕ
lid_open = state_of hold (work_cycle counting hold start (lid_round ∷ []) (warm hold) platform)

lid_opens : work_cycle counting hold start (lid_round ∷ []) (warm hold) platform ≡ running lid_open
unfolding work_cycle enter start_outputs start_fan recipe_triggers take_writes update_settings
    update_controller update_distances check_hopper_level check_switch read_outputs manual_changes
    auger_control read_probes notifications check_notify safety_controls fan_control smoke_plus
    plain_fan startup_exit timed_exit max_temp_control recipe_exit check_target detect_lid clear_lid
    toggle_lid temperature_duty fan_pid
lid_opens = refl

lid_is_open : lid_open.lid_open_detect ≡ true
unfolding work_cycle enter start_outputs start_fan recipe_triggers take_writes update_settings
    update_controller update_distances check_hopper_level check_switch read_outputs manual_changes
    auger_control read_probes notifications check_notify safety_controls fan_control smoke_plus
    plain_fan startup_exit timed_exit max_temp_control recipe_exit check_target detect_lid clear_lid
    toggle_lid temperature_duty fan_pid
lid_is_open = refl

work_cycle-IsPaused_example : lid_open.platform.fan ≡ false
work_cycle-IsPaused_example =
    work_cycle-IsPaused counting hold start (warm hold) platform (lid_round ∷ []) refl refl
      (record { no_changes = refl }, tt) lid_opens lid_is_open

-- The fire is out at the start of Smoke mode.
abbrev out : Cycle ℕ ℕ
out = state_of smoke (work_cycle counting smoke start [] (control_in smoke) platform)

-- A round of Shutdown mode, from the start of the cycle.
abbrev entered : Cycle ℕ ℕ
entered = enter shutdown start (control_in shutdown) platform

abbrev one_round : Cycle ℕ ℕ
one_round = flow_of shutdown (loop counting shutdown (tick_at 501 180 ∷ []) entered)

-- The controller's turn, in a cycle of Hold mode that is over.
abbrev due : Cycle ℕ ℕ
due = record (enter hold start (warm hold) platform) { controller = some 12; cycle_time = 25 }

abbrev turned : Cycle ℕ ℕ
turned = flow_of hold (controller_turn counting hold (tick_at 530 180) due)

turn_goes_on : controller_turn counting hold (tick_at 530 180) due ≡ on turned
unfolding controller_turn enter
turn_goes_on = refl

controller_turn_bounds_example :
    ((1 ≤? turned.cycle_ratio) ≡ true) × ((turned.cycle_ratio ≤? 9) ≡ true)
unfolding enter
controller_turn_bounds_example =
    controller_turn_bounds nat_order counting (tick_at 530 180) due refl refl turn_goes_on

-- The user closes the lid again while the fan is off.
abbrev closing : Cycle ℕ ℕ
closing = record (enter hold start (warm hold) platform) {
  control = record (warm hold) { lid_open_toggle = true };
  lid_open_detect = true;
  lid_open_event_expires = 600;
}
