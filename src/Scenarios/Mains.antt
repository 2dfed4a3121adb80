-- ===== src/Scenarios/Mains.antt =====
-- The theorems on the main loop of control.py and on recipes at concrete data.
use fire_ai.Prelude.{ℕ, ◌≡◌, refl, true, false, none, some, List, [], ◌∷◌, arith}
use fire_ai.Prelude.Num.{nat_num}
use fire_ai.Types.{Mode, stop, smoke, reignite, recipe, Control}
use fire_ai.ControlWrites.{Assign, Patch, merge_writes}
use fire_ai.Control.{Flow, on, leave, raise}
use fire_ai.Control.Requests.{
  take_writes, update_settings, update_controller, update_distances, check_hopper_level,
  check_switch, read_outputs, manual_changes,
}
use fire_ai.Control.Auger.{auger_control}
use fire_ai.Control.Fan.{
  start_fan, fan_control, check_target, detect_lid, clear_lid, toggle_lid, temperature_duty,
  fan_pid, smoke_plus, smoke_plus_cycle,
}
use fire_ai.Control.Exits.{startup_exit, timed_exit, recipe_exit}
use fire_ai.Control.Safety.{read_probes, notifications, safety_controls, max_temp_control}
use fire_ai.Control.Setup.{start_outputs, recipe_triggers, probe_triggers, timer_trigger}
use fire_ai.Control.WorkCycle.{enter, work_cycle}
use fire_ai.Notify.{check_notify}
use fire_ai.Main.{
  Process, Run, TriggerTemps, by_role, by_label, RecipeStep, StepRun, Iteration, run_cycle,
}
use fire_ai.Main.Modes.{enter_stop, enter_mode, cycle_then, next_mode}
use fire_ai.Main.RecipeMode.{
  StepEnd, proceed, recipe_step, recipe_loop, mapped_step, stepped, after_step, reignited, set_step,
  set_elem, map_temps, finish_recipe,
}
use fire_ai.Main.Loop.{
  main_loop, iteration, read_writes, expire_timers, update_profiles, change_mode, acknowledge,
  notify_again,
}
use fire_ai.Main.DarkCycles.{IsDark}
use fire_ai.Main.Dark.{main_loop-IsDark}
use fire_ai.Main.Transitions.{HandsOver, enter_mode-HandsOver}
use fire_ai.Main.Recipes.{IsReleased, rerun-raises, recipe_loop-IsReleased}
use fire_ai.Scenarios.{settings, control_in, platform, start, tick_at, counting}

abbrev request : Mode → Patch ℕ
request mode = Assign.mode mode ∷ Assign.updated true ∷ []

-- A cycle that a request ends.
abbrev until : Mode → Run ℕ
until mode = record {
  start = start;
  ticks = tick_at 501 180 ∷ record (tick_at 502 181) { writes = request mode ∷ [] } ∷ [];
}

abbrev process : Mode → Process ℕ
process mode = record {
  control = control_in mode;
  stored = control_in mode;
  settings = settings;
  platform = record platform { auger = false; igniter = false };
  last = true;
  sent = [];
  halted = false;
}

abbrev iteration_with : List (Patch ℕ) → Iteration ℕ
iteration_with writes = record {
  switch = true;
  switch_again = true;
  writes = writes;
  file = settings;
  file_after = settings;
  readings = record {
    in_data = some λ label. 180;
    hopper_level = 80;
    time = 500;
    update_eta = true;
    estimate_eta = λ label. none;
  };
  mqtt = none;
  time = 500;
  prime_run = until smoke;
  run = until stop;
  next_writes = [];
  recipe_file = none;
  recipe_runs = [];
}

abbrev process_of : Flow (Process ℕ) → Process ℕ
process_of (on p) = p
process_of (leave p) = p
process_of raise = process stop

-- A grill without notifications.
abbrev plain : Process ℕ
plain =
    let c = record (control_in smoke) { notify_data = [] } in
    record (process smoke) { control = c; stored = c }

-- Stop is requested in Smoke.
abbrev evening : List (Iteration ℕ)
evening = iteration_with (request stop ∷ []) ∷ []

abbrev next_morning : Process ℕ
next_morning = process_of (main_loop counting evening plain)

evening-on : main_loop counting evening plain ≡ on next_morning
unfolding main_loop iteration fire_ai.Main.Loop.check_switch read_writes
    fire_ai.Main.Loop.update_settings fire_ai.Main.Loop.notifications check_notify merge_writes
    expire_timers fire_ai.Main.Loop.update_distances fire_ai.Main.Loop.check_hopper update_profiles
    change_mode acknowledge enter_mode enter_stop notify_again
evening-on = refl

main_loop-IsDark_example : IsDark next_morning.platform
main_loop-IsDark_example =
    main_loop-IsDark counting evening plain (record { auger = refl; igniter = refl }) evening-on

abbrev after_smoke : Process ℕ
after_smoke =
    process_of (enter_mode counting (iteration_with []) smoke (control_in smoke) (process smoke))

after_smoke-on :
    enter_mode counting (iteration_with []) smoke (control_in smoke) (process smoke)
    ≡ on after_smoke
unfolding enter_mode cycle_then next_mode run_cycle merge_writes work_cycle enter start_outputs
    start_fan recipe_triggers take_writes update_settings update_controller update_distances
    check_hopper_level check_switch read_outputs manual_changes auger_control read_probes
    notifications check_notify safety_controls fan_control startup_exit timed_exit max_temp_control
    recipe_exit
after_smoke-on = refl

enter_mode-HandsOver_example : HandsOver counting (iteration_with []) smoke stop after_smoke
enter_mode-HandsOver_example =
    enter_mode-HandsOver counting (iteration_with []) smoke (control_in smoke) (process smoke) stop
      refl after_smoke-on

abbrev smoke_step : RecipeStep ℕ
smoke_step = record {
  mode = smoke;
  hold_temp = 0;
  timer = 0;
  trigger_temps = by_role 0 (0 ∷ []);
  pause = false;
  notify = false;
}

-- A step that ends by a request, with further writes after it.
abbrev step_run : List (Patch ℕ) → StepRun ℕ
step_run writes = record { run = until recipe; writes = writes; reignite = until recipe }

abbrev num_of : StepEnd ℕ → ℕ
num_of (proceed num steps c p) = num
num_of _ = 7

abbrev steps_of : StepEnd ℕ → List (RecipeStep ℕ)
steps_of (proceed num steps c p) = steps
steps_of _ = []

abbrev held_of : StepEnd ℕ → Control ℕ
held_of (proceed num steps c p) = c
held_of _ = control_in stop

abbrev left_of : StepEnd ℕ → Process ℕ
left_of (proceed num steps c p) = p
left_of _ = process stop

-- The fire goes out in the step, and is lit.
abbrev relit : StepEnd ℕ
relit =
    recipe_step counting settings.recipe_probe_map (step_run (request reignite ∷ [])) 0 smoke_step
      (smoke_step ∷ []) (control_in recipe) (process recipe)

relit-proceed : relit ≡ proceed 0 (steps_of relit) (held_of relit) (left_of relit)
unfolding recipe_step mapped_step stepped after_step reignited set_step set_elem map_temps run_cycle
    merge_writes work_cycle enter start_outputs start_fan recipe_triggers take_writes
    update_settings update_controller update_distances check_hopper_level check_switch read_outputs
    manual_changes auger_control read_probes notifications check_notify safety_controls fan_control
    startup_exit timed_exit max_temp_control recipe_exit probe_triggers timer_trigger
relit-proceed = refl

rerun-raises_example :
    recipe_loop counting settings.recipe_probe_map 1
      (step_run [] ∷ [])
      0
      (steps_of relit)
      (held_of relit)
      (left_of relit)
    ≡ raise
rerun-raises_example =
    rerun-raises counting settings.recipe_probe_map 1 (step_run (request reignite ∷ []))
      (step_run []) [] 0 smoke_step (smoke_step ∷ []) (control_in recipe) (process recipe) refl
      relit-proceed

-- A fire that burns.
abbrev warm : Control ℕ
warm = let c = control_in recipe in record c { safety = record c.safety { afterstarttemp = 180 } }

abbrev whole : Flow (Process ℕ)
whole =
    recipe_loop counting settings.recipe_probe_map 1 (step_run [] ∷ []) 0 (smoke_step ∷ []) warm
      (record (process recipe) { stored = warm })

whole-on : whole ≡ on (process_of whole)
unfolding recipe_loop recipe_step mapped_step stepped after_step reignited set_step set_elem
    map_temps finish_recipe run_cycle merge_writes work_cycle enter start_outputs start_fan
    recipe_triggers take_writes update_settings update_controller update_distances
    check_hopper_level check_switch read_outputs manual_changes auger_control read_probes
    notifications check_notify safety_controls fan_control startup_exit timed_exit max_temp_control
    recipe_exit probe_triggers timer_trigger check_target detect_lid clear_lid toggle_lid
    temperature_duty fan_pid smoke_plus smoke_plus_cycle
whole-on = refl

recipe_loop-IsReleased_example : IsReleased (process_of whole).stored
recipe_loop-IsReleased_example =
    recipe_loop-IsReleased counting settings.recipe_probe_map 1 (step_run [] ∷ []) 0
      (smoke_step ∷ []) warm (record (process recipe) { stored = warm }) (omega arith) refl whole-on

abbrev failed : Process ℕ
failed =
    let c = record (control_in smoke) { critical_error = true; updated = true } in
    record (process smoke) { control = c; stored = c }
