-- ===== src/Scenarios.antt =====
-- A grill over whole numbers, at which the model is evaluated: settings, a control structure, the
-- start of a cycle and its rounds.
pub mod Cycles
pub mod Commands
pub mod Registry
pub mod Mains
pub mod Archives
pub mod Access
pub mod Papers
pub mod Monitors
pub mod Links
pub mod Older
pub mod Stocks
pub mod Fixed
pub mod Tuning
use fire_ai.Prelude.{ℕ, ◌+◌, String, Bool, true, false, Option, none, some, List, [], ◌∷◌}
use fire_ai.Prelude.Num.{nat_num}
use fire_ai.Types.{
  Mode, stop, smoke, hold, shutdown, blank, NotifyKind, probe, timer, equal_above, Notify, StepData,
  Control,
}
use fire_ai.Settings.{Settings, fahrenheit}
use fire_ai.GrillPlatform.{GrillPlatform}
use fire_ai.Control.{Controller, Tick}
use fire_ai.Control.Setup.{Start}

abbrev pub settings : Settings ℕ
settings = record {
  platform = record { dc_fan = false; standalone = true };
  pwm = record {
    pwm_control = false;
    update_time = 10;
    frequency = 25000;
    min_duty_cycle = 20;
    max_duty_cycle = 100;
    temp_range_list = 3 ∷ 7 ∷ 10 ∷ [];
    profiles = 20 ∷ 35 ∷ 50 ∷ [];
  };
  startup = record {
    duration = 240;
    prime_on_startup = 0;
    startup_exit_temp = 0;
    pwm_duty_cycle = none;
    after_startup_mode = smoke;
    primary_setpoint = 165;
    smartstart = record { enabled = false; exit_temp = 120; temp_range_list = []; profiles = [] };
  };
  cycle_data = record {
    hold_cycle_time = 25;
    smoke_on_cycle_time = 15;
    smoke_off_cycle_time = 45;
    pmode = 2;
    u_min = 1;
    u_max = 9;
    fan_pid_enabled = false;
    lid_open_detect_enabled = false;
    lid_open_threshold = 15;
    lid_open_pause_time = 60;
  };
  safety = record {
    minstartuptemp = 75;
    maxstartuptemp = 100;
    maxtemp = 550;
    reigniteretries = 1;
    allow_manual_changes = false;
    manual_override_time = 30;
  };
  smoke_plus = record {
    enabled = true;
    min_temp = 160;
    max_temp = 220;
    on_time = 5;
    off_time = 5;
    duty_cycle = 75;
    fan_ramp = false;
  };
  keep_warm = record { temp = 165; s_plus = false };
  pelletlevel = record { warning_time = 20; warning_level = 25; warning_enabled = false };
  shutdown_duration = 240;
  auto_power_off = false;
  augerrate = 1;
  prime_ignition = false;
  boot_to_monitor = false;
  units = fahrenheit;
  probe_info =
      record { label = "Grill"; aux = false } ∷ record { label = "Probe1"; aux = false } ∷ [];
  recipe_probe_map = record { primary = "Grill"; food = "Probe1" ∷ [] };
}

abbrev pub step_data : StepData ℕ
step_data = record {
  mode = smoke;
  timer = 0;
  trigger_temps = [];
  hold_temp = 0;
  triggered = false;
  pause = false;
  notify = false;
}

abbrev pub probe_entry : Notify ℕ
probe_entry = record {
  label = "Grill";
  kind = probe;
  req = false;
  target = 0;
  eta = none;
  shutdown = false;
  keep_warm = false;
  reignite = some false;
  condition = equal_above;
  triggered = none;
  last_check = 0;
}

-- A timer that runs out at 1000 and then shuts the grill down.
abbrev pub timer_entry : Notify ℕ
timer_entry = record probe_entry {
  label = "Timer";
  kind = timer;
  req = true;
  shutdown = true;
  reignite = none;
}

abbrev pub control_in : Mode → Control ℕ
control_in mode = record {
  updated = false;
  mode = mode;
  next_mode = stop;
  s_plus = true;
  pwm_control = false;
  duty_cycle = 100;
  hopper_check = false;
  recipe = record { filename = ""; start_step = 0; step = 0; step_data = step_data };
  lid_open_toggle = false;
  status = blank;
  probe_profile_update = false;
  settings_update = false;
  distance_update = false;
  controller_update = false;
  units_change = false;
  tuning_mode = false;
  safety = record {
    startuptemp = 75;
    afterstarttemp = 60;
    reigniteretries = 1;
    reignitelaststate = smoke;
  };
  primary_setpoint = 225;
  notify_data = probe_entry ∷ timer_entry ∷ [];
  timer = record { start = 100; paused = 0; end = 1000; shutdown = false };
  manual = record { change = none; output = false; pwm = 100 };
  smartstart = record { startuptemp = 0; profile_selected = 0 };
  prime_amount = 10;
  startup_timestamp = 0;
  critical_error = false;
}

abbrev pub platform : GrillPlatform ℕ
platform = record {
  dc_fan = false;
  auger = true;
  fan = false;
  igniter = true;
  power = true;
  pwm = 100;
  frequency = 25000;
  ramping = false;
}

abbrev pub start : Start ℕ
start = record {
  settings = settings;
  switch = true;
  ptemp = 180;
  timer_start = 500;
  start_time = 500;
  hopper_level = 80;
}

abbrev pub tick_at : ℕ → ℕ → Tick ℕ
tick_at now ptemp = record {
  now = now;
  time_eta = now;
  time_notify = now;
  time_lid = now;
  writes = [];
  settings = settings;
  switch = true;
  switch_again = true;
  level = 80;
  ptemp = ptemp;
  temps = λ label. ptemp;
  eta_calculation = true;
  estimate_eta = λ label. none;
}

-- A controller whose output is the number of its turns.
abbrev pub counting : Controller ℕ ℕ
counting = record { create = λ s setpoint. some 0; update = λ k ptemp. (k + 1, k + 1) }
