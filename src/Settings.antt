-- ===== src/Settings.antt =====
-- The settings that the control process reads: the sections of `default_settings`
-- (common/common.py) with the keys that control.py uses.
use fire_ai.Prelude.{ℕ, String, Bool, Option, List}
use fire_ai.Types.{Mode}

pub record Platform : Type 0 where
  pub dc_fan : Bool
  pub standalone : Bool

pub record Pwm (N : Type 0) : Type 0 where
  pub pwm_control : Bool
  pub update_time : N
  pub frequency : N
  pub min_duty_cycle : N
  pub max_duty_cycle : N
  pub temp_range_list : List N
  pub profiles : List N  -- the `duty_cycle` of each profile

pub record Profile (N : Type 0) : Type 0 where
  pub startuptime : N
  pub augerontime : N
  pub p_mode : N

pub record SmartStartSettings (N : Type 0) : Type 0 where
  pub enabled : Bool
  pub exit_temp : N
  pub temp_range_list : List N
  pub profiles : List (Profile N)

pub record Startup (N : Type 0) : Type 0 where
  pub duration : N
  pub prime_on_startup : N
  pub startup_exit_temp : N
  pub pwm_duty_cycle : Option N
  pub after_startup_mode : Mode
  pub primary_setpoint : N
  pub smartstart : SmartStartSettings N

pub record CycleData (N : Type 0) : Type 0 where
  pub hold_cycle_time : N
  pub smoke_on_cycle_time : N
  pub smoke_off_cycle_time : N
  pub pmode : N
  pub u_min : N
  pub u_max : N
  pub fan_pid_enabled : Bool
  pub lid_open_detect_enabled : Bool
  pub lid_open_threshold : N
  pub lid_open_pause_time : N

pub record SafetySettings (N : Type 0) : Type 0 where
  pub minstartuptemp : N
  pub maxstartuptemp : N
  pub maxtemp : N
  pub reigniteretries : ℕ
  pub allow_manual_changes : Bool
  pub manual_override_time : N

pub record SmokePlus (N : Type 0) : Type 0 where
  pub enabled : Bool
  pub min_temp : N
  pub max_temp : N
  pub on_time : N
  pub off_time : N
  pub duty_cycle : N
  pub fan_ramp : Bool

pub record KeepWarm (N : Type 0) : Type 0 where
  pub temp : N
  pub s_plus : Bool

pub record PelletLevel (N : Type 0) : Type 0 where
  pub warning_time : N
  pub warning_level : N
  pub warning_enabled : Bool

pub data Units : Type 0 where
  celsius fahrenheit : Units

-- An entry of `probe_map.probe_info`: its label, and whether its type is 'Aux'.
pub record ProbeInfo : Type 0 where
  pub label : String
  pub aux : Bool

-- `settings['recipe']['probe_map']`: the labels of the probes that a recipe's temperatures are for.
pub record ProbeMap : Type 0 where
  pub primary : String
  pub food : List String

pub record Settings (N : Type 0) : Type 0 where
  pub platform : Platform
  pub pwm : Pwm N
  pub startup : Startup N
  pub cycle_data : CycleData N
  pub safety : SafetySettings N
  pub smoke_plus : SmokePlus N
  pub keep_warm : KeepWarm N
  pub pelletlevel : PelletLevel N
  pub shutdown_duration : N
  pub auto_power_off : Bool
  pub augerrate : N
  pub prime_ignition : Bool
  pub boot_to_monitor : Bool
  pub units : Units
  pub probe_info : List ProbeInfo
  pub recipe_probe_map : ProbeMap
