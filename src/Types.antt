-- ===== src/Types.antt =====
-- The structures that the processes share through Redis and settings.json: `default_control`,
-- `default_notify` and the parts of `default_settings` that the control process reads
-- (common/common.py). `N` is the type of the interpreter's numbers.
use fire_ai.Prelude.{ℕ, String, Bool, Option, List}

pub data Mode : Type 0 where
  stop error startup reignite smoke hold shutdown monitor manual prime recipe : Mode

-- `control['status']`; `blank` is ''
pub data Status : Type 0 where
  blank active inactive monitoring : Status

pub data NotifyKind : Type 0 where
  probe probe_limit_high probe_limit_low timer hopper test : NotifyKind

pub data Condition : Type 0 where
  equal above below equal_above equal_below : Condition

-- An entry of `control['notify_data']`. A key that only some entries have is optional.
pub record Notify (N : Type 0) : Type 0 where
  pub label : String
  pub kind : NotifyKind
  pub req : Bool
  pub target : N
  pub eta : Option N
  pub shutdown : Bool
  pub keep_warm : Bool
  pub reignite : Option Bool
  pub condition : Condition
  pub triggered : Option Bool
  pub last_check : N

pub record StepData (N : Type 0) : Type 0 where
  pub mode : Mode
  pub timer : N
  pub trigger_temps : List (String × N)
  pub hold_temp : N
  pub triggered : Bool
  pub pause : Bool
  pub notify : Bool

pub record Recipe (N : Type 0) : Type 0 where
  pub filename : String
  pub start_step : ℕ
  pub step : ℕ
  pub step_data : StepData N

pub record Safety (N : Type 0) : Type 0 where
  pub startuptemp : N
  pub afterstarttemp : N
  pub reigniteretries : ℕ
  pub reignitelaststate : Mode

pub record Timer (N : Type 0) : Type 0 where
  pub start : N
  pub paused : N
  pub end : N
  pub shutdown : Bool

-- `control['manual']['change']`
pub data Output : Type 0 where
  power igniter fan auger pwm : Output

pub record Manual (N : Type 0) : Type 0 where
  pub change : Option Output
  pub output : Bool
  pub pwm : N

pub record SmartStart (N : Type 0) : Type 0 where
  pub startuptemp : N
  pub profile_selected : ℕ

pub record Control (N : Type 0) : Type 0 where
  pub updated : Bool
  pub mode : Mode
  pub next_mode : Mode
  pub s_plus : Bool
  pub pwm_control : Bool
  pub duty_cycle : N
  pub hopper_check : Bool
  pub recipe : Recipe N
  pub lid_open_toggle : Bool
  pub status : Status
  pub probe_profile_update : Bool
  pub settings_update : Bool
  pub distance_update : Bool
  pub controller_update : Bool
  pub units_change : Bool
  pub tuning_mode : Bool
  pub safety : Safety N
  pub primary_setpoint : N
  pub notify_data : List (Notify N)
  pub timer : Timer N
  pub manual : Manual N
  pub smartstart : SmartStart N
  pub prime_amount : N
  pub startup_timestamp : N
  pub critical_error : Bool
