-- ===== src/Control.antt =====
-- The control process, control.py. `Cycle` is what `_work_cycle` keeps in its variables, with the
-- structures in Redis and the outputs of the platform that it changes; `Tick` is what it reads
-- from outside in one round of its loop.
pub mod Requests
pub mod Auger
pub mod Safety
pub mod Exits
pub mod Fan
pub mod Setup
pub mod WorkCycle
pub mod Readings
pub mod Guards
pub mod Keeps
pub mod Interlocks
pub mod Retries
pub mod Ratio
pub mod Lid
use fire_ai.Prelude.{◌≡◌, refl, String, Bool, Option, List, [], ◌∷◌, ◌++◌}
use fire_ai.Prelude.{◌≡◌, refl, String, Bool, Option, List, [], ◌∷◌, ◌++◌}
use fire_ai.Types.{Control}
use fire_ai.Settings.{Settings}
use fire_ai.GrillPlatform.{GrillPlatform, OutputStatus}
use fire_ai.ControlWrites.{Patch}
use fire_ai.Notify.{Event}

-- A controller module: `Controller(config, units, cycle_data)` with `set_target`, and `update`.
-- `none` is a module that cannot be loaded.
pub record Controller (N K : Type 0) : Type 0 where
  pub create : Settings N → N → Option K
  pub update : K → N → N × K

-- The times until which an output stays as the user set it.
pub record ManualOverride (N : Type 0) : Type 0 where
  pub igniter : N
  pub auger : N
  pub fan : N
  pub power : N
  pub pwm : N

pub record Cycle (N K : Type 0) : Type 0 where
  pub settings : Settings N
  pub control : Control N
  pub stored : Control N
  pub platform : GrillPlatform N
  pub current : OutputStatus N
  pub sent : List Event
  pub active : Bool
  pub last : Bool
  pub controller : Option K
  pub cycle_time : N
  pub cycle_ratio : N
  pub lid_open_detect : Bool
  pub lid_open_event_expires : N
  pub ptemp : N
  pub raw_startup_temp : N
  pub start_time : N
  pub controller_cycle_start : N
  pub eta_toggle_time : N
  pub auger_toggle_time : N
  pub fan_cycle_toggle_time : N
  pub hopper_toggle_time : N
  pub fan_update_time : N
  pub target_temp_achieved : Bool
  pub pwm_fan_ramping : Bool
  pub manual_override : ManualOverride N
  pub pid_output : N
  pub control_fan_pid : Bool
  pub prime_duration : N
  pub augerontime : N
  pub hopper_level : N

-- What one round reads: the clock at each of its `time.time()`, the writes that wait in Redis,
-- settings.json, the switch at its two readings, the hopper sensor, the probes.
pub record Tick (N : Type 0) : Type 0 where
  pub now : N
  pub time_eta : N
  pub time_notify : N
  pub time_lid : N
  pub writes : List (Patch N)
  pub settings : Settings N
  pub switch : Bool
  pub switch_again : Bool
  pub level : N
  pub ptemp : N
  pub temps : String → N
  pub eta_calculation : Bool
  pub estimate_eta : String → Option N

-- How a part of the loop's body ends: it goes on, it breaks, or an exception ends the process.
pub data Flow (S : Type 0) : Type 0 where
  on : S → Flow S
  leave : S → Flow S
  raise : Flow S

infixl 5 ◌>>=◌
abbrev pub ◌>>=◌ : {S : Type 0} → Flow S → (S → Flow S) → Flow S
on s >>= f = f s
leave s >>= f = leave s
raise >>= f = raise

pub on-injective : {S : Type 0} {s s' : S} → on s ≡ on s' → s ≡ s'
on-injective h = cc

pub >>=-eq-on :
    {S : Type 0} (m : Flow S) (f : S → Flow S) {s : S}
    → (m >>= f) ≡ on s
    → (a : S) × (m ≡ on a) × (f a ≡ on s)
>>=-eq-on (on a) f h = (a, refl, h)
>>=-eq-on (leave a) f h = cc
>>=-eq-on raise f h = cc

module _ {N K : Type 0} where
  -- `write_control(control, direct_write=True)`
  abbrev pub write_control : Cycle N K → Cycle N K
  write_control s = record s { stored = s.control }

  abbrev pub with_platform : (GrillPlatform N → GrillPlatform N) → Cycle N K → Cycle N K
  with_platform f s = record s { platform = f s.platform }

  abbrev pub notify : Event → Cycle N K → Cycle N K
  notify e s = record s { sent = s.sent ++ e ∷ [] }
