-- ===== src/Main.antt =====
-- The main program of control.py: what stands around `_work_cycle`. `Process` is the state that the
-- main loop keeps; the structures of one iteration are what it reads from outside.
pub mod Defaults
pub mod RecipeMode
pub mod Modes
pub mod Loop
pub mod DarkCycles
pub mod Dark
pub mod Recipes
pub mod Critical
pub mod Transitions
use fire_ai.Prelude.{ℕ, String, Bool, Option, List, ◌++◌}
use fire_ai.Prelude.Num.{Num}
use fire_ai.Types.{Mode, Control}
use fire_ai.Settings.{Settings, Units}
use fire_ai.GrillPlatform.{GrillPlatform}
use fire_ai.ControlWrites.{Patch, merge_writes}
use fire_ai.Notify.{Event, Readings}
use fire_ai.Control.{Controller, Cycle, Tick, Flow, on, leave, raise}
use fire_ai.Control.Setup.{Start}
use fire_ai.Control.WorkCycle.{Outcome, running, ended, failed, work_cycle}

-- `control` and `settings` are the variables of `main`; `stored` is the structure in Redis.
-- `halted` tells of the shutdown of the computer that is ordered after a Shutdown.
pub record Process (N : Type 0) : Type 0 where
  pub control : Control N
  pub stored : Control N
  pub settings : Settings N
  pub platform : GrillPlatform N
  pub last : Bool
  pub sent : List Event
  pub halted : Bool

-- A run of `_work_cycle`: what it reads at its start and in its rounds.
pub record Run (N : Type 0) : Type 0 where
  pub start : Start N
  pub ticks : List (Tick N)

-- `trigger_temps` of a step: for the primary probe and the food probes, as a recipe file has them,
-- or by the labels of real probes, as `_recipe_mode` leaves them in the step that it has set up.
pub data TriggerTemps (N : Type 0) : Type 0 where
  by_role : N → List N → TriggerTemps N
  by_label : List (String × N) → TriggerTemps N

-- A step of a recipe file.
pub record RecipeStep (N : Type 0) : Type 0 where
  pub mode : Mode
  pub hold_temp : N
  pub timer : N
  pub trigger_temps : TriggerTemps N
  pub pause : Bool
  pub notify : Bool

-- A recipe file that can be read: the units of its metadata, and its steps.
pub record RecipeFile (N : Type 0) : Type 0 where
  pub units : Units
  pub steps : List (RecipeStep N)

-- What a step of a recipe reads: its cycle, the writes that `execute_control_writes` finds after
-- it, and the cycle that ignites again.
pub record StepRun (N : Type 0) : Type 0 where
  pub run : Run N
  pub writes : List (Patch N)
  pub reignite : Run N

-- What an iteration of the main loop reads: the switch at its two readings, the writes at
-- `execute_control_writes`, settings.json before and after its cycle, the readings and the clock for
-- the notifications, the cycles it runs, and the writes that `_next_mode` finds.
pub record Iteration (N : Type 0) : Type 0 where
  pub switch : Bool
  pub switch_again : Bool
  pub writes : List (Patch N)
  pub file : Settings N
  pub file_after : Settings N
  pub readings : Readings N
  pub mqtt : Option (Readings N)  -- for the call after the cycle, with MQTT enabled
  pub time : N
  pub prime_run : Run N
  pub run : Run N
  pub next_writes : List (Patch N)
  pub recipe_file : Option (RecipeFile N)
  pub recipe_runs : List (StepRun N)

-- The process with a control structure in hand, which `main` and `_recipe_mode` each have.
abbrev pub Held : Type 0 → Type 0
Held N = Control N × Process N

module _ {N : Type 0} where
  -- `write_control(control, direct_write=True)`
  abbrev pub write_control : Control N → Process N → Process N
  write_control c p = record p { stored = c }

  -- `execute_control_writes()`
  abbrev pub take_writes : List (Patch N) → Process N → Process N
  take_writes writes p = record p { stored = merge_writes p.stored writes }

  abbrev pub after_cycle : {K : Type 0} → Cycle N K → Process N → Process N
  after_cycle s p = record p { stored = s.stored; platform = s.platform; sent = p.sent ++ s.sent }

module _ {N K : Type 0} ⦃o : Num N⦄ where
  -- `_work_cycle(mode, …)`; `leave` is a process that is still in the cycle's loop.
  unfoldable pub run_cycle : Controller N K → Mode → Run N → Process N → Flow (Process N)
  run_cycle ctl mode r p = elim (work_cycle ctl mode r.start r.ticks p.stored p.platform) [
    | running s ↦ leave (after_cycle s p)
    | ended s ↦ on (after_cycle s p)
    | failed ↦ raise
  ]
