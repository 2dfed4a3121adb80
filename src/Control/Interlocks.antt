-- ===== src/Control/Interlocks.antt =====
-- What `_work_cycle` (control.py) does to the outputs that feed and light the fire.
use fire_ai.Prelude.{◌≡◌, Bool, false, List, All, ◌&&◌, ◌||◌, arith}
use fire_ai.Prelude.Num.{Num}
use fire_ai.Types.{Mode, Control}
use fire_ai.GrillPlatform.{GrillPlatform}
use fire_ai.Control.{Controller, Cycle, Tick}
use fire_ai.Control.Requests.{
  is_manual, starting, take_writes, update_settings, update_controller, update_distances,
  check_hopper_level, check_switch, read_outputs, manual_changes,
}
use fire_ai.Control.Auger.{auger_cycle, controller_turn, feeding}
use fire_ai.Control.Fan.{
  start_fan, check_target, detect_lid, clear_lid, toggle_lid, temperature_duty, fan_pid,
  smoke_plus_cycle, plain_fan, smoke_plus,
}
use fire_ai.Control.Exits.{is_prime, startup_exit, timed_exit, recipe_exit}
use fire_ai.Control.Safety.{read_probes, notifications, safety_controls, max_temp_control}
use fire_ai.Settings.{Settings}
use fire_ai.Control.Setup.{Start, is_startup, fanned, start_outputs, recipe_triggers}
use fire_ai.Control.WorkCycle.{
  enter, set_times, enter_safety, smart_start, stamp_startup, work_cycle, running,
}
use fire_ai.Control.Keeps.{Keeps, KeptByParts, KeptBySetUp, work_cycle-running}

-- The igniter and the power stand as given, the auger is off unless the mode feeds, and the
-- settings allow no manual changes.
pub record IsLocked {N K : Type 0} (mode : Mode) (igniter power : Bool) (s : Cycle N K)
    : Type 0 where
  pub igniter_kept : s.platform.igniter ≡ igniter
  pub power_kept : s.platform.power ≡ power
  pub auger_idle : feeding mode ≡ false → s.platform.auger ≡ false
  pub no_changes : s.settings.safety.allow_manual_changes ≡ false

-- Settings that allow no manual changes, should they be read.
pub record Forbids {N : Type 0} (t : Tick N) : Type 0 where
  pub no_changes : t.settings.safety.allow_manual_changes ≡ false

module _ {N K : Type 0} ⦃o : Num N⦄ (ctl : Controller N K) (mode : Mode) (i w : Bool)
    (t : Tick N) where
  plain_fan-IsLocked : (s : Cycle N K) → IsLocked mode i w s → IsLocked mode i w (plain_fan t s)
  unfolding plain_fan start_fan
  plain_fan-IsLocked s h = ground arith

  smoke_plus_cycle-IsLocked :
      (s : Cycle N K) → IsLocked mode i w s → IsLocked mode i w (smoke_plus_cycle mode t s)
  unfolding smoke_plus_cycle start_fan
  smoke_plus_cycle-IsLocked s h = ground arith

  smoke_plus-IsLocked : Keeps {S = Cycle N K} (IsLocked mode i w) (smoke_plus mode t)
  unfolding smoke_plus
  smoke_plus-IsLocked = record {
    at = λ s h. ground (arith, plain_fan-IsLocked s, smoke_plus_cycle-IsLocked s);
  }

  parts-IsLocked : is_manual mode ≡ false → Forbids t → KeptByParts (IsLocked mode i w) ctl mode t
  unfolding start_fan controller_turn notifications take_writes update_settings update_controller
      update_distances check_hopper_level check_switch read_outputs manual_changes auger_cycle
      read_probes safety_controls check_target detect_lid clear_lid toggle_lid temperature_duty
      fan_pid startup_exit timed_exit max_temp_control recipe_exit
  parts-IsLocked m q = record {
    takes = record { at = λ s h. ground arith };
    settings = record { at = λ s h. ground arith };
    controller = record { at = λ s h. ground arith };
    distances = record { at = λ s h. ground arith };
    hopper = record { at = λ s h. ground arith };
    switch = record { at = λ s h. ground arith };
    outputs = record { at = λ s h. ground arith };
    manual = record { at = λ s h. ground arith };
    turn = record { at = λ s h. ground arith };
    auger = λ fed. record { at = λ s h. ground arith };
    probes = record { at = λ s h. ground arith };
    notes = record { at = λ s h. ground arith };
    safety = record { at = λ s h. ground arith };
    target = record { at = λ s h. ground arith };
    lid = record { at = λ s h. ground arith };
    lid_cleared = record { at = λ s h. ground arith };
    lid_toggled = record { at = λ s h. ground arith };
    duty = record { at = λ s h. ground arith };
    pid = record { at = λ s h. ground arith };
    plus = smoke_plus-IsLocked;
    startup = record { at = λ s h. ground arith };
    timed = record { at = λ s h. ground arith };
    max_temp = record { at = λ s h. ground arith };
    recipe = record { at = λ s h. ground arith };
  }

-- The modes that start with the igniter on: Startup, Reignite, and Prime before a startup if the
-- settings say so.
abbrev pub lights : {N : Type 0} → Mode → Settings N → Control N → Bool
lights mode settings c =
    starting mode || (is_prime mode && settings.prime_ignition && is_startup c.next_mode)

-- The modes that start with the power on.
abbrev pub powers : Mode → Bool
powers mode = fanned mode || is_prime mode

module _ {N K : Type 0} ⦃o : Num N⦄ (ctl : Controller N K) (mode : Mode) (start : Start N)
    (c : Control N) (p : GrillPlatform N) where
  enter-IsLocked :
      start.settings.safety.allow_manual_changes ≡ false
      → IsLocked {K = K} mode (lights mode start.settings c) (powers mode) (enter mode start c p)
  unfolding enter start_outputs start_fan recipe_triggers
  enter-IsLocked h = ground arith

  parts_before-IsLocked : (i w : Bool) → KeptBySetUp (IsLocked {N = N} {K = K} mode i w) ctl mode
  unfolding set_times enter_safety smart_start stamp_startup
  parts_before-IsLocked i w = record {
    times = λ s h. ground arith;
    safety = λ s h. ground arith;
    smart = record { at = λ s h. ground arith };
    stamp = record { at = λ s h. ground arith };
  }

  -- Where the settings never allow manual changes, and the mode is not Manual, then after any
  -- rounds of a work cycle that still runs: the igniter is on exactly in a mode that starts with
  -- it on, the power exactly in a mode that starts with it on, and in a mode that does not feed
  -- pellets the auger is off.
  pub work_cycle-IsLocked :
      (ts : List (Tick N)) {s : Cycle N K}
      → is_manual mode ≡ false
      → start.settings.safety.allow_manual_changes ≡ false
      → All Forbids ts
      → work_cycle ctl mode start ts c p ≡ running s
      → IsLocked mode (lights mode start.settings c) (powers mode) s
  work_cycle-IsLocked ts m h q =
      work_cycle-running ctl mode start c p ts (parts_before-IsLocked _ _)
        (λ t f. parts-IsLocked ctl mode _ _ t m f) q (enter-IsLocked h)
