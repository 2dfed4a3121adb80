-- ===== src/Control/Lid.antt =====
-- The pause for an open lid, control.py.
use fire_ai.Prelude.{◌≡◌, true, false, List, All, arith}
use fire_ai.Prelude.Num.{Num, ◌<?◌, ◌≤?◌}
use fire_ai.Types.{Mode, Control}
use fire_ai.GrillPlatform.{GrillPlatform}
use fire_ai.Control.{Controller, Cycle, Tick, write_control}
use fire_ai.Control.Requests.{
  is_manual, take_writes, update_settings, update_controller, update_distances, check_hopper_level,
  check_switch, read_outputs, manual_changes,
}
use fire_ai.Control.Auger.{auger_cycle, controller_turn}
use fire_ai.Control.Fan.{
  start_fan, check_target, detect_lid, clear_lid, toggle_lid, temperature_duty, fan_pid,
  smoke_plus_cycle, plain_fan, smoke_plus,
}
use fire_ai.Control.Exits.{startup_exit, timed_exit, recipe_exit}
use fire_ai.Control.Safety.{read_probes, notifications, safety_controls, max_temp_control}
use fire_ai.Control.Setup.{Start}
use fire_ai.Control.WorkCycle.{
  enter, set_times, enter_safety, smart_start, stamp_startup, work_cycle, running,
}
use fire_ai.Control.Keeps.{Keeps, KeptByParts, KeptBySetUp, work_cycle-running}
use fire_ai.Control.Interlocks.{Forbids}

-- Where the lid counts as open the fan is off; the settings allow no manual changes.
pub record IsPaused {N K : Type 0} (s : Cycle N K) : Type 0 where
  pub fan : s.lid_open_detect ≡ true → s.platform.fan ≡ false
  pub no_changes : s.settings.safety.allow_manual_changes ≡ false

module _ {N K : Type 0} ⦃o : Num N⦄ (ctl : Controller N K) (mode : Mode) (t : Tick N) where
  plain_fan-IsPaused : (s : Cycle N K) → IsPaused s → IsPaused (plain_fan t s)
  unfolding plain_fan start_fan
  plain_fan-IsPaused s h = ground arith

  smoke_plus_cycle-IsPaused :
      (s : Cycle N K)
      → IsPaused s
      → s.lid_open_detect ≡ false
      → IsPaused (smoke_plus_cycle mode t s)
  unfolding smoke_plus_cycle start_fan
  smoke_plus_cycle-IsPaused s h l = ground arith

  smoke_plus-IsPaused : Keeps {S = Cycle N K} IsPaused (smoke_plus mode t)
  unfolding smoke_plus
  smoke_plus-IsPaused = record {
    at = λ s h. ground (arith, plain_fan-IsPaused s, smoke_plus_cycle-IsPaused s);
  }

  parts-IsPaused : is_manual mode ≡ false → Forbids t → KeptByParts IsPaused ctl mode t
  unfolding start_fan controller_turn notifications take_writes update_settings update_controller
      update_distances check_hopper_level check_switch read_outputs manual_changes auger_cycle
      read_probes safety_controls check_target detect_lid clear_lid toggle_lid temperature_duty
      fan_pid startup_exit timed_exit max_temp_control recipe_exit
  parts-IsPaused m q = record {
    takes = record { at = λ s h. ground arith };
    settings = record { at = λ s h. ground arith };
    controller = record { at = λ s h. ground arith };
    distances = record { at = λ s h. ground arith };
    hopper = record { at = λ s h. ground arith };
    switch = record { at = λ s h. ground arith };
    outputs = record { at = λ s h. ground arith };
    manual = record { at = λ s h. ground arith };
    turn = record { at = λ s h. ground arith };
    auger = λ fed. record { at = λ s h. ground arith };
    probes = record { at = λ s h. ground arith };
    notes = record { at = λ s h. ground arith };
    safety = record { at = λ s h. ground arith };
    target = record { at = λ s h. ground arith };
    lid = record { at = λ s h. ground arith };
    lid_cleared = record { at = λ s h. ground arith };
    lid_toggled = record { at = λ s h. ground arith };
    duty = record { at = λ s h. ground arith };
    pid = record { at = λ s h. ground arith };
    plus = smoke_plus-IsPaused;
    startup = record { at = λ s h. ground arith };
    timed = record { at = λ s h. ground arith };
    max_temp = record { at = λ s h. ground arith };
    recipe = record { at = λ s h. ground arith };
  }

module _ {N K : Type 0} ⦃o : Num N⦄ (ctl : Controller N K) (mode : Mode) where
  parts_before-IsPaused : KeptBySetUp {N = N} {K = K} IsPaused ctl mode
  unfolding set_times enter_safety smart_start stamp_startup
  parts_before-IsPaused = record {
    times = λ s h. ground arith;
    safety = λ s h. ground arith;
    smart = record { at = λ s h. ground arith };
    stamp = record { at = λ s h. ground arith };
  }

module _ {N K : Type 0} ⦃o : Num N⦄ (ctl : Controller N K) (mode : Mode) (start : Start N)
    (c : Control N) (p : GrillPlatform N) where
  enter-IsPaused :
      start.settings.safety.allow_manual_changes ≡ false → IsPaused {K = K} (enter mode start c p)
  unfolding enter
  enter-IsPaused h = ground arith

  -- Where the settings never allow manual changes, and the mode is not Manual, then after any
  -- rounds of a work cycle that still runs, the fan is off if the lid counts as open.
  pub work_cycle-IsPaused :
      (ts : List (Tick N)) {s : Cycle N K}
      → is_manual mode ≡ false
      → start.settings.safety.allow_manual_changes ≡ false
      → All Forbids ts
      → work_cycle ctl mode start ts c p ≡ running s
      → s.lid_open_detect ≡ true
      → s.platform.fan ≡ false
  work_cycle-IsPaused ts m h q e =
      (work_cycle-running {P = IsPaused} ctl mode start c p ts (parts_before-IsPaused ctl mode)
        (λ t f. parts-IsPaused ctl mode t m f) q (enter-IsPaused h) e).fan

-- The user closes the lid by the toggle, before its pause is over, while the pit is below the
-- target and Smoke Plus is on; the fan is an AC fan.
pub record ClosesLid {N K : Type 0} ⦃o : Num N⦄ (t : Tick N) (s : Cycle N K) : Type 0 where
  pub open_lid : s.lid_open_detect ≡ true
  pub pausing : (s.lid_open_event_expires <? t.time_lid) ≡ false
  pub toggled : s.control.lid_open_toggle ≡ true
  pub s_plus : s.control.s_plus ≡ true
  pub below_target : (s.control.primary_setpoint ≤? s.ptemp) ≡ false
  pub not_achieved : s.target_temp_achieved ≡ false
  pub ac_fan : s.settings.platform.dc_fan ≡ false

module _ {N K : Type 0} ⦃o : Num N⦄ where
  abbrev pub closed_lid : Cycle N K → Cycle N K
  closed_lid s =
      record (write_control (record s { control = record s.control { lid_open_toggle = false } })) {
        lid_open_detect = false;
      }
