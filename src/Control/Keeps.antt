-- ===== src/Control/Keeps.antt =====
-- Invariants of a work cycle (control.py), part by part: a part keeps a predicate if the state
-- satisfies it afterwards, whether the round goes on or ends there.
use fire_ai.Prelude.{
  ◌≡◌, ◌≢◌, refl, sym, All, Bool, true, false, List, [], ◌∷◌, if◌then◌else◌, subst,
}
use fire_ai.Prelude.Num.{Num}
use fire_ai.Types.{Mode}
use fire_ai.Notify.{burning}
use fire_ai.Control.{Controller, Cycle, Tick, Flow, on, leave, raise, ◌>>=◌}
use fire_ai.Control.Requests.{
  take_writes, update_settings, update_controller, update_distances, check_hopper_level,
  check_switch, read_outputs, manual_changes,
}
use fire_ai.Control.Auger.{auger_control, auger_cycle, controller_turn, feeding}
use fire_ai.Control.Fan.{
  check_target, detect_lid, clear_lid, toggle_lid, temperature_duty, fan_pid, smoke_plus,
  fan_control,
}
use fire_ai.Control.Exits.{startup_exit, timed_exit, recipe_exit}
use fire_ai.Control.Safety.{read_probes, notifications, safety_controls, max_temp_control}
use fire_ai.Types.{Control}
use fire_ai.GrillPlatform.{GrillPlatform}
use fire_ai.Control.Setup.{Start}
use fire_ai.Control.WorkCycle.{
  enter, set_times, enter_safety, smart_start, stamp_startup, set_up, serve_requests, check_ends,
  round, loop, clean_up, outcome, running, ended, failed, work_cycle,
}

abbrev pub Holds : {S : Type 0} → (S → Type 0) → Flow S → Type 0
Holds P (on s) = P s
Holds P (leave s) = P s
Holds P raise = Unit

pub record Keeps {S : Type 0} (P : S → Type 0) (f : S → Flow S) : Type 0 where
  pub at : (s : S) → P s → Holds P (f s)

running-injective : {S : Type 0} {s s' : S} → running s ≡ running s' → s ≡ s'
running-injective h = cc

ended-injective : {S : Type 0} {s s' : S} → ended s ≡ ended s' → s ≡ s'
ended-injective h = cc

ended_ne_running : {S : Type 0} {s s' : S} → ended s ≢ running s'
ended_ne_running h = cc

failed_ne_running : {S : Type 0} {s : S} → failed ≢ running s
failed_ne_running h = cc

failed_ne_ended : {S : Type 0} {s : S} → failed ≢ ended s
failed_ne_ended h = cc

module _ {N K : Type 0} ⦃o : Num N⦄ (P : Cycle N K → Type 0) (mode : Mode) where
  running-Holds :
      (m : Flow (Cycle N K)) {s : Cycle N K} → Holds P m → outcome mode m ≡ running s → P s
  running-Holds (on a) h e = subst P (running-injective e) h
  running-Holds (leave a) h e = absurd (ended_ne_running e)
  running-Holds raise h e = absurd (failed_ne_running e)

  ended-Holds :
      (m : Flow (Cycle N K)) {s : Cycle N K}
      → Holds P m
      → outcome mode m ≡ ended s
      → (a : Cycle N K) × P a × (clean_up mode a ≡ s)
  ended-Holds (on a) h e = absurd (ended_ne_running (sym e))
  ended-Holds (leave a) h e = (a, h, ended-injective e)
  ended-Holds raise h e = absurd (failed_ne_ended e)

module _ {S : Type 0} {P : S → Type 0} where
  Holds-bind : (m : Flow S) {f : S → Flow S} → Keeps P f → Holds P m → Holds P (m >>= f)
  Holds-bind (on s) kf h = kf.at s h
  Holds-bind (leave s) kf h = h
  Holds-bind raise kf h = tt

  pub Keeps-bind : {f g : S → Flow S} → Keeps P f → Keeps P g → Keeps P (λ s. f s >>= g)
  Keeps-bind {f} kf kg = record { at = λ s h. Holds-bind (f s) kg (kf.at s h) }

  pub Keeps-on : Keeps P on
  Keeps-on = record { at = λ s h. h }

  pub Keeps-if :
      (b : Bool) {f g : S → Flow S}
      → (b ≡ true → Keeps P f)
      → Keeps P g
      → Keeps P (λ s. if b then f s else g s)
  Keeps-if true kf kg = record { at = λ s h. (kf refl).at s h }
  Keeps-if false kf kg = record { at = λ s h. kg.at s h }

-- One proof for each part of a round.
pub record KeptByParts {N K : Type 0} ⦃o : Num N⦄ (P : Cycle N K → Type 0) (ctl : Controller N K)
    (mode : Mode) (t : Tick N) : Type 0 where
  pub takes : Keeps P (take_writes t)
  pub settings : Keeps P (update_settings mode t)
  pub controller : Keeps P (update_controller ctl mode t)
  pub distances : Keeps P update_distances
  pub hopper : Keeps P (check_hopper_level t)
  pub switch : Keeps P (check_switch t)
  pub outputs : Keeps P read_outputs
  pub manual : Keeps P (manual_changes mode t)
  pub turn : Keeps P (controller_turn ctl mode t)
  pub auger : feeding mode ≡ true → Keeps P (auger_cycle mode t)
  pub probes : Keeps P (read_probes t)
  pub notes : Keeps P (notifications t)
  pub safety : Keeps P (safety_controls mode)
  pub target : Keeps P (check_target mode)
  pub lid : Keeps P (detect_lid t)
  pub lid_cleared : Keeps P (clear_lid mode t)
  pub lid_toggled : Keeps P (toggle_lid mode t)
  pub duty : Keeps P (temperature_duty mode t)
  pub pid : Keeps P (fan_pid mode t)
  pub plus : Keeps P (smoke_plus mode t)
  pub startup : Keeps P (startup_exit mode t)
  pub timed : Keeps P (timed_exit mode t)
  pub max_temp : Keeps P max_temp_control
  pub recipe : Keeps P recipe_exit

module _ {N K : Type 0} ⦃o : Num N⦄ {P : Cycle N K → Type 0} (ctl : Controller N K) (mode : Mode)
    {t : Tick N} (k : KeptByParts P ctl mode t) where
  serve_requests-Keeps : Keeps P (serve_requests ctl mode t)
  unfolding serve_requests
  serve_requests-Keeps =
      Keeps-bind
        (Keeps-bind
          (Keeps-bind
            (Keeps-bind
              (Keeps-bind (Keeps-bind (Keeps-bind k.takes k.settings) k.controller) k.distances)
              k.hopper)
            k.switch)
          k.outputs)
        k.manual

  auger_control-Keeps : Keeps P (auger_control ctl mode t)
  unfolding auger_control
  auger_control-Keeps = Keeps-if (feeding mode) (λ fed. Keeps-bind k.turn (k.auger fed)) Keeps-on

  fan_control-Keeps : Keeps P (fan_control mode t)
  unfolding fan_control
  fan_control-Keeps =
      Keeps-if (burning mode)
        (λ _.
          Keeps-bind
            (Keeps-bind
              (Keeps-bind
                (Keeps-bind (Keeps-bind (Keeps-bind k.target k.lid) k.lid_cleared) k.lid_toggled)
                k.duty)
              k.pid)
            k.plus)
        Keeps-on

  check_ends-Keeps : Keeps P (check_ends mode t)
  unfolding check_ends
  check_ends-Keeps = Keeps-bind (Keeps-bind (Keeps-bind k.startup k.timed) k.max_temp) k.recipe

  pub round-Keeps : Keeps P (round ctl mode t)
  unfolding round
  round-Keeps =
      Keeps-bind
        (Keeps-bind
          (Keeps-bind
            (Keeps-bind (Keeps-bind (Keeps-bind serve_requests-Keeps auger_control-Keeps) k.probes)
              k.notes)
            k.safety)
          fan_control-Keeps)
        check_ends-Keeps

module _ {N K : Type 0} ⦃o : Num N⦄ {P : Cycle N K → Type 0} {Q : Tick N → Type 0}
    (ctl : Controller N K) (mode : Mode)
    (kept : (t : Tick N) → Q t → KeptByParts P ctl mode t) where
  pub loop-Keeps : (ts : List (Tick N)) → All Q ts → Keeps P (loop ctl mode ts)
  unfolding loop
  loop-Keeps [] q = Keeps-on
  loop-Keeps (t ∷ ts) q = Keeps-bind (round-Keeps ctl mode (kept t q.0)) (loop-Keeps ts q.1)

-- One proof for each part of what stands before the loop.
pub record KeptBySetUp {N K : Type 0} ⦃o : Num N⦄ (P : Cycle N K → Type 0) (ctl : Controller N K)
    (mode : Mode) : Type 0 where
  pub times : (s : Cycle N K) → P s → P (set_times ctl mode s)
  pub safety : (s : Cycle N K) → P s → P (enter_safety mode s)
  pub smart : Keeps P (smart_start mode)
  pub stamp : Keeps P (stamp_startup mode)

module _ {N K : Type 0} ⦃o : Num N⦄ {P : Cycle N K → Type 0} (ctl : Controller N K) (mode : Mode)
    (start : Start N) (c : Control N) (p : GrillPlatform N) where
  still_active-Keeps : Keeps {S = Cycle N K} P (λ s. if s.active then on s else leave s)
  still_active-Keeps = record {
    at = λ s h. elim s.active as (λ b. Holds P (if b then on s else leave s)) [
      | true ↦ h
      | false ↦ h
    ];
  }

  pub set_up-Holds :
      KeptBySetUp P ctl mode → P (enter mode start c p) → Holds P (set_up ctl mode start c p)
  unfolding set_up
  set_up-Holds k h =
      (Keeps-bind (Keeps-bind k.smart k.stamp) still_active-Keeps).at _ (k.safety _ (k.times _ h))

  -- What the cycle satisfies at its entry and keeps, it satisfies while it runs.
  pub work_cycle-running :
      {Q : Tick N → Type 0} (ts : List (Tick N)) {s : Cycle N K}
      → KeptBySetUp P ctl mode
      → ((t : Tick N) → Q t → KeptByParts P ctl mode t)
      → All Q ts
      → P (enter mode start c p)
      → work_cycle ctl mode start ts c p ≡ running s
      → P s
  unfolding work_cycle
  work_cycle-running {Q} ts {s} k kept q h e =
      running-Holds P mode (set_up ctl mode start c p >>= loop ctl mode ts)
        (Holds-bind (set_up ctl mode start c p) (loop-Keeps ctl mode kept ts q) (set_up-Holds k h))
        e

  pub work_cycle-ended :
      {Q : Tick N → Type 0} (ts : List (Tick N)) {s : Cycle N K}
      → KeptBySetUp P ctl mode
      → ((t : Tick N) → Q t → KeptByParts P ctl mode t)
      → All Q ts
      → P (enter mode start c p)
      → work_cycle ctl mode start ts c p ≡ ended s
      → (a : Cycle N K) × P a × (clean_up mode a ≡ s)
  unfolding work_cycle
  work_cycle-ended {Q} ts {s} k kept q h e =
      ended-Holds P mode (set_up ctl mode start c p >>= loop ctl mode ts)
        (Holds-bind (set_up ctl mode start c p) (loop-Keeps ctl mode kept ts q) (set_up-Holds k h))
        e
