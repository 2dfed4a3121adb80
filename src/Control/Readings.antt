-- ===== src/Control/Readings.antt =====
-- What the later parts of a round of `_work_cycle` leave alone: the pit's temperature, the
-- settings and the safety entry of the control structure.
use fire_ai.Prelude.{◌≡◌, ◌∙◌, arith, Bool-cases, inl, inr}
use fire_ai.Prelude.Num.{Num}
use fire_ai.Types.{Mode}
use fire_ai.Notify.{burning}
use fire_ai.Control.{Cycle, Tick, Flow, on, ◌>>=◌, >>=-eq-on}
use fire_ai.Control.Fan.{
  check_target, detect_lid, clear_lid, toggle_lid, temperature_duty, fan_pid, smoke_plus_cycle,
  plain_fan, smoke_plus, fan_control,
}
use fire_ai.Control.Exits.{startup_exit, timed_exit, recipe_exit}
use fire_ai.Control.Safety.{max_temp_control}

pub record SameReadings {N K : Type 0} (s s' : Cycle N K) : Type 0 where
  pub ptemp : s'.ptemp ≡ s.ptemp
  pub settings : s'.settings ≡ s.settings
  pub safety : s'.control.safety ≡ s.control.safety

-- A part that, if the round goes on after it, leaves the readings alone.
pub record KeepsReadings {N K : Type 0} (f : Cycle N K → Flow (Cycle N K)) : Type 0 where
  pub at : (s : Cycle N K) {s' : Cycle N K} → f s ≡ on s' → SameReadings s s'

module _ {N K : Type 0} where
  pub KeepsReadings-bind :
      {f g : Cycle N K → Flow (Cycle N K)}
      → KeepsReadings f
      → KeepsReadings g
      → KeepsReadings (λ s. f s >>= g)
  KeepsReadings-bind {f} {g} kf kg = record {
    at = λ s {s'} h.
        let (a, e, e') = >>=-eq-on (f s) g h in
        let p = kf.at s e in
        let q = kg.at a e' in
        record {
          ptemp = q.ptemp ∙ p.ptemp;
          settings = q.settings ∙ p.settings;
          safety = q.safety ∙ p.safety;
        };
  }

SameReadings-on : {N K : Type 0} (s : Cycle N K) {s' : Cycle N K} → on s ≡ on s' → SameReadings s s'
SameReadings-on s h = ground arith

module _ {N K : Type 0} ⦃o : Num N⦄ (mode : Mode) (t : Tick N) where
  check_target-Keeps : KeepsReadings {N = N} {K = K} (check_target mode)
  unfolding check_target
  check_target-Keeps = record { at = λ s h. ground arith }

  detect_lid-Keeps : KeepsReadings {K = K} (detect_lid t)
  unfolding detect_lid
  detect_lid-Keeps = record { at = λ s h. ground arith }

  clear_lid-Keeps : KeepsReadings {K = K} (clear_lid mode t)
  unfolding clear_lid
  clear_lid-Keeps = record { at = λ s h. ground arith }

  toggle_lid-Keeps : KeepsReadings {K = K} (toggle_lid mode t)
  unfolding toggle_lid
  toggle_lid-Keeps = record { at = λ s h. ground arith }

  temperature_duty-Keeps : KeepsReadings {K = K} (temperature_duty mode t)
  unfolding temperature_duty
  temperature_duty-Keeps = record { at = λ s h. ground arith }

  fan_pid-Keeps : KeepsReadings {K = K} (fan_pid mode t)
  unfolding fan_pid
  fan_pid-Keeps = record { at = λ s h. ground arith }

  smoke_plus_cycle-SameReadings : (s : Cycle N K) → SameReadings s (smoke_plus_cycle mode t s)
  unfolding smoke_plus_cycle
  smoke_plus_cycle-SameReadings s = ground arith

  plain_fan-SameReadings : (s : Cycle N K) → SameReadings s (plain_fan t s)
  unfolding plain_fan
  plain_fan-SameReadings s = ground arith

  smoke_plus-Keeps : KeepsReadings {K = K} (smoke_plus mode t)
  unfolding smoke_plus
  smoke_plus-Keeps = record {
    at = λ s h. ground (arith, smoke_plus_cycle-SameReadings s, plain_fan-SameReadings s);
  }

  fan_parts-Keeps : KeepsReadings {K = K} (λ s.
      check_target mode s
      >>= detect_lid t
      >>= clear_lid mode t
      >>= toggle_lid mode t
      >>= temperature_duty mode t
      >>= fan_pid mode t
      >>= smoke_plus mode t)
  fan_parts-Keeps =
      KeepsReadings-bind
        (KeepsReadings-bind
          (KeepsReadings-bind
            (KeepsReadings-bind
              (KeepsReadings-bind (KeepsReadings-bind check_target-Keeps detect_lid-Keeps)
                clear_lid-Keeps)
              toggle_lid-Keeps)
            temperature_duty-Keeps)
          fan_pid-Keeps)
        smoke_plus-Keeps

  pub fan_control-Keeps : KeepsReadings {K = K} (fan_control mode t)
  unfolding fan_control
  fan_control-Keeps = record {
    at = λ s h. elim (Bool-cases (burning mode)) [
      | inl yes_burning ↦ fan_parts-Keeps.at s (rw yes_burning at h)
      | inr not_burning ↦ SameReadings-on s (rw not_burning at h)
    ];
  }

  pub startup_exit-Keeps : KeepsReadings {K = K} (startup_exit mode t)
  unfolding startup_exit
  startup_exit-Keeps = record { at = λ s h. ground arith }

  pub timed_exit-Keeps : KeepsReadings {K = K} (timed_exit mode t)
  unfolding timed_exit
  timed_exit-Keeps = record { at = λ s h. ground arith }

  pub max_temp_control-Keeps : KeepsReadings {N = N} {K = K} max_temp_control
  unfolding max_temp_control
  max_temp_control-Keeps = record { at = λ s h. ground arith }

  pub recipe_exit-Keeps : KeepsReadings {N = N} {K = K} recipe_exit
  unfolding recipe_exit
  recipe_exit-Keeps = record { at = λ s h. ground arith }
