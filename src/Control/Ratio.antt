-- ===== src/Control/Ratio.antt =====
-- The bounds of what the control process (control.py) computes for the auger and the fan.
use fire_ai.Prelude.{◌≡◌, true, Option, none, some, List, [], ◌∷◌, subst, if◌then◌else◌, arith}
use fire_ai.Prelude.Num.{Num, NumOrder, ◌<?◌, ◌≤?◌, ◌-!◌, le_refl, clamp_bounds}
use fire_ai.Settings.{Pwm}
use fire_ai.Control.{Controller, Cycle, Tick, on, on-injective}
use fire_ai.Types.{hold}
use fire_ai.Control.Auger.{set_ratio, run_controller, controller_turn}
use fire_ai.Control.Fan.{profile_duty}

module _ {N : Type 0} ⦃o : Num N⦄ (ord : NumOrder o) where
  -- `set_ratio` and `max` decide by the same test.
  pub set_ratio_bounds :
      {K : Type 0} (raw : N) (s : Cycle N K)
      → (s.settings.cycle_data.u_min ≤? s.settings.cycle_data.u_max) ≡ true
      → ((s.settings.cycle_data.u_min ≤? (set_ratio raw s).cycle_ratio) ≡ true)
        × (((set_ratio raw s).cycle_ratio ≤? s.settings.cycle_data.u_max) ≡ true)
  unfolding set_ratio
  set_ratio_bounds raw s h =
      let lo = s.settings.cycle_data.u_min in
      let hi = s.settings.cycle_data.u_max in
      ground (
        arith,
        le_refl ord lo,
        le_refl ord hi,
        ord.not_lt-le raw lo,
        ord.not_lt-le hi raw,
        ord.not_lt-le hi lo,
      )

  -- Every duty cycle by temperature is within the settings' limits.
  pub profile_duty_bounds :
      (p : Pwm N) (below : N) (ranges duties : List N) {d : N}
      → (p.min_duty_cycle ≤? p.max_duty_cycle) ≡ true
      → profile_duty p below ranges duties ≡ some d
      → ((p.min_duty_cycle ≤? d) ≡ true) × ((d ≤? p.max_duty_cycle) ≡ true)
  unfolding profile_duty
  profile_duty_bounds p below [] duties h e = ground (arith, le_refl ord p.max_duty_cycle)
  profile_duty_bounds p below (r ∷ ranges) [] {d} h e =
      ground (arith, profile_duty_bounds p below ranges [] {d = d})
  profile_duty_bounds p below (r ∷ ranges) (duty ∷ duties) {d} h e = ground (
    arith,
    clamp_bounds ord p.min_duty_cycle p.max_duty_cycle duty,
    profile_duty_bounds p below ranges duties {d = d},
  )

  run_controller_bounds :
      {K : Type 0} (ctl : Controller N K) (t : Tick N) (m : Option K) (s : Cycle N K)
      {s' : Cycle N K}
      → (s.settings.cycle_data.u_min ≤? s.settings.cycle_data.u_max) ≡ true
      → run_controller ctl t m s ≡ on s'
      → ((s.settings.cycle_data.u_min ≤? s'.cycle_ratio) ≡ true)
        × ((s'.cycle_ratio ≤? s.settings.cycle_data.u_max) ≡ true)
  unfolding run_controller
  run_controller_bounds ctl t none s h e = cc
  run_controller_bounds {K} ctl t (some k) s h e =
      subst
        (λ (z : Cycle N K).
          ((s.settings.cycle_data.u_min ≤? z.cycle_ratio) ≡ true)
          × ((z.cycle_ratio ≤? s.settings.cycle_data.u_max) ≡ true))
        (on-injective e)
        (set_ratio_bounds
          (if s.lid_open_detect then s.settings.cycle_data.u_min else (ctl.update k s.ptemp).0)
          (record s {
            controller = some (ctl.update k s.ptemp).1;
            pid_output = (ctl.update k s.ptemp).0;
            controller_cycle_start = t.now;
          })
          h)

  -- With the limits of the settings in order, the cycle ratio that follows the controller's turn
  -- in Hold mode lies between `u_min` and `u_max`, whatever the controller's output is.
  pub controller_turn_bounds :
      {K : Type 0} (ctl : Controller N K) (t : Tick N) (s : Cycle N K) {s' : Cycle N K}
      → (s.settings.cycle_data.u_min ≤? s.settings.cycle_data.u_max) ≡ true
      → (s.cycle_time <? (t.now -! s.controller_cycle_start)) ≡ true
      → controller_turn ctl hold t s ≡ on s'
      → ((s.settings.cycle_data.u_min ≤? s'.cycle_ratio) ≡ true)
        × ((s'.cycle_ratio ≤? s.settings.cycle_data.u_max) ≡ true)
  unfolding controller_turn
  controller_turn_bounds ctl t s h due e =
      run_controller_bounds ctl t s.controller s h (rw due at e)
