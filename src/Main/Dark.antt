-- ===== src/Main/Dark.antt =====
-- Between two cycles of the main loop (control.py) the auger and the igniter are off.
use fire_ai.Prelude.{
  Bool, true, false, if◌then◌else◌, ◌≡◌, ◌∙◌, refl, not, ◌&&◌, Option, none, some, List, [], ◌∷◌,
  arith,
}
use fire_ai.Prelude.Num.{Num, ◌<?◌, #}
use fire_ai.Types.{
  Notify, Mode, Control, stop, error, startup, reignite, smoke, hold, shutdown, monitor, manual,
  prime, recipe,
}
use fire_ai.GrillPlatform.{GrillPlatform}
use fire_ai.Notify.{Readings, Notified, check_notify}
use fire_ai.Control.{Controller, on, raise}
use fire_ai.Main.{Process, Iteration}
use fire_ai.Main.Modes.{
  is_startup, cycle_then, startup_cycle, enter_startup, enter_shutdown, enter_monitor,
  enter_reignite, enter_prime, enter_mode,
}
use fire_ai.Main.Loop.{
  take_notified, check_switch, read_writes, update_settings, notifications, expire_timers,
  expire_timer, update_profiles, check_hopper, update_distances, serve_updates, acknowledge,
  change_mode, notify_again, iteration, main_loop,
}
use fire_ai.Main.DarkCycles.{
  IsDark, DarkEnd, run_cycle-IsDark, >>=-DarkEnd, DarkEnd-on, if-DarkEnd, next_mode-platform,
  enter_stop-IsDark, recipe_mode-DarkEnd,
}

module _ {N K : Type 0} ⦃o : Num N⦄ (ctl : Controller N K) (i : Iteration N) where
  cycle_then-DarkEnd : (m n : Mode) (x : N) (p : Process N) → DarkEnd (cycle_then ctl i m n x p)
  unfolding cycle_then
  cycle_then-DarkEnd m n x p =
      >>=-DarkEnd _ _ (run_cycle-IsDark ctl m i.run p)
        λ q d. rw (next_mode-platform n x i.next_writes q) d

  startup_cycle-DarkEnd :
      (c : Control N) (p : Process N) → IsDark p.platform → DarkEnd (startup_cycle ctl i c p)
  unfolding startup_cycle
  startup_cycle-DarkEnd c p d =
      if-DarkEnd (is_startup c.mode) _ _
        (>>=-DarkEnd _ _ (cycle_then-DarkEnd startup _ _ _) (λ q e. e)) d

  enter_startup-DarkEnd :
      (c : Control N) (p : Process N) → IsDark p.platform → DarkEnd (enter_startup ctl i c p)
  unfolding enter_startup
  enter_startup-DarkEnd c p d =
      if-DarkEnd (# 0 <? i.file.startup.prime_on_startup) _ _
        (>>=-DarkEnd _ _ (run_cycle-IsDark ctl prime i.prime_run _)
          (λ q e. startup_cycle-DarkEnd _ q e))
        (startup_cycle-DarkEnd c _ d)

  enter_mode-DarkEnd :
      (m : Mode) (c : Control N) (p : Process N)
      → IsDark p.platform
      → DarkEnd (enter_mode ctl i m c p)
  unfolding enter_mode enter_shutdown enter_monitor enter_reignite enter_prime
  enter_mode-DarkEnd stop c p d = enter_stop-IsDark i.file c p
  enter_mode-DarkEnd error c p d = enter_stop-IsDark i.file c p
  enter_mode-DarkEnd startup c p d = enter_startup-DarkEnd c p d
  enter_mode-DarkEnd smoke c p d = cycle_then-DarkEnd smoke _ _ _
  enter_mode-DarkEnd hold c p d = cycle_then-DarkEnd hold _ _ _
  enter_mode-DarkEnd shutdown c p d = >>=-DarkEnd _ _ (cycle_then-DarkEnd shutdown _ _ _) (λ q e. e)
  enter_mode-DarkEnd monitor c p d = run_cycle-IsDark ctl monitor i.run _
  enter_mode-DarkEnd manual c p d = run_cycle-IsDark ctl manual i.run _
  enter_mode-DarkEnd reignite c p d = cycle_then-DarkEnd reignite _ _ _
  enter_mode-DarkEnd prime c p d =
      >>=-DarkEnd _ _ (run_cycle-IsDark ctl prime i.run _)
        λ q e. rw (next_mode-platform c.next_mode _ i.next_writes _) e
  enter_mode-DarkEnd recipe c p d = recipe_mode-DarkEnd ctl i.file i.recipe_file _ _ _ d

if-platform :
    {N : Type 0} (b : Bool) (p q : Process N) {g : GrillPlatform N}
    → p.platform ≡ g
    → q.platform ≡ g
    → (if b then p else q).platform ≡ g
if-platform true p q e f = e
if-platform false p q e f = f

module _ {N : Type 0} where
  notified-DarkEnd :
      (p : Process N) (m : Option (Notified N))
      → IsDark p.platform
      → DarkEnd (elim m [ none ↦ raise | some n ↦ on (take_notified p n) ])
  notified-DarkEnd p none d = tt
  notified-DarkEnd p (some n) d = d

module _ {N : Type 0} ⦃o : Num N⦄ (i : Iteration N) where
  check_switch-platform : (p : Process N) → (check_switch i p).platform ≡ p.platform
  unfolding check_switch
  check_switch-platform p = ground arith

  update_settings-platform : (p : Process N) → (update_settings i p).platform ≡ p.platform
  unfolding update_settings
  update_settings-platform p = if-platform _ _ _ refl refl

  expire_timer-platform :
      (before : List (Notify N)) (item : Notify N) (rest : List (Notify N)) (p : Process N)
      → (expire_timer i before item rest p).platform ≡ p.platform
  unfolding expire_timer
  expire_timer-platform before item rest p = if-platform _ _ _ refl refl

  expire_timers-platform :
      (items before : List (Notify N)) (p : Process N)
      → (expire_timers i before items p).platform ≡ p.platform
  unfolding expire_timers
  expire_timers-platform [] before p = refl
  expire_timers-platform (item ∷ rest) before p =
      expire_timers-platform rest _ (expire_timer i before item rest p)
      ∙ expire_timer-platform before item rest p

  serve_updates-platform : (p : Process N) → (serve_updates i p).platform ≡ p.platform
  unfolding update_profiles check_hopper update_distances
  serve_updates-platform p = ground arith

  acknowledge-platform : (p : Process N) → (acknowledge i p).platform ≡ p.platform
  unfolding acknowledge
  acknowledge-platform p =
      let stopped = if-platform p.control.units_change _ _ refl refl in
      if-platform _ _ _ stopped stopped

module _ {N : Type 0} ⦃o : Num N⦄ where
  notifications-DarkEnd :
      (r : Readings N) (p : Process N) → IsDark p.platform → DarkEnd (notifications r p)
  unfolding notifications
  notifications-DarkEnd r p d = notified-DarkEnd p (check_notify p.settings r p.control p.stored) d

  notify_again-DarkEnd :
      (i : Iteration N) (p : Process N) → IsDark p.platform → DarkEnd (notify_again i p)
  unfolding notify_again
  notify_again-DarkEnd i p d =
      elim i.mqtt as (λ m. DarkEnd (elim m [ none ↦ on p | some r ↦ notifications r p ])) [
        | none ↦ d
        | some r ↦ notifications-DarkEnd r p d
      ]

module _ {N K : Type 0} ⦃o : Num N⦄ (ctl : Controller N K) where
  change_mode-DarkEnd :
      (i : Iteration N) (p : Process N) → IsDark p.platform → DarkEnd (change_mode ctl i p)
  unfolding change_mode
  change_mode-DarkEnd i p d =
      let p' = acknowledge i p in
      if-DarkEnd (p.control.updated && not p.control.critical_error)
        (enter_mode ctl i p'.control.mode p'.control p') (on p)
        (enter_mode-DarkEnd ctl i p'.control.mode p'.control p' (rw (acknowledge-platform i p) d)) d

  iteration-DarkEnd :
      (i : Iteration N) (p : Process N) → IsDark p.platform → DarkEnd (iteration ctl i p)
  unfolding iteration read_writes
  iteration-DarkEnd i p d =
      >>=-DarkEnd _ _
        (notifications-DarkEnd i.readings (update_settings i (read_writes i (check_switch i p)))
          (rw (update_settings-platform i _, check_switch-platform i p) d))
        λ q e.
          >>=-DarkEnd _ _
            (change_mode-DarkEnd i _ (
              rw (serve_updates-platform i _, expire_timers-platform i q.control.notify_data [] q)
                e))
            (λ r f. notify_again-DarkEnd i r f)

  main_loop-DarkEnd :
      (is : List (Iteration N)) (p : Process N) → IsDark p.platform → DarkEnd (main_loop ctl is p)
  unfolding main_loop
  main_loop-DarkEnd [] p d = d
  main_loop-DarkEnd (i ∷ is) p d =
      >>=-DarkEnd _ _ (iteration-DarkEnd i p d) (λ q e. main_loop-DarkEnd is q e)

  -- Whenever the main loop stands between two iterations, after any of them and with any controller
  -- and requests, the auger and the igniter are off, if they are off at its start.
  pub main_loop-IsDark :
      (is : List (Iteration N)) (p : Process N) {p' : Process N}
      → IsDark p.platform
      → main_loop ctl is p ≡ on p'
      → IsDark p'.platform
  main_loop-IsDark is p d e = DarkEnd-on (main_loop ctl is p) (main_loop-DarkEnd is p d) e
