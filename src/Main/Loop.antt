-- ===== src/Main/Loop.antt =====
-- An iteration of the main loop of control.py, and its runs. The status for the displays, the probe
-- drivers and the commands for the operating system are output alone.
use fire_ai.Prelude.{Bool, true, false, not, ◌&&◌, none, some, List, [], ◌∷◌, ◌++◌, if◌then◌else◌}
use fire_ai.Prelude.Num.{Num, ◌≤?◌, #}
use fire_ai.Types.{stop, monitor, active, NotifyKind, timer, Notify}
use fire_ai.Settings.{Settings}
use fire_ai.GrillPlatform.{GrillPlatform}
use fire_ai.Notify.{Readings, timer_expired, Notified, check_notify}
use fire_ai.Control.{Controller, Flow, on, raise, ◌>>=◌}
use fire_ai.Main.{Process, Iteration, write_control, take_writes}
use fire_ai.Main.Defaults.{default_control}
use fire_ai.Main.Modes.{is_error, is_monitoring, enter_mode}

abbrev is_timer : NotifyKind → Bool
is_timer timer = true
is_timer _ = false

module _ {N : Type 0} where
  abbrev pub take_notified : Process N → Notified N → Process N
  take_notified p n = record p { control = n.control; stored = n.stored; sent = p.sent ++ n.sent }

module _ {N : Type 0} ⦃o : Num N⦄ where
  -- A switch that was turned off stops the grill, with the structure of the last iteration.
  unfoldable pub check_switch : Iteration N → Process N → Process N
  check_switch i p =
      if not p.settings.platform.standalone && not (if i.switch then p.last else not p.last)
      then (let p' = record p { last = i.switch_again } in
          if i.switch_again
          then p'
          else (let c = record p.control { updated = true; mode = stop } in
              write_control c (record p' { control = c })))
      else p

  unfoldable pub read_writes : Iteration N → Process N → Process N
  read_writes i p = let p' = take_writes i.writes p in record p' { control = p'.stored }

  unfoldable pub update_settings : Iteration N → Process N → Process N
  update_settings i p =
      if p.control.settings_update
      then (let c = record p.control { settings_update = false } in
          write_control c (record p { control = c; settings = i.file }))
      else p

  unfoldable pub notifications : Readings N → Process N → Flow (Process N)
  notifications r p = elim (check_notify p.settings r p.control p.stored) [
    | none ↦ raise
    | some n ↦ on (take_notified p n)
  ]

  abbrev is_due : Iteration N → Notify N → Process N → Bool
  is_due i item p = is_timer item.kind && item.req && (p.control.timer.end ≤? i.time)

  abbrev stop_item : Notify N → Notify N
  stop_item item = record item { req = false; shutdown = false; keep_warm = false }

  -- An expired timer is taken off, with its actions.
  unfoldable pub expire_timer :
      Iteration N → List (Notify N) → Notify N → List (Notify N) → Process N → Process N
  expire_timer i before item rest p =
      let c = record p.control {
        timer = record p.control.timer { start = # 0; paused = # 0; end = # 0 };
        notify_data = before ++ stop_item item ∷ rest;
      } in
      if is_due i item p
      then write_control c (record p { control = c; sent = p.sent ++ timer_expired ∷ [] })
      else p

  unfoldable pub expire_timers :
      Iteration N → List (Notify N) → List (Notify N) → Process N → Process N
  expire_timers i before [] p = p
  expire_timers i before (item ∷ rest) p =
      expire_timers i (before ++ (if is_due i item p then stop_item item else item) ∷ []) rest
        (expire_timer i before item rest p)

  -- The distances of the hopper's sensor, its check, and the probe profiles.
  unfoldable pub update_distances : Process N → Process N
  update_distances p =
      if p.control.distance_update
      then (let c = record p.control { distance_update = false } in
          write_control c (record p { control = c }))
      else p

  unfoldable pub check_hopper : Process N → Process N
  check_hopper p =
      if p.control.hopper_check
      then (let c = record p.control { hopper_check = false } in
          write_control c (record p { control = c }))
      else p

  unfoldable pub update_profiles : Iteration N → Process N → Process N
  update_profiles i p =
      if p.control.probe_profile_update
      then (let c = record p.control { probe_profile_update = false } in
          write_control c (record p { control = c; settings = i.file }))
      else p

  abbrev pub serve_updates : Iteration N → Process N → Process N
  serve_updates i p = update_profiles i (check_hopper (update_distances p))

  -- The announcement is taken, a change of the units stops the grill, and the status follows.
  unfoldable pub acknowledge : Iteration N → Process N → Process N
  acknowledge i p =
      let c1 = record p.control { updated = false } in
      let p1 = write_control c1 (record p { control = c1 }) in
      let p2 =
        if c1.units_change
        then record p1 {
          control = record c1 { mode = stop; units_change = false };
          settings = i.file;
        }
        else p1 in
      if not (is_monitoring p2.control.status) && not (is_error p2.control.mode)
      then (let c3 = record p2.control { status = active } in
          write_control c3 (record p2 { control = c3 }))
      else p2

  -- With MQTT enabled the notifications are checked once more.
  unfoldable pub notify_again : Iteration N → Process N → Flow (Process N)
  unfolding notifications
  notify_again i p = elim i.mqtt [ none ↦ on p | some r ↦ notifications r p ]

module _ {N K : Type 0} ⦃o : Num N⦄ (ctl : Controller N K) where
  unfoldable pub change_mode : Iteration N → Process N → Flow (Process N)
  change_mode i p =
      if p.control.updated && not p.control.critical_error
      then (let p' = acknowledge i p in enter_mode ctl i p'.control.mode p'.control p')
      else on p

  -- The loop's body.
  unfoldable pub iteration : Iteration N → Process N → Flow (Process N)
  iteration i p =
      notifications i.readings (update_settings i (read_writes i (check_switch i p))) >>= λ p'.
      change_mode i (serve_updates i (expire_timers i [] p'.control.notify_data p'))
      >>= notify_again i

  -- 'Main Loop', over the iterations that the outside world gives it.
  unfoldable pub main_loop : List (Iteration N) → Process N → Flow (Process N)
  main_loop [] p = on p
  main_loop (i ∷ is) p = iteration i p >>= main_loop is

  -- What stands before the loop: the defaults, a critical error where a module cannot be loaded, the
  -- switch, and 'boot to monitor'.
  unfoldable pub start_process : Settings N → Bool → Bool → GrillPlatform N → Process N
  unfolding default_control
  start_process file failed switch g =
      let c = record (default_control file) { critical_error = failed } in
      let c' = if file.boot_to_monitor then record c { mode = monitor; updated = true } else c in
      record {
        control = c';
        stored = c';
        settings = file;
        platform = g;
        last = switch;
        sent = [];
        halted = false;
      }
