-- ===== src/Commands/Handlers.antt =====
-- The handlers of core/commands.py, `patch_control` and `execute`.
use text.Mathlib.Text.{◌==◌ as str_eq}
use fire_ai.Prelude.{
  ℕ, String, Bool, true, false, not, ◌&&◌, Option, none, some, List, [], ◌∷◌, if◌then◌else◌,
}
use fire_ai.Prelude.Num.{Num, ◌=?◌, ◌+!◌, ◌-!◌, #}
use fire_ai.Types.{
  Mode, stop, startup, reignite, smoke, hold, shutdown, monitor, manual, prime, recipe, NotifyKind,
  timer, hopper, Notify, Timer, Output, pwm, Control,
}
use fire_ai.ControlWrites.{Assign, Patch, Redis, deep_update, write_direct, write_queued}
use fire_ai.Commands.{
  NotifyArgs, Command, unknown, mode_startup, mode_smoke, mode_shutdown, mode_stop, mode_monitor,
  mode_manual, mode_reignite, lid_open_toggle, timer_pause, timer_resume, timer_stop,
  recipe_continue, hopper_check, mode_hold, setpoint, duty_cycle, pmode, manual_pwm, mode_prime,
  smoke_plus, pwm_control, tuning_mode, timer_start, notify_set, manual_output, recipe_start,
  unknown_command, invalid_arguments, state, not_found, invalid, CommandResult, ok, error, Answer,
  raise, patch, Host, World, is_timer, same_kind, or_else, update_first, is_valid, in_units,
}

abbrev without_target : NotifyKind → Bool
without_target timer = true
without_target hopper = true
without_target _ = false

abbrev pub is_manual : Mode → Bool
is_manual manual = true
is_manual _ = false

abbrev is_recipe : Mode → Bool
is_recipe recipe = true
is_recipe _ = false

module _ {N : Type 0} ⦃o : Num N⦄ where
  -- `handler(parsed, ctx)`, up to the call of `patch_control`.
  abbrev set_mode : Mode → World N → Answer N
  set_mode m w = patch w.settings (Assign.mode m ∷ Assign.updated true ∷ [])

  unfoldable pub hold_at : Host N → N → World N → Answer N
  unfolding in_units
  hold_at h sp w =
      patch w.settings
        (Assign.mode hold ∷ Assign.primary_setpoint (in_units h sp) ∷ Assign.updated true ∷ [])

  abbrev queue_timer : World N → Timer N → List (Notify N) → Answer N
  queue_timer w t entries = patch w.settings (Assign.timer t ∷ Assign.notify_data entries ∷ [])

  abbrev change_timer : (Notify N → Notify N) → Control N → Option (List (Notify N))
  change_timer change c = update_first (λ e. is_timer e.kind) change c.notify_data

  unfoldable pub start_timer : Host N → N → Bool → Bool → World N → Answer N
  unfolding update_first
  start_timer h seconds off warm w =
      elim (change_timer (λ e. record e { req = true; shutdown = off; keep_warm = warm })
        w.redis.general) [
          | none ↦ raise state
          | some entries ↦
              queue_timer w
                (record { start = h.time; paused = # 0; end = h.time +! seconds; shutdown = off })
                entries
        ]

  unfoldable pub pause_timer : Host N → World N → Answer N
  unfolding update_first
  pause_timer h w =
      let t = w.redis.general.timer in
      elim (change_timer (λ e. record e { req = false }) w.redis.general) [
        | none ↦ raise state
        | some entries ↦
            if t.start =? # 0
            then raise state
            else queue_timer w (record t { paused = h.time }) entries
      ]

  unfoldable pub resume_timer : Host N → World N → Answer N
  unfolding update_first
  resume_timer h w =
      let t = w.redis.general.timer in
      elim (change_timer (λ e. record e { req = true }) w.redis.general) [
        | none ↦ raise state
        | some entries ↦
            if t.paused =? # 0
            then raise state
            else queue_timer w
                (record t { start = h.time; paused = # 0; end = h.time +! (t.end -! t.paused) })
                entries
      ]

  unfoldable pub stop_timer : World N → Answer N
  unfolding update_first
  stop_timer w =
      elim (change_timer (λ e. record e { req = false; shutdown = false; keep_warm = false })
        w.redis.general) [
          | none ↦ raise state
          | some entries ↦
              queue_timer w (record { start = # 0; paused = # 0; end = # 0; shutdown = false })
                entries
        ]

  -- The fields of an entry that a request names; `reignite` only where the entry has it.
  unfoldable pub set_entry : Host N → NotifyArgs N → Notify N → Notify N
  unfolding in_units
  set_entry h a e = record e {
    req = or_else a.req e.req;
    shutdown = or_else a.shutdown e.shutdown;
    keep_warm = or_else a.keep_warm e.keep_warm;
    reignite = elim e.reignite [ none ↦ none | some b ↦ some (or_else a.reignite b) ];
    target = elim a.target [ none ↦ e.target | some t ↦ in_units h t ];
  }

  unfoldable pub has_target : NotifyArgs N → Bool
  has_target a = elim a.target [ none ↦ false | some t ↦ true ]

  unfoldable pub set_notify : Host N → NotifyArgs N → World N → Answer N
  unfolding update_first set_entry has_target
  set_notify h a w =
      elim (update_first (λ e. str_eq e.label a.label && same_kind e.kind a.kind) (set_entry h a)
        w.redis.general.notify_data) [
          | none ↦ raise not_found
          | some entries ↦
              if has_target a && without_target a.kind
              then raise invalid
              else patch w.settings (Assign.notify_data entries ∷ [])
        ]

  unfoldable pub switch_output : Output → Bool → World N → Answer N
  switch_output output on w =
      if not (is_manual w.redis.general.mode) && not w.settings.safety.allow_manual_changes
      then raise state
      else patch w.settings (Assign.manual_change output ∷ Assign.manual_output on ∷ [])

  unfoldable pub start_recipe : Host N → String → ℕ → World N → Answer N
  start_recipe h filename step w =
      if h.exists filename
      then patch w.settings (
          Assign.mode recipe
          ∷ Assign.updated true
          ∷ Assign.filename (h.as_posix filename)
          ∷ Assign.start_step step
          ∷ [])
      else raise not_found

  unfoldable pub continue_recipe : World N → Answer N
  continue_recipe w =
      if is_recipe w.redis.general.mode
      then patch w.settings (Assign.pause false ∷ [])
      else raise state

  unfoldable pub set_pmode : N → World N → Answer N
  set_pmode p w =
      patch (record w.settings { cycle_data = record w.settings.cycle_data { pmode = p } })
        (Assign.settings_update true ∷ [])

  unfoldable pub handler : Host N → Command N → World N → Answer N
  unfolding hold_at start_timer pause_timer resume_timer stop_timer set_notify switch_output
      start_recipe continue_recipe set_pmode
  handler h (unknown name) w = raise unknown_command
  handler h mode_startup w = set_mode startup w
  handler h mode_smoke w = set_mode smoke w
  handler h mode_shutdown w = set_mode shutdown w
  handler h mode_stop w = set_mode stop w
  handler h mode_monitor w = set_mode monitor w
  handler h mode_manual w = set_mode manual w
  handler h mode_reignite w = set_mode reignite w
  handler h (mode_hold sp) w = hold_at h sp w
  handler h (setpoint sp) w = hold_at h sp w
  handler h (mode_prime amount next) w = patch w.settings (
      Assign.mode prime
      ∷ Assign.prime_amount amount
      ∷ Assign.next_mode next
      ∷ Assign.updated true
      ∷ [])
  handler h (smoke_plus b) w = patch w.settings (Assign.s_plus b ∷ [])
  handler h (pwm_control b) w = patch w.settings (Assign.pwm_control b ∷ [])
  handler h (duty_cycle d) w = patch w.settings (Assign.duty_cycle d ∷ [])
  handler h (pmode p) w = set_pmode p w
  handler h lid_open_toggle w = patch w.settings (Assign.lid_open_toggle true ∷ [])
  handler h (tuning_mode b) w = patch w.settings (Assign.tuning_mode b ∷ [])
  handler h (timer_start seconds off warm) w = start_timer h seconds off warm w
  handler h timer_pause w = pause_timer h w
  handler h timer_resume w = resume_timer h w
  handler h timer_stop w = stop_timer w
  handler h (notify_set a) w = set_notify h a w
  handler h (manual_output output on) w = switch_output output on w
  handler h (manual_pwm d) w =
      patch w.settings
        (Assign.manual_change pwm ∷ Assign.manual_pwm d ∷ Assign.manual_output true ∷ [])
  handler h (recipe_start filename step) w = start_recipe h filename step w
  handler h recipe_continue w = continue_recipe w
  handler h hopper_check w = patch w.settings (Assign.hopper_check true ∷ [])

-- `Ctx.patch_control`: written at once, or queued.
unfoldable pub patch_control : {N : Type 0} → Bool → Patch N → Redis N → Redis N
unfolding deep_update write_direct write_queued
patch_control true p r = write_direct (deep_update r.general p) r
patch_control false p r = write_queued p r

unfoldable pub answer : {N : Type 0} → Bool → Answer N → World N → CommandResult × World N
unfolding patch_control
answer direct (raise code) w = (error code, w)
answer direct (patch s p) w = (ok, record { redis = patch_control direct p w.redis; settings = s })

module _ {N : Type 0} ⦃o : Num N⦄ where
  unfoldable pub execute : Host N → Bool → Command N → World N → CommandResult × World N
  unfolding is_valid handler answer
  execute h direct cmd w =
      if is_valid h cmd then answer direct (handler h cmd w) w else (error invalid_arguments, w)
