-- ===== src/Legacy/Refusals.antt =====
-- What every command of `process_command` (common/common.py) leaves behind.
use fire_ai.Prelude.{String, ◌≡◌, refl, ◌⊎◌, inl, inr, Bool, not, ◌&&◌, ◌||◌, Option, List}
use fire_ai.Prelude.Num.{Num, ◌=?◌, #}
use fire_ai.Types.{Notify, Timer}
use fire_ai.GrillPlatform.{OutputStatus}
use fire_ai.Commands.Handlers.{is_manual}
use fire_ai.Legacy.{
  Parser, Site, Reply, accepted, refused, raised, Store, SystemCall, arg, says, is_float, float_of,
  accept, update_timer,
}
use fire_ai.Legacy.Reads.{get, get_data}
use fire_ai.Legacy.Writes.{set_switch, set_lid_open}
use fire_ai.Legacy.Outputs.{
  write_timer, start_timer, pause_timer, set_timer, output_of, set_pwm, set_manual, has_change,
  request, wanted,
}
use fire_ai.Legacy.Process.{cmd, sys, called, set, set_rest, process_command}
use fire_ai.Legacy.Held.{
  IsUntouched, IsHeld, if-IsHeld, elim-IsHeld, write-IsKept, accept-IsHeld, unwritten, same,
  copy-IsHeld,
}
use fire_ai.Legacy.WritesHeld.{
  set_units-IsHeld, set_psp-IsHeld, set_mode-IsHeld, set_pmode-IsHeld, set_duty_cycle-IsHeld,
  set_notify-IsHeld,
}

module _ {N : Type 0} where
  get-IsHeld :
      (site : Site N) (direct : Bool) (args : List String) (s : Store N)
      → IsHeld s (get site direct args s)
  unfolding get
  get-IsHeld site direct args s =
      if-IsHeld s (says (arg args 0) "hopper") _ _
        (record { held = tt; kept = write-IsKept direct _ s s refl refl refl })
        (same (get_data site args s) s)

  called-IsHeld : (x : SystemCall) (s : Store N) → IsHeld s (called x s)
  called-IsHeld x s = record { held = tt; kept = unwritten s _ refl refl }

  cmd-IsHeld : (args : List String) (s : Store N) → IsHeld s (cmd args s)
  unfolding cmd
  cmd-IsHeld args s = if-IsHeld s (says (arg args 0) "restart") _ _ (called-IsHeld _ s) (
      if-IsHeld s (says (arg args 0) "reboot") _ _ (called-IsHeld _ s)
        (if-IsHeld s (says (arg args 0) "shutdown") _ _ (called-IsHeld _ s) (same refused s)))

module _ {N : Type 0} ⦃o : Num N⦄ (p : Parser N) where
  write_timer-IsHeld :
      (direct : Bool) (change : Notify N → Notify N) (t : Timer N) (s : Store N)
      → IsHeld s (write_timer direct change t s)
  unfolding write_timer
  write_timer-IsHeld direct change t s =
      elim-IsHeld s (update_timer change s.general.notify_data) _ _ (same raised s)
        (λ entries. accept-IsHeld direct _ s refl)

  start_timer-IsHeld :
      (now : N) (direct : Bool) (seconds : Option String) (s : Store N)
      → IsHeld s (start_timer p now direct seconds s)
  unfolding start_timer
  start_timer-IsHeld now direct seconds s =
      if-IsHeld s (s.general.timer.paused =? # 0) _ _
        (if-IsHeld s (is_float p seconds) _ _
          (elim-IsHeld s (float_of p seconds) _ _ (same raised s)
            (λ x. write_timer-IsHeld direct _ _ s))
          (write_timer-IsHeld direct _ _ s))
        (write_timer-IsHeld direct _ _ s)

  pause_timer-IsHeld : (now : N) (direct : Bool) (s : Store N) → IsHeld s (pause_timer now direct s)
  unfolding pause_timer
  pause_timer-IsHeld now direct s =
      if-IsHeld s (not (s.general.timer.start =? # 0)) _ _ (write_timer-IsHeld direct _ _ s)
        (write_timer-IsHeld direct _ _ s)

  set_timer-IsHeld :
      (now : N) (direct : Bool) (name value : Option String) (s : Store N)
      → IsHeld s (set_timer p now direct name value s)
  unfolding set_timer
  set_timer-IsHeld now direct name value s =
      if-IsHeld s (says name "start") _ _ (start_timer-IsHeld now direct value s) (
        if-IsHeld s (says name "pause") _ _ (pause_timer-IsHeld now direct s) (
          if-IsHeld s (says name "stop") _ _ (write_timer-IsHeld direct _ _ s) (
            if-IsHeld s (says name "shutdown") _ _ (write_timer-IsHeld direct _ _ s) (
              if-IsHeld s (says name "keep_warm") _ _ (write_timer-IsHeld direct _ _ s)
                (same refused s)))))

  set_pwm-IsHeld :
      (direct : Bool) (value : Option String) (s : Store N) → IsHeld s (set_pwm p direct value s)
  unfolding set_pwm
  set_pwm-IsHeld direct value s =
      elim-IsHeld s (float_of p value) _ _ (same raised s) (λ x. accept-IsHeld direct _ s refl)

  set_manual-IsHeld :
      (status : OutputStatus N) (direct : Bool) (name value : Option String) (s : Store N)
      → IsHeld s (set_manual p status direct name value s)
  unfolding set_manual
  set_manual-IsHeld status direct name value s =
      if-IsHeld s (is_manual s.general.mode || s.settings.safety.allow_manual_changes) _ _
        (elim-IsHeld s (output_of name) _
          (λ output.
            accept direct
              (record s.general {
                manual = request output (wanted output value status) s.general.manual;
              })
              s)
          (if-IsHeld s (says name "pwm" && is_float p value) _ _ (set_pwm-IsHeld direct value s)
            (copy-IsHeld (has_change s.general.manual) direct s))
          (λ output. accept-IsHeld direct _ s refl))
        (same refused s)

  set_rest-IsHeld :
      (site : Site N) (direct : Bool) (args : List String) (s : Store N)
      → IsHeld s (set_rest p site direct args s)
  unfolding set_rest set_switch
  set_rest-IsHeld site direct args s =
      let a0 = arg args 0 in
      let a1 = arg args 1 in
      let a2 = arg args 2 in
      let a3 = arg args 3 in
      if-IsHeld s (says a0 "notify" || says a0 "limit_high" || says a0 "limit_low") _ _
        (set_notify-IsHeld p a0 a1 a2 a3 s)
        (if-IsHeld s (says a0 "pwm") _ _ (accept-IsHeld direct _ s refl) (
          if-IsHeld s (says a0 "duty_cycle") _ _ (set_duty_cycle-IsHeld p a1 s) (
            if-IsHeld s (says a0 "tuning_mode") _ _ (accept-IsHeld direct _ s refl) (
              if-IsHeld s (says a0 "timer") _ _ (set_timer-IsHeld site.time direct a1 a2 s) (
                if-IsHeld s (says a0 "manual") _ _
                  (set_manual-IsHeld site.status.outpins direct a1 a2 s) (same refused s))))))

  set-IsHeld :
      (site : Site N) (direct : Bool) (args : List String) (s : Store N)
      → IsHeld s (set p site direct args s)
  unfolding set set_switch set_lid_open
  set-IsHeld site direct args s =
      let a0 = arg args 0 in
      let a1 = arg args 1 in
      let a2 = arg args 2 in
      let a3 = arg args 3 in
      if-IsHeld s (says a0 "psp") _ _ (set_psp-IsHeld p direct a1 s) (
        if-IsHeld s (says a0 "units") _ _ (set_units-IsHeld direct a1 s) (
          if-IsHeld s (says a0 "mode") _ _ (set_mode-IsHeld p direct a1 a2 a3 s) (
            if-IsHeld s (says a0 "pmode") _ _ (set_pmode-IsHeld p a1 s) (
              if-IsHeld s (says a0 "splus") _ _ (accept-IsHeld direct _ s refl) (
                if-IsHeld s (says a0 "lid_open") _ _ (accept-IsHeld direct _ s refl)
                  (set_rest-IsHeld site direct args s))))))

  pub process_command-IsHeld :
      (site : Site N) (action : Option String) (args : List String) (direct : Bool) (s : Store N)
      → IsHeld s (process_command p site action args direct s)
  unfolding process_command sys
  process_command-IsHeld site action args direct s =
      if-IsHeld s (says action "get") _ _ (get-IsHeld site direct args s) (
        if-IsHeld s (says action "set") _ _ (set-IsHeld site direct args s) (
          if-IsHeld s (says action "cmd") _ _ (cmd-IsHeld args s) (
            if-IsHeld s (says action "sys") _ _
              (record { held = tt; kept = unwritten s _ refl refl }) (same refused s))))

  untouched :
      (s : Store N) (r : Reply N × Store N)
      → IsHeld s r
      → (r.0 ≡ refused) ⊎ (r.0 ≡ raised)
      → IsUntouched s r.1
  untouched s (accepted d, s') h (inl e) = cc
  untouched s (accepted d, s') h (inr e) = cc
  untouched s (refused, s') h e = h.held
  untouched s (raised, s') h e = h.held

  -- A command that replies 'ERROR' or raises an exception leaves the control structure, the settings,
  -- the system commands and the operating system alone. At most a copy of the control structure, as
  -- the command read it, is queued.
  pub process_command-IsUntouched :
      (site : Site N) (action : Option String) (args : List String) (direct : Bool) (s : Store N)
      → let (reply, s') = process_command p site action args direct s in
        (reply ≡ refused) ⊎ (reply ≡ raised) → IsUntouched s s'
  process_command-IsUntouched site action args direct s e =
      untouched s _ (process_command-IsHeld site action args direct s) e
