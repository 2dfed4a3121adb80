-- ===== src/Legacy/Process.antt =====
-- `process_command` with all its actions.
use fire_ai.Prelude.{
  ℕ, zero, suc, String, Bool, ◌||◌, Option, none, some, List, [], ◌∷◌, ◌++◌, if◌then◌else◌,
}
use fire_ai.Prelude.Num.{Num}
use fire_ai.Legacy.{
  Parser, Site, Reply, accepted, nothing, refused, SystemCall, restart_scripts, reboot_system,
  shutdown_system, Store, arg, says,
}
use fire_ai.Legacy.Reads.{get}
use fire_ai.Legacy.Writes.{
  set_switch, set_lid_open, set_units, set_psp, set_mode, set_pmode, set_duty_cycle,
}
use fire_ai.Legacy.Entries.{set_notify}
use fire_ai.Legacy.Outputs.{set_timer, set_manual}

-- `arglist`, filled up with None to four.
unfoldable pub padded : ℕ → List String → List (Option String)
padded zero [] = []
padded (suc n) [] = none ∷ padded n []
padded zero (x ∷ xs) = some x ∷ padded zero xs
padded (suc n) (x ∷ xs) = some x ∷ padded n xs

module _ {N : Type 0} where
  abbrev pub called : SystemCall → Store N → Reply N × Store N
  called x s = (accepted nothing, record s { system_calls = s.system_calls ++ x ∷ [] })

  unfoldable pub cmd : List String → Store N → Reply N × Store N
  cmd args s =
      if says (arg args 0) "restart"
      then called restart_scripts s
      else if says (arg args 0) "reboot"
      then called reboot_system s
      else if says (arg args 0) "shutdown"
      then called shutdown_system s
      else (refused, s)

  unfoldable pub sys : List String → Store N → Reply N × Store N
  unfolding padded
  sys args s = (accepted nothing, record s { system_queue = s.system_queue ++ padded 4 args ∷ [] })

module _ {N : Type 0} ⦃o : Num N⦄ (p : Parser N) where
  -- The commands from 'notify' on.
  unfoldable pub set_rest : Site N → Bool → List String → Store N → Reply N × Store N
  unfolding set_switch set_duty_cycle set_notify set_timer set_manual
  set_rest site direct args s =
      let a0 = arg args 0 in
      let a1 = arg args 1 in
      let a2 = arg args 2 in
      let a3 = arg args 3 in
      if says a0 "notify" || says a0 "limit_high" || says a0 "limit_low"
      then set_notify p a0 a1 a2 a3 s
      else if says a0 "pwm"
      then set_switch (λ b c. record c { pwm_control = b }) direct a1 s
      else if says a0 "duty_cycle"
      then set_duty_cycle p a1 s
      else if says a0 "tuning_mode"
      then set_switch (λ b c. record c { tuning_mode = b }) direct a1 s
      else if says a0 "timer"
      then set_timer p site.time direct a1 a2 s
      else if says a0 "manual"
      then set_manual p site.status.outpins direct a1 a2 s
      else (refused, s)

  unfoldable pub set : Site N → Bool → List String → Store N → Reply N × Store N
  unfolding set_switch set_lid_open set_units set_psp set_mode set_pmode set_rest
  set site direct args s =
      let a0 = arg args 0 in
      let a1 = arg args 1 in
      let a2 = arg args 2 in
      let a3 = arg args 3 in
      if says a0 "psp"
      then set_psp p direct a1 s
      else if says a0 "units"
      then set_units direct a1 s
      else if says a0 "mode"
      then set_mode p direct a1 a2 a3 s
      else if says a0 "pmode"
      then set_pmode p a1 s
      else if says a0 "splus"
      then set_switch (λ b c. record c { s_plus = b }) direct a1 s
      else if says a0 "lid_open"
      then set_lid_open direct s
      else set_rest site direct args s

  unfoldable pub process_command :
      Site N → Option String → List String → Bool → Store N → Reply N × Store N
  unfolding get set cmd sys
  process_command site action args direct s =
      if says action "get"
      then get site direct args s
      else if says action "set"
      then set site direct args s
      else if says action "cmd"
      then cmd args s
      else if says action "sys"
      then sys args s
      else (refused, s)
