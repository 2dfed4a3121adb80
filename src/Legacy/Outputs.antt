-- ===== src/Legacy/Outputs.antt =====
-- The commands 'set/timer' and 'set/manual' of `process_command`.
use fire_ai.Prelude.{String, Bool, true, false, not, ◌&&◌, ◌||◌, Option, none, some, if◌then◌else◌}
use fire_ai.Prelude.Num.{Num, ◌=?◌, ◌+!◌, ◌-!◌, #}
use fire_ai.Types.{Notify, Timer, Output, power, igniter, fan, auger, pwm, Manual}
use fire_ai.GrillPlatform.{OutputStatus}
use fire_ai.Commands.Handlers.{is_manual}
use fire_ai.Legacy.{
  Parser, Reply, refused, raised, Store, says, is_float, float_of, write_control, accept,
  update_timer,
}

abbrev pub is_fan : Output → Bool
is_fan fan = true
is_fan _ = false

-- The four outputs by their names.
unfoldable pub output_of : Option String → Option Output
output_of name =
    if says name "power"
    then some power
    else if says name "igniter"
    then some igniter
    else if says name "fan"
    then some fan
    else if says name "auger"
    then some auger
    else none

abbrev pub is_on : {N : Type 0} → Output → OutputStatus N → Bool
is_on power s = s.power
is_on igniter s = s.igniter
is_on fan s = s.fan
is_on auger s = s.auger
is_on pwm s = false

module _ {N : Type 0} ⦃o : Num N⦄ where
  -- The timer and its entry are written.
  unfoldable pub write_timer : Bool → (Notify N → Notify N) → Timer N → Store N → Reply N × Store N
  unfolding update_timer write_control
  write_timer direct change t s = elim (update_timer change s.general.notify_data) [
    | none ↦ (raised, s)
    | some entries ↦ accept direct (record s.general { notify_data = entries; timer = t }) s
  ]

  -- The end of the timer and its entry, as 'stop' clears them.
  abbrev pub clear_timer : Bool → Store N → Reply N × Store N
  clear_timer direct s =
      write_timer direct (λ e. record e { req = false; shutdown = false; keep_warm = false })
        (record s.general.timer { start = # 0; end = # 0; paused = # 0 }) s

  -- A minute, where no number is given.
  unfoldable pub start_timer : Parser N → N → Bool → Option String → Store N → Reply N × Store N
  unfolding write_timer
  start_timer p now direct seconds s =
      let t = s.general.timer in
      let change = λ (e : Notify N). record e { req = true } in
      if t.paused =? # 0
      then if is_float p seconds
        then elim (float_of p seconds) [
          | none ↦ (raised, s)
          | some x ↦ write_timer direct change (record t { start = now; end = now +! o.trunc x }) s
        ]
        else write_timer direct change (record t { start = now; end = now +! # 60 }) s
      else write_timer direct change (record t { end = (t.end -! t.paused) +! now; paused = # 0 }) s

  unfoldable pub pause_timer : N → Bool → Store N → Reply N × Store N
  unfolding write_timer
  pause_timer now direct s =
      let t = s.general.timer in
      if not (t.start =? # 0)
      then write_timer direct (λ e. record e { req = false }) (record t { paused = now }) s
      else clear_timer direct s

  unfoldable pub set_timer :
      Parser N → N → Bool → Option String → Option String → Store N → Reply N × Store N
  unfolding write_timer start_timer pause_timer
  set_timer p now direct name value s =
      let t = s.general.timer in
      let b = says value "true" in
      if says name "start"
      then start_timer p now direct value s
      else if says name "pause"
      then pause_timer now direct s
      else if says name "stop"
      then clear_timer direct s
      else if says name "shutdown"
      then write_timer direct (λ e. record e { shutdown = b }) t s
      else if says name "keep_warm"
      then write_timer direct (λ e. record e { keep_warm = b }) t s
      else (refused, s)

  abbrev pub has_change : Manual N → Bool
  has_change m = elim m.change [ none ↦ false | some output ↦ true ]

  -- A request of an output; without the fan its speed is set back.
  abbrev pub request : Output → Bool → Manual N → Manual N
  request output on m = record m {
    change = some output;
    output = on;
    pwm = if is_fan output && not on then # 100 else m.pwm;
  }

  -- 'toggle' turns the status of the output around.
  abbrev pub wanted : Output → Option String → OutputStatus N → Bool
  wanted output value status =
      if says value "toggle" then not (is_on output status) else says value "true"

  -- 'pwm' with a number.
  unfoldable pub set_pwm : Parser N → Bool → Option String → Store N → Reply N × Store N
  unfolding write_control
  set_pwm p direct value s = elim (float_of p value) [
    | none ↦ (raised, s)
    | some x ↦
        accept direct
          (record s.general {
            manual = record { change = some pwm; output = true; pwm = o.trunc x };
          })
          s
  ]

  -- After an error a request that stands already is written once more.
  unfoldable pub set_manual :
      Parser N → OutputStatus N → Bool → Option String → Option String → Store N → Reply N × Store N
  unfolding output_of set_pwm write_control
  set_manual p status direct name value s =
      if is_manual s.general.mode || s.settings.safety.allow_manual_changes
      then elim (output_of name) [
        | some output ↦
            accept direct
              (record s.general {
                manual = request output (wanted output value status) s.general.manual;
              })
              s
        | none ↦ if says name "pwm" && is_float p value then set_pwm p direct value s else (
          refused,
          if has_change s.general.manual then write_control direct s.general s else s,
        )
      ]
      else (refused, s)
