-- ===== src/Legacy/Writes.antt =====
-- The commands 'set' of `process_command` but those of the outputs and the notifications: the modes, the
-- units, the switches.
use fire_ai.Prelude.{String, Bool, true, false, ◌&&◌, Option, none, some, if◌then◌else◌}
use fire_ai.Prelude.Num.{Num, ◌<?◌, ◌≤?◌, #}
use fire_ai.Types.{
  Mode, stop, error, startup, reignite, smoke, hold, shutdown, monitor, manual, prime, Control,
}
use fire_ai.Settings.{Units, celsius, fahrenheit}
use fire_ai.Legacy.{
  Parser, Reply, refused, raised, Store, says, is_float, float_of, write_control, accept,
}
use fire_ai.Legacy.Degrees.{convert_settings_units}

-- The names of MODE_MAP that 'set/mode' takes without more arguments.
unfoldable pub plain_mode : Option String → Option Mode
plain_mode name =
    if says name "startup"
    then some startup
    else if says name "smoke"
    then some smoke
    else if says name "shutdown"
    then some shutdown
    else if says name "stop"
    then some stop
    else if says name "reignite"
    then some reignite
    else if says name "monitor"
    then some monitor
    else if says name "error"
    then some error
    else if says name "manual"
    then some manual
    else none

abbrev pub prime_next : Option String → Mode
prime_next name =
    if says name "startup" then startup else if says name "monitor" then monitor else stop

unfoldable pub units_of : Option String → Option Units
units_of name =
    if says name "C" then some celsius else if says name "F" then some fahrenheit else none

module _ {N : Type 0} where
  -- 'splus', 'pwm', 'tuning_mode'
  unfoldable pub set_switch :
      (Bool → Control N → Control N) → Bool → Option String → Store N → Reply N × Store N
  unfolding write_control
  set_switch change direct value s = accept direct (change (says value "true") s.general) s

  -- 'lid_open': with or without 'toggle'.
  unfoldable pub set_lid_open : Bool → Store N → Reply N × Store N
  unfolding write_control
  set_lid_open direct s = accept direct (record s.general { lid_open_toggle = true }) s

module _ {N : Type 0} ⦃o : Num N⦄ where
  -- `int(float(x))` in Fahrenheit, else `float(x)`
  unfoldable pub in_degrees : Units → N → N
  in_degrees fahrenheit x = o.trunc x
  in_degrees celsius x = x

  -- 'units': two writes of the same structure.
  unfoldable pub set_units : Bool → Option String → Store N → Reply N × Store N
  unfolding units_of convert_settings_units write_control
  set_units direct name s = elim (units_of name) [
    | none ↦ (refused, s)
    | some u ↦
        let converted = record s { settings = convert_settings_units u s.settings } in
        let first = record s.general { settings_update = true } in
        accept direct (record first { updated = true; units_change = true })
          (write_control direct first converted)
  ]

  module _ (p : Parser N) where
    -- 'psp', and 'mode/hold' with a number.
    unfoldable pub set_psp : Bool → Option String → Store N → Reply N × Store N
    unfolding in_degrees write_control
    set_psp direct temp s =
        if is_float p temp
        then elim (float_of p temp) [
          | none ↦ (raised, s)
          | some x ↦
              accept direct
                (record s.general {
                  mode = hold;
                  primary_setpoint = in_degrees s.settings.units x;
                  updated = true;
                })
                s
        ]
        else (refused, s)

    -- 'mode/prime': an exception of `int` is an error.
    unfoldable pub set_prime : Bool → Option String → Option String → Store N → Reply N × Store N
    unfolding write_control
    set_prime direct none next s = (refused, s)
    set_prime direct (some amount) next s =
        if p.isdigit amount
        then elim (p.to_int amount) [
          | none ↦ (refused, s)
          | some n ↦
              accept direct
                (record s.general {
                  mode = prime;
                  prime_amount = n;
                  updated = true;
                  next_mode = prime_next next;
                })
                s
        ]
        else (refused, s)

    unfoldable pub set_mode :
        Bool → Option String → Option String → Option String → Store N → Reply N × Store N
    unfolding plain_mode set_prime set_psp write_control
    set_mode direct name value next s = elim (plain_mode name) [
      | some m ↦ accept direct (record s.general { mode = m; updated = true }) s
      | none ↦
          if says name "prime"
          then set_prime direct value next s
          else if says name "hold"
          then set_psp direct value s
          else (refused, s)
    ]

    -- Always queued.
    unfoldable pub set_pmode : Option String → Store N → Reply N × Store N
    unfolding write_control
    set_pmode none s = (refused, s)
    set_pmode (some value) s =
        if p.isdigit value
        then elim (p.to_int value) [
          | none ↦ (raised, s)
          | some n ↦
              if (# 0 ≤? n) && (n <? # 10)
              then accept false (record s.general { settings_update = true })
                  (record s {
                    settings = record s.settings {
                      cycle_data = record s.settings.cycle_data { pmode = n };
                    };
                  })
              else (refused, s)
        ]
        else (refused, s)

    -- `int(arglist[1])`, and always queued.
    unfoldable pub set_duty_cycle : Option String → Store N → Reply N × Store N
    unfolding write_control
    set_duty_cycle none s = (refused, s)
    set_duty_cycle (some value) s =
        if p.isnumeric value
        then elim (p.to_int value) [
          | none ↦ (raised, s)
          | some d ↦
              if (# 0 ≤? d) && (d ≤? # 100)
              then accept false (record s.general { duty_cycle = d }) s
              else (refused, s)
        ]
        else (refused, s)
