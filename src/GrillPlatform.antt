-- ===== src/GrillPlatform.antt =====
-- The grill platform: the outputs of grillplat/prototype.py, whose methods every platform has.
-- A ramp runs in a thread of its own; only whether one runs is part of the state.
use fire_ai.Prelude.{Bool, true, false, if◌then◌else◌}
use fire_ai.Prelude.Num.{Num, ◌-!◌, ◌*!◌, ◌/!◌, #}

pub record GrillPlatform (N : Type 0) : Type 0 where
  pub dc_fan : Bool
  pub auger : Bool
  pub fan : Bool
  pub igniter : Bool
  pub power : Bool
  pub pwm : N
  pub frequency : N
  pub ramping : Bool

-- What `get_output_status` returns. `pwm` and `frequency` are keys only with a DC fan.
pub record OutputStatus (N : Type 0) : Type 0 where
  pub auger : Bool
  pub igniter : Bool
  pub power : Bool
  pub fan : Bool
  pub pwm : N
  pub frequency : N

module _ {N : Type 0} ⦃o : Num N⦄ where
  abbrev pub auger_on : GrillPlatform N → GrillPlatform N
  auger_on p = record p { auger = true }

  abbrev pub auger_off : GrillPlatform N → GrillPlatform N
  auger_off p = record p { auger = false }

  abbrev pub igniter_on : GrillPlatform N → GrillPlatform N
  igniter_on p = record p { igniter = true }

  abbrev pub igniter_off : GrillPlatform N → GrillPlatform N
  igniter_off p = record p { igniter = false }

  abbrev pub power_on : GrillPlatform N → GrillPlatform N
  power_on p = record p { power = true }

  abbrev pub power_off : GrillPlatform N → GrillPlatform N
  power_off p = record p { power = false }

  abbrev pub fan_off : GrillPlatform N → GrillPlatform N
  fan_off p = record p { fan = false }

  abbrev pub set_duty_cycle : N → GrillPlatform N → GrillPlatform N
  set_duty_cycle percent p = record p { ramping = false; pwm = (# 100 -! percent) /! # 100 }

  abbrev pub fan_on : N → GrillPlatform N → GrillPlatform N
  fan_on duty_cycle p =
      let q = record p { fan = true } in if p.dc_fan then set_duty_cycle duty_cycle q else q

  abbrev pub fan_toggle : GrillPlatform N → GrillPlatform N
  fan_toggle p = if p.fan then record p { fan = false } else record p { fan = true }

  abbrev pub pwm_fan_ramp : GrillPlatform N → GrillPlatform N
  pwm_fan_ramp p = record p { fan = true; ramping = true }

  abbrev pub set_pwm_frequency : N → GrillPlatform N → GrillPlatform N
  set_pwm_frequency frequency p = record p { frequency = frequency }

  abbrev pub get_output_status : GrillPlatform N → OutputStatus N
  get_output_status p = record {
    auger = p.auger;
    igniter = p.igniter;
    power = p.power;
    fan = p.fan;
    pwm = # 100 -! p.pwm *! # 100;
    frequency = p.frequency;
  }
