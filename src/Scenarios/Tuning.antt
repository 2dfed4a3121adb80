-- ===== src/Scenarios/Tuning.antt =====
-- The theorems on the controllers at concrete data.
use fire_ai.Prelude.{◌≡◌, none, some, List, [], ◌∷◌, if◌then◌else◌}
use fire_ai.Scenarios.Fixed.{Fixed, fixed_num}
use fire_ai.Prelude.Num.{◌+!◌, ◌-!◌, ◌*!◌, ◌/!◌, min, max, #}
use fire_ai.Settings.{fahrenheit}
use fire_ai.Controllers.{PidConfig, neg}
use fire_ai.Controllers.Pid.{PidCall, update, set_target}
use fire_ai.Controllers.Adaptive.{AdaptivePid, new_adaptive, adaptive_target, sp_output}
use fire_ai.Controllers.Smith.{starts_over, sp_output-u}

abbrev config : PidConfig Fixed
config = record { pb = some (# 60); ti = some (# 180); td = none; center = none }

abbrev calls : List (PidCall Fixed)
calls = set_target (# 10) (# 225) ∷ update (# 30) (# 31) (# 180) ∷ update (# 50) (# 51) (# 240) ∷ []

abbrev smith : AdaptivePid Fixed
smith =
    let start = new_adaptive (# 5) fahrenheit (# 25) (record {
      pb = # 60;
      ti = none;
      td = none;
      center_factor = none;
      stable_window = none;
      tau = none;
      theta = none;
    }) in
    adaptive_target (# 10) (# 225) start

sp_output-u_example :
    let e = # 235 -! smith.set_point in
    let inter = if starts_over (# 30) (# 5) smith then # 0 else smith.inter in
    (sp_output (# 30) (# 25) (# 230) (# 235) (# 5) smith).u
    ≡ (smith.gains.kp *! e +! smith.center)
      +! max (min (smith.gains.ki *! (inter +! e *! # 25)) smith.center) (neg smith.center)
      +! smith.gains.kd *! ((# 235 -! smith.last) /! # 25)
sp_output-u_example = sp_output-u (# 30) (# 25) (# 230) (# 235) (# 5) smith
