-- ===== src/Controllers/Adaptive.antt =====
-- controller/pid_ac.py and pid_sp.py: the centre of the output follows the set point. pid_sp.py
-- predicts the temperature (Smith predictor); `exp` is `math.exp`.
use fire_ai.Prelude.{Bool, true, false, ◌&&◌, ◌||◌, Option, if◌then◌else◌}
use fire_ai.Prelude.Num.{Num, ◌<?◌, ◌≤?◌, ◌=?◌, ◌+!◌, ◌-!◌, ◌*!◌, ◌/!◌, #, min, max}
use fire_ai.Settings.{Units, celsius, fahrenheit}
use fire_ai.Controllers.{Gains, get_or, neg, abs, calculate_gains}

pub record AdaptiveConfig (N : Type 0) : Type 0 where
  pub pb : N
  pub ti : Option N
  pub td : Option N
  pub center_factor : Option N
  pub stable_window : Option N
  pub tau : Option N
  pub theta : Option N

-- The fields of both controllers; `tau` and `theta` are of pid_sp.py.
pub record AdaptivePid (N : Type 0) : Type 0 where
  pub gains : Gains N
  pub p : N
  pub i : N
  pub d : N
  pub u : N
  pub pb : N
  pub units : Units
  pub last_update : N
  pub last_set_time : N
  pub error : N
  pub set_point : N
  pub cycle_time : N
  pub start_change_temp : N
  pub new_target : Bool
  pub center : N
  pub center_factor : N
  pub stable_window : N
  pub tau : N
  pub theta : N
  pub derv : N
  pub inter : N
  pub last : N

module _ {N : Type 0} ⦃o : Num N⦄ where
  abbrev scaled : N → N → Bool → N
  scaled x factor low = if low then x *! factor else x *! factor *! (# 12 /! # 10)

  -- Higher centers are needed for higher temperatures.
  unfoldable pub center_for : Units → N → N → N
  center_for fahrenheit set_point factor = scaled set_point factor (set_point ≤? # 240)
  center_for celsius set_point factor =
      scaled (set_point *! # 9 /! # 5 +! # 32) factor (set_point ≤? # 115)

  unfoldable pub adaptive_target : N → N → AdaptivePid N → AdaptivePid N
  unfolding center_for
  adaptive_target now set_point c = record c {
    set_point = set_point;
    error = # 0;
    inter = # 0;
    derv = # 0;
    last_update = now;
    last_set_time = now;
    start_change_temp = c.last;
    new_target = true;
    center = center_for c.units set_point c.center_factor;
  }

  unfoldable pub new_adaptive : N → Units → N → AdaptiveConfig N → AdaptivePid N
  unfolding calculate_gains adaptive_target
  new_adaptive now units cycle_time config = adaptive_target now (# 0) (record {
    gains = calculate_gains config.pb (get_or config.ti (# 180)) (get_or config.td (# 45));
    p = # 0;
    i = # 0;
    d = # 0;
    u = # 0;
    pb = config.pb;
    units = units;
    last_update = now;
    last_set_time = now;
    error = # 0;
    set_point = # 0;
    cycle_time = cycle_time;
    start_change_temp = # 0;
    new_target = false;
    center = # 1 /! # 2;
    center_factor = get_or config.center_factor (# 1 /! # 1000);
    stable_window = get_or config.stable_window (# 12);
    tau = get_or config.tau (# 115);
    theta = get_or config.theta (# 65);
    derv = # 0;
    inter = # 0;
    last = # 150;
  })

  unfoldable pub adaptive_gains : N → N → N → AdaptivePid N → AdaptivePid N
  unfolding calculate_gains
  adaptive_gains pb ti td c = record c { gains = calculate_gains pb ti td }

  -- The first reading after a new set point.
  abbrev pub first_reading : N → AdaptivePid N → AdaptivePid N
  first_reading current c =
      if (c.last =? # 0) && c.new_target then record c { last = current } else c

  -- Once the set point is reached, it is new no more.
  abbrev pub reached : N → AdaptivePid N → AdaptivePid N
  reached error c =
      if c.new_target && (abs error ≤? # 3) then record c { new_target = false } else c

  -- The integral is reset outside the stable window, and half way to a new set point that has not
  -- been reached within three cycles.
  abbrev pub reset_integral : N → N → AdaptivePid N → AdaptivePid N
  reset_integral now error c =
      if (c.stable_window <? abs error)
        || (c.new_target
            && ((c.cycle_time *! # 3) ≤? (now -! c.last_set_time))
            && (abs error ≤? (abs (c.start_change_temp -! c.set_point) /! # 2)))
      then record c { inter = # 0 }
      else c

  abbrev pub reset_derivative : N → N → AdaptivePid N → AdaptivePid N
  reset_derivative current error c =
      if (c.new_target && (c.set_point <? current)) || ((c.pb /! # 2) <? abs error)
      then record c { derv = # 0 }
      else c

  abbrev pub prepared : N → N → N → AdaptivePid N → AdaptivePid N
  prepared now current error c =
      reset_derivative current error (reset_integral now error (reached error c))

  -- pid_ac.py, within the proportional band.
  unfoldable pub ac_output : N → N → N → N → AdaptivePid N → AdaptivePid N
  ac_output now dt current error c0 =
      let c = prepared now current error c0 in
      let p = c.gains.kp *! error +! c.center in
      let inter = c.inter +! error *! dt in
      let i = min (max (c.gains.ki *! inter) (neg c.center)) c.center in
      let derv = (current -! c.last) /! dt in
      let d = c.gains.kd *! derv in
      record c { p = p; inter = inter; i = i; derv = derv; d = d; u = p +! i +! d }

  abbrev pub closed : N → N → N → AdaptivePid N → AdaptivePid N
  closed now current error c = record c { error = error; last = current; last_update = now }

  unfoldable pub ac_update : N → N → AdaptivePid N → AdaptivePid N
  unfolding ac_output
  ac_update now current c0 =
      let dt = now -! c0.last_update in
      let c = first_reading current c0 in
      let error = current -! c.set_point in
      closed now current error (
        if error <? neg c.pb
        then record c { u = # 1 }
        else if c.stable_window <? error
        then record c { u = # 0 }
        else ac_output now dt current error c)

  -- 'If error is within PB, reduce output to prevent overshoots'
  abbrev pub reduced : N → N → AdaptivePid N → AdaptivePid N
  reduced now error c =
      if (error <? c.pb) && ((now -! c.last_set_time) <? (c.cycle_time *! # 3))
      then record c { u = c.u *! (# 65 /! # 100) }
      else c

  -- pid_sp.py, within the proportional band.
  unfoldable pub sp_output : N → N → N → N → N → AdaptivePid N → AdaptivePid N
  sp_output now dt current predicted error c0 =
      let c1 = prepared now current error c0 in
      let predicted_error = predicted -! c1.set_point in
      let p = c1.gains.kp *! predicted_error +! c1.center in
      let inter = c1.inter +! predicted_error *! dt in
      let i = max (min (c1.gains.ki *! inter) c1.center) (neg c1.center) in
      let derv = (predicted -! c1.last) /! dt in
      let d = c1.gains.kd *! derv in
      let c = reduced now error (record c1 { p = p; inter = inter; i = i; derv = derv; d = d }) in
      record c { u = c.p +! c.i +! c.d }

  module _ (exp : N → N) where
    -- The temperature that is predicted, from the rate of change.
    unfoldable pub predicted_temp : N → N → AdaptivePid N → N
    predicted_temp dt current c =
        current +! ((current -! c.last) /! dt *! c.theta) *! (# 1 -! exp (neg dt /! c.tau))

    unfoldable pub sp_update : N → N → AdaptivePid N → AdaptivePid N
    unfolding predicted_temp sp_output
    sp_update now current c0 =
        let dt = now -! c0.last_update in
        let c = first_reading current c0 in
        let error = current -! c.set_point in
        let predicted = predicted_temp dt current c in
        let predicted_error = predicted -! c.set_point in
        closed now current error (
          if predicted_error <? neg c.pb
          then record c { u = # 1 }
          else if c.stable_window <? predicted_error
          then record c { u = # 0 }
          else sp_output now dt current predicted error c)
