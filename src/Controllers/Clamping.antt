-- ===== src/Controllers/Clamping.antt =====
-- controller/pid_clamping.py, pid_clamping_percent_pb.py and pid_parallel.py: while the output is
-- saturated the integral does not grow.
use fire_ai.Prelude.{Bool, true, ◌&&◌, ◌||◌, Option, some, if◌then◌else◌}
use fire_ai.Prelude.Num.{Num, ◌<?◌, ◌≤?◌, ◌=?◌, ◌+!◌, ◌-!◌, ◌*!◌, ◌/!◌, #}
use fire_ai.Controllers.{Gains, PidConfig, get_or, neg, abs, calculate_gains}

-- `pb`, `ti` and `td` are of the percent controller alone, and
-- `clamping` of the parallel one; the others clamp.
pub record ClampingPid (N : Type 0) : Type 0 where
  pub gains : Gains N
  pub p : N
  pub i : N
  pub d : N
  pub u : N
  pub last_update : N
  pub error : N
  pub error_last : N
  pub set_point : N
  pub derv : N
  pub inter : N
  pub pb : N
  pub ti : N
  pub td : N
  pub clamping : Bool

pub record ParallelConfig (N : Type 0) : Type 0 where
  pub kp : Option N
  pub ki : Option N
  pub kd : Option N
  pub clamping : Option Bool

abbrev or_true : Option Bool → Bool
or_true (some b) = b
or_true _ = true

module _ {N : Type 0} ⦃o : Num N⦄ where
  -- The fields at their start.
  abbrev blank_pid : N → Gains N → N → N → N → Bool → ClampingPid N
  blank_pid now g pb ti td clamping = record {
    gains = g;
    p = # 0;
    i = # 0;
    d = # 0;
    u = # 0;
    last_update = now;
    error = # 0;
    error_last = # 0;
    set_point = # 0;
    derv = # 0;
    inter = # 0;
    pb = pb;
    ti = ti;
    td = td;
    clamping = clamping;
  }

  -- Saturated, with an integral part of the output's sign.
  abbrev pub saturated : N → N → Bool
  saturated u i = (# 1 ≤? abs u) && (# 0 <? (i *! u))

  unfoldable pub clamped_update : (now later current : N) → ClampingPid N → ClampingPid N
  clamped_update now later current c =
      let dt = now -! c.last_update in
      let error = current -! c.set_point in
      let p = c.gains.kp *! error in
      let inter = c.inter +! error *! dt in
      let i = c.gains.ki *! inter in
      let derv = (error -! c.error_last) /! dt in
      let d = c.gains.kd *! derv in
      let u = p +! i +! d in
      record c {
        p = p;
        i = i;
        d = d;
        u = u;
        derv = derv;
        inter = if c.clamping && saturated u i then inter -! error *! dt else inter;
        error_last = error;
        last_update = later;
      }

  unfoldable pub clamped_target : N → N → ClampingPid N → ClampingPid N
  clamped_target now set_point c = record c {
    set_point = set_point;
    error = # 0;
    inter = # 0;
    derv = # 0;
    last_update = now;
  }

  abbrev cleared : Gains N → ClampingPid N → ClampingPid N
  cleared g c = record c { gains = g; error = # 0; inter = # 0; derv = # 0 }

  abbrev clamping_gains : PidConfig N → Gains N
  clamping_gains config =
      calculate_gains (get_or config.pb (# 100)) (get_or config.ti (# 180))
        (get_or config.td (# 45))

  unfoldable pub new_clamping : N → PidConfig N → ClampingPid N
  unfolding calculate_gains clamped_target
  new_clamping now config =
      clamped_target now (# 0) (blank_pid now (clamping_gains config) (# 0) (# 0) (# 0) true)

  unfoldable pub clamping_config : PidConfig N → ClampingPid N → ClampingPid N
  unfolding calculate_gains
  clamping_config config c = cleared (clamping_gains config) c

  -- pid_clamping_percent_pb.py: the proportional band is a percentage of the set point.
  unfoldable pub percent_gains : N → N → N → N → Gains N
  percent_gains pb ti td set_point =
      let kp : N =
        if (pb =? # 0) || (set_point =? # 0)
        then # 0
        else neg (# 1) /! ((pb /! # 100) *! set_point) in
      record { kp = kp; ki = if ti =? # 0 then # 0 else kp /! ti; kd = kp *! td }

  abbrev with_percent : ClampingPid N → ClampingPid N
  with_percent c = record c { gains = percent_gains c.pb c.ti c.td c.set_point }

  unfoldable pub percent_target : N → N → ClampingPid N → ClampingPid N
  unfolding clamped_target percent_gains
  percent_target now set_point c = with_percent (clamped_target now set_point c)

  unfoldable pub new_percent : N → PidConfig N → ClampingPid N
  unfolding percent_target
  new_percent now config = percent_target now (# 0) (
      blank_pid now (record { kp = # 0; ki = # 0; kd = # 0 }) (get_or config.pb (# 42))
        (get_or config.ti (# 180)) (get_or config.td (# 45)) true)

  unfoldable pub percent_set_gains : N → N → N → ClampingPid N → ClampingPid N
  unfolding percent_gains
  percent_set_gains pb ti td c = with_percent (record c { pb = pb; ti = ti; td = td })

  unfoldable pub percent_config : PidConfig N → ClampingPid N → ClampingPid N
  unfolding percent_gains
  percent_config config c =
      let c' = record c {
        pb = get_or config.pb (# 42);
        ti = get_or config.ti (# 180);
        td = get_or config.td (# 45);
      } in
      cleared (percent_gains c'.pb c'.ti c'.td c'.set_point) c'

  -- pid_parallel.py
  unfoldable pub parallel_gains : N → N → N → Gains N
  parallel_gains kp ki kd = record {
    kp = neg (# 1) *! kp;
    ki = neg (# 1) *! ki;
    kd = neg (# 1) *! kd;
  }

  abbrev parallel_of : ParallelConfig N → Gains N
  parallel_of config =
      parallel_gains (get_or config.kp (# 1 /! # 100)) (get_or config.ki (# 55 /! # 1000000))
        (get_or config.kd (# 45 /! # 100))

  unfoldable pub new_parallel : N → ParallelConfig N → ClampingPid N
  unfolding parallel_gains clamped_target
  new_parallel now config =
      clamped_target now (# 0)
        (blank_pid now (parallel_of config) (# 0) (# 0) (# 0) (or_true config.clamping))

  unfoldable pub parallel_config : ParallelConfig N → ClampingPid N → ClampingPid N
  unfolding parallel_gains
  parallel_config config c =
      cleared (parallel_of config) (record c { clamping = or_true config.clamping })
