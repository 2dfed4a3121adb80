-- ===== src/Controllers/Pid.antt =====
-- controller/pid.py: the integral is kept within `inter_max`.
use fire_ai.Prelude.{ℕ, ◌+◌, not, some, List, [], ◌∷◌, if◌then◌else◌}
use fire_ai.Prelude.Num.{Num, ◌=?◌, ◌+!◌, ◌-!◌, ◌*!◌, ◌/!◌, #, min, max}
use fire_ai.Control.{Controller}
use fire_ai.Controllers.{Gains, PidConfig, get_or, neg, abs, calculate_gains}

pub record Pid (N : Type 0) : Type 0 where
  pub gains : Gains N
  pub p : N
  pub i : N
  pub d : N
  pub u : N
  pub last_update : N
  pub error : N
  pub set_point : N
  pub center : N
  pub derv : N
  pub inter : N
  pub inter_max : N
  pub last : N

-- The calls of a controller object, with the readings of the clock.
pub data PidCall (N : Type 0) : Type 0 where
  update : (now later current : N) → PidCall N
  set_target : (now set_point : N) → PidCall N
  set_gains : (pb ti td : N) → PidCall N
  set_config : (now : N) → PidConfig N → PidCall N

module _ {N : Type 0} ⦃o : Num N⦄ where
  abbrev pub gains_of : PidConfig N → Gains N
  gains_of config =
      calculate_gains (get_or config.pb (# 60)) (get_or config.ti (# 180)) (get_or config.td (# 45))

  abbrev pub center_of : PidConfig N → N
  center_of config = get_or config.center (# 1 /! # 2)

  unfoldable pub limit_of : Gains N → N → N
  limit_of g center = if not (g.ki =? # 0) then abs (center /! g.ki) else # 0

  unfoldable pub pid_target : N → N → Pid N → Pid N
  pid_target now set_point c = record c {
    set_point = set_point;
    error = # 0;
    inter = # 0;
    derv = # 0;
    last_update = now;
  }

  -- `Controller(config, units, cycle_data)`
  unfoldable pub new_pid : N → PidConfig N → Pid N
  unfolding calculate_gains limit_of pid_target
  new_pid now config = pid_target now (# 0) (record {
    gains = gains_of config;
    p = # 0;
    i = # 0;
    d = # 0;
    u = # 0;
    last_update = now;
    error = # 0;
    set_point = # 0;
    center = center_of config;
    derv = # 0;
    inter = # 0;
    inter_max = limit_of (gains_of config) (center_of config);
    last = # 150;
  })

  -- The integral, kept within its limits.
  unfoldable pub integrate : Pid N → N → N
  integrate c step =
      let inter = c.inter +! step in
      if not (c.center =? # 0) then min (max inter (neg c.inter_max)) c.inter_max else inter

  unfoldable pub pid_update : (now later current : N) → Pid N → Pid N
  unfolding integrate
  pid_update now later current c =
      let error = current -! c.set_point in
      let p = c.gains.kp *! error +! c.center in
      let dt = now -! c.last_update in
      let inter = integrate c (error *! dt) in
      let i = c.gains.ki *! inter in
      let derv = (current -! c.last) /! dt in
      let d = c.gains.kd *! derv in
      record c {
        p = p;
        i = i;
        d = d;
        u = p +! i +! d;
        error = error;
        derv = derv;
        inter = inter;
        last = current;
        last_update = later;
      }

  unfoldable pub pid_gains : N → N → N → Pid N → Pid N
  unfolding calculate_gains limit_of
  pid_gains pb ti td c =
      let g = calculate_gains pb ti td in record c { gains = g; inter_max = limit_of g c.center }

  unfoldable pub pid_config : N → PidConfig N → Pid N → Pid N
  unfolding calculate_gains limit_of
  pid_config now config c = record c {
    error = # 0;
    inter = # 0;
    derv = # 0;
    last_update = now;
    gains = gains_of config;
    center = center_of config;
    inter_max = limit_of (gains_of config) (center_of config);
  }

  unfoldable pub pid_call : PidCall N → Pid N → Pid N
  unfolding pid_update pid_target pid_gains pid_config
  pid_call (update now later current) c = pid_update now later current c
  pid_call (set_target now set_point) c = pid_target now set_point c
  pid_call (set_gains pb ti td) c = pid_gains pb ti td c
  pid_call (set_config now config) c = pid_config now config c

  unfoldable pub pid_calls : List (PidCall N) → Pid N → Pid N
  pid_calls [] c = c
  pid_calls (x ∷ xs) c = pid_calls xs (pid_call x c)

  -- The module as the work cycle has it: `_init_controller`, over a clock whose readings are counted.
  abbrev pub pid_turn : (ℕ → N) → Pid N × ℕ → N → N × (Pid N × ℕ)
  pid_turn clock (c, n) current =
      let c' = pid_update (clock n) (clock (n + 1)) current c in (c'.u, (c', n + 2))

  abbrev pub pid_controller : PidConfig N → (ℕ → N) → Controller N (Pid N × ℕ)
  pid_controller config clock = record {
    create = λ s set_point. some (pid_target (clock 1) set_point (new_pid (clock 0) config), 2);
    update = pid_turn clock;
  }
