-- ===== src/Main/Defaults.antt =====
-- The control structure at its defaults: `default_control`, `default_notify` and `get_probe_list` of
-- common/common.py. A step `{}` is one without triggers: outside Recipe mode no key of it is read.
use fire_ai.Prelude.{
  String, Bool, true, false, Option, none, some, List, [], ◌∷◌, ◌++◌, if◌then◌else◌,
}
use fire_ai.Prelude.Num.{Num, #}
use fire_ai.Types.{
  stop, smoke, blank, NotifyKind, probe, probe_limit_high, probe_limit_low, timer, hopper, test,
  Condition, equal_above, equal_below, Notify, StepData, Control,
}
use fire_ai.Settings.{Settings, ProbeInfo}

-- The labels of the probes that are not of type 'Aux'.
unfoldable pub get_probe_list : List ProbeInfo → List String
get_probe_list [] = []
get_probe_list (p ∷ rest) =
    let labels = get_probe_list rest in if p.aux then labels else p.label ∷ labels

module _ {N : Type 0} ⦃o : Num N⦄ where
  abbrev probe_info : NotifyKind → Option Bool → Condition → String → Notify N
  probe_info kind triggered condition label = record {
    label = label;
    kind = kind;
    req = false;
    target = # 0;
    eta = none;
    shutdown = false;
    keep_warm = false;
    reignite = some false;
    condition = condition;
    triggered = triggered;
    last_check = # 0;
  }

  abbrev other_info : NotifyKind → String → Bool → Notify N
  other_info kind label req = record {
    label = label;
    kind = kind;
    req = req;
    target = # 0;
    eta = none;
    shutdown = false;
    keep_warm = false;
    reignite = none;
    condition = equal_above;
    triggered = none;
    last_check = # 0;
  }

  unfoldable pub probe_notify : List String → List (Notify N)
  probe_notify [] = []
  probe_notify (label ∷ rest) =
      probe_info probe none equal_above label
      ∷ probe_info probe_limit_high (some false) equal_above label
      ∷ probe_info probe_limit_low (some false) equal_below label
      ∷ probe_notify rest

  unfoldable pub default_notify : Settings N → List (Notify N)
  unfolding get_probe_list probe_notify
  default_notify s =
      probe_notify (get_probe_list s.probe_info)
      ++ other_info timer "Timer" false
        ∷ other_info hopper "Hopper" s.pelletlevel.warning_enabled
        ∷ other_info test "Test" false
        ∷ []

  abbrev pub no_step : StepData N
  no_step = record {
    mode = stop;
    timer = # 0;
    trigger_temps = [];
    hold_temp = # 0;
    triggered = false;
    pause = false;
    notify = false;
  }

  unfoldable pub default_control : Settings N → Control N
  unfolding default_notify
  default_control s = record {
    updated = true;
    mode = stop;
    next_mode = stop;
    s_plus = s.smoke_plus.enabled;
    pwm_control = s.pwm.pwm_control;
    duty_cycle = s.pwm.max_duty_cycle;
    hopper_check = false;
    recipe = record { filename = ""; start_step = 0; step = 0; step_data = no_step };
    lid_open_toggle = false;
    status = blank;
    probe_profile_update = false;
    settings_update = false;
    distance_update = false;
    controller_update = false;
    units_change = false;
    tuning_mode = false;
    safety = record {
      startuptemp = # 0;
      afterstarttemp = # 0;
      reigniteretries = s.safety.reigniteretries;
      reignitelaststate = smoke;
    };
    primary_setpoint = # 0;
    notify_data = default_notify s;
    timer = record { start = # 0; paused = # 0; end = # 0; shutdown = false };
    manual = record { change = none; output = false; pwm = # 100 };
    smartstart = record { startuptemp = # 0; profile_selected = 0 };
    prime_amount = # 10;
    startup_timestamp = # 0;
    critical_error = false;
  }
