-- ===== src/Legacy/Degrees.antt =====
-- `convert_temp` and `convert_settings_units` of common/common.py.
use fire_ai.Prelude.{map, if◌then◌else◌}
use fire_ai.Prelude.Num.{Num, ◌+!◌, ◌-!◌, ◌*!◌, ◌/!◌, #}
use fire_ai.Main.RecipeMode.{same_units}
use fire_ai.Settings.{Settings, Units, celsius, fahrenheit}

module _ {N : Type 0} ⦃o : Num N⦄ where
  unfoldable pub convert_temp : Units → N → N
  convert_temp fahrenheit temp = o.trunc (temp *! (# 9 /! # 5) +! # 32)
  convert_temp celsius temp = o.trunc ((temp -! # 32) *! (# 5 /! # 9))

  unfoldable pub convert_settings_units : Units → Settings N → Settings N
  unfolding convert_temp
  convert_settings_units u s =
      let new = convert_temp u in
      if same_units u s.units then s else record s {
        units = u;
        startup = record s.startup {
          startup_exit_temp = new s.startup.startup_exit_temp;
          primary_setpoint = new s.startup.primary_setpoint;
          smartstart = record s.startup.smartstart {
            temp_range_list = map new s.startup.smartstart.temp_range_list;
            exit_temp = new s.startup.smartstart.exit_temp;
          };
        };
        safety = record s.safety {
          maxstartuptemp = new s.safety.maxstartuptemp;
          maxtemp = new s.safety.maxtemp;
          minstartuptemp = new s.safety.minstartuptemp;
        };
        smoke_plus = record s.smoke_plus {
          max_temp = new s.smoke_plus.max_temp;
          min_temp = new s.smoke_plus.min_temp;
        };
        keep_warm = record s.keep_warm { temp = new s.keep_warm.temp };
      }
