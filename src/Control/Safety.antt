-- ===== src/Control/Safety.antt =====
-- The safety controls of `_work_cycle` (control.py): the fire that went out, and the maximum
-- temperature; and the reading of the probes that they go by.
use fire_ai.Prelude.{ℕ, zero, suc, true, false, ◌&&◌, none, some, Option, ◌++◌, if◌then◌else◌}
use fire_ai.Prelude.Num.{Num, ◌<?◌, ◌-!◌, #}
use fire_ai.Types.{Mode, error, reignite}
use fire_ai.Notify.{grill_error_01, grill_error_02, grill_error_03, burning, check_notify, Notified}
use fire_ai.Control.{Cycle, Tick, Flow, on, leave, raise, write_control, notify}
use fire_ai.Control.Requests.{starting}

module _ {N K : Type 0} ⦃o : Num N⦄ where
  -- The update of the probe profiles, and `probe_complex.read_probes()`.
  unfoldable pub read_probes : Tick N → Cycle N K → Flow (Cycle N K)
  read_probes t s = on (
      if s.control.probe_profile_update
      then write_control (record s {
        settings = t.settings;
        ptemp = t.ptemp;
        control = record s.control { probe_profile_update = false };
      })
      else record s { ptemp = t.ptemp })

  -- `control = check_notify(…)`
  unfoldable pub take_notified : N → Option (Notified N) → Cycle N K → Flow (Cycle N K)
  take_notified eta_time none s = raise
  take_notified eta_time (some n) s = on (record s {
    control = n.control;
    stored = n.stored;
    sent = s.sent ++ n.sent;
    eta_toggle_time = eta_time;
  })

  -- The call of `check_notify` with the readings, with the estimates due every 20 seconds.
  unfoldable pub notifications : Tick N → Cycle N K → Flow (Cycle N K)
  unfolding take_notified
  notifications t s =
      let due = (# 20 <? (t.now -! s.eta_toggle_time)) && t.eta_calculation in
      take_notified (if due then t.time_eta else s.eta_toggle_time)
        (check_notify s.settings
          (record {
            in_data = some t.temps;
            hopper_level = s.hopper_level;
            time = t.time_notify;
            update_eta = due;
            estimate_eta = t.estimate_eta;
          })
          s.control s.stored)
        s

  -- What follows when the pit is below the startup temperature: an error, or another ignition.
  unfoldable pub fire_out : Mode → ℕ → Cycle N K → Cycle N K
  fire_out mode zero s =
      notify grill_error_02
        (write_control (record s { control = record s.control { mode = error; updated = true } }))
  fire_out mode (suc retries) s = notify grill_error_03 (
      write_control (record s {
        control = record s.control {
          safety = record s.control.safety { reigniteretries = retries; reignitelaststate = mode };
          mode = reignite;
          updated = true;
        };
      }))

  unfoldable pub safety_controls : Mode → Cycle N K → Flow (Cycle N K)
  unfolding fire_out
  safety_controls mode s =
      if starting mode
      then on (record s {
        control = record s.control {
          safety = record s.control.safety { afterstarttemp = s.ptemp };
        };
      })
      else if burning mode && (s.ptemp <? s.control.safety.startuptemp)
      then leave (fire_out mode s.control.safety.reigniteretries s)
      else on s

  -- 'Max Temp Safety Control'
  unfoldable pub max_temp_control : Cycle N K → Flow (Cycle N K)
  max_temp_control s =
      if s.settings.safety.maxtemp <? s.ptemp
      then leave (
          notify grill_error_01 (
            write_control
              (record s { control = record s.control { mode = error; updated = true } })))
      else on s
