-- ===== src/Monitor.antt =====
-- The process monitor, common/process_mon.py. Its thread runs beside the process that it watches:
-- the events of both are steps, in any order. What a reset does stands as one step.
pub mod Resets
use fire_ai.Prelude.{ℕ, ◌+◌, Bool, true, false, List, [], ◌∷◌, if◌then◌else◌}
use fire_ai.Prelude.Num.{Num, ◌<?◌, ◌-!◌}
use fire_ai.Types.{Mode, error, Control}

-- Where the thread stands: before `while self.active`, in its body, in a reset, before
-- `if self.kill`, or at its end.
pub data Phase : Type 0 where
  at_active in_loop in_reset at_kill finished : Phase

pub record Monitor (N : Type 0) : Type 0 where
  pub timeout : N
  pub last_heartbeat : N
  pub active : Bool
  pub kill : Bool
  pub phase : Phase
  pub control : Control N
  pub resets : ℕ

-- The calls of the process, and a step of the thread, with the clock's reading.
pub data MonitorEvent (N : Type 0) : Type 0 where
  heartbeat : N → MonitorEvent N
  start_monitor : MonitorEvent N
  stop_monitor : MonitorEvent N
  kill_monitor : MonitorEvent N
  turn : N → MonitorEvent N

pub data MonitorStatus : Type 0 where
  killed active inactive : MonitorStatus

module _ {N : Type 0} ⦃o : Num N⦄ where
  abbrev pub new_monitor : N → N → Control N → Monitor N
  new_monitor now timeout control = record {
    timeout = timeout;
    last_heartbeat = now;
    active = false;
    kill = false;
    phase = at_active;
    control = control;
    resets = 0;
  }

  unfoldable pub monitor_status : Monitor N → MonitorStatus
  monitor_status m =
      if m.kill
      then MonitorStatus.killed
      else if m.active
      then MonitorStatus.active
      else MonitorStatus.inactive

  -- The control process is stopped by an error, and its command is run.
  unfoldable pub reset : Monitor N → Monitor N
  reset m = record m {
    control = record m.control { updated = true; mode = error; critical_error = true };
    resets = m.resets + 1;
    active = false;
    phase = at_active;
  }

  unfoldable pub heartbeat_check : Phase → N → Monitor N → Monitor N
  unfolding reset
  heartbeat_check at_active now m = record m { phase = if m.active then in_loop else at_kill }
  heartbeat_check in_loop now m = record m {
    phase = if m.timeout <? (now -! m.last_heartbeat) then in_reset else at_active;
  }
  heartbeat_check in_reset now m = reset m
  heartbeat_check at_kill now m = record m { phase = if m.kill then finished else at_active }
  heartbeat_check finished now m = m

  unfoldable pub monitor_step : MonitorEvent N → Monitor N → Monitor N
  unfolding heartbeat_check
  monitor_step (heartbeat now) m = record m { last_heartbeat = now }
  monitor_step start_monitor m = record m { active = true }
  monitor_step stop_monitor m = record m { active = false }
  monitor_step kill_monitor m = record m { active = false; kill = true }
  monitor_step (turn now) m = heartbeat_check m.phase now m

  unfoldable pub monitor_run : List (MonitorEvent N) → Monitor N → Monitor N
  unfolding monitor_step
  monitor_run [] m = m
  monitor_run (e ∷ es) m = monitor_run es (monitor_step e m)
