-- ===== src/Scenarios/Monitors.antt =====
-- The theorems on the process monitor at concrete data.
use fire_ai.Prelude.{ℕ, ◌≤◌, ◌≡◌, refl, List, [], ◌∷◌, arith}
use fire_ai.Prelude.Num.{nat_num}
use fire_ai.Types.{smoke}
use fire_ai.Monitor.{
  finished, in_reset, Monitor, MonitorEvent, heartbeat, start_monitor, kill_monitor, turn,
  new_monitor, monitor_run,
}
use fire_ai.Monitor.Resets.{starts, turns, monitor_run-resets, kill-finished}
use fire_ai.Scenarios.{control_in}

-- A heartbeat, and then none for too long.
abbrev silence : List (MonitorEvent ℕ)
silence = start_monitor ∷ turn 1 ∷ heartbeat 2 ∷ turn 3 ∷ turn 4 ∷ turn 40 ∷ turn 41 ∷ turn 42 ∷ []

monitor_run-resets_example :
    (monitor_run silence (new_monitor 0 30 (control_in smoke))).resets ≤ starts silence
monitor_run-resets_example = monitor_run-resets 0 30 (control_in smoke) silence

abbrev resetting : Monitor ℕ
resetting = record (new_monitor 0 30 (control_in smoke)) { phase = in_reset }

abbrev last_turns : List (MonitorEvent ℕ)
last_turns = turn 50 ∷ heartbeat 51 ∷ turn 52 ∷ turn 53 ∷ turn 54 ∷ []

no_start : starts last_turns ≡ 0
unfolding starts
no_start = refl

four_turns : 4 ≤ turns last_turns
unfolding turns
four_turns = omega arith

kill-finished_example : (monitor_run (kill_monitor ∷ last_turns) resetting).phase ≡ finished
kill-finished_example = kill-finished resetting last_turns no_start four_turns
