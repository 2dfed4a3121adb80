-- ===== src/Monitor/Resets.antt =====
-- How often the monitor resets a process, and how its thread ends (common/process_mon.py).
use fire_ai.Prelude.{
  ℕ, suc, ◌+◌, ◌-◌, ◌≤◌, ◌≡◌, refl, Bool, true, false, List, [], ◌∷◌, arith, if◌then◌else◌,
}
use fire_ai.Prelude.Num.{Num}
use fire_ai.Types.{Control}
use fire_ai.Monitor.{
  Phase, at_active, in_loop, in_reset, at_kill, finished, Monitor, MonitorEvent, heartbeat,
  start_monitor, stop_monitor, kill_monitor, turn, new_monitor, reset, heartbeat_check,
  monitor_step, monitor_run,
}

unfoldable pub starts : {N : Type 0} → List (MonitorEvent N) → ℕ
starts [] = 0
starts (start_monitor ∷ es) = suc (starts es)
starts (heartbeat now ∷ es) = starts es
starts (stop_monitor ∷ es) = starts es
starts (kill_monitor ∷ es) = starts es
starts (turn now ∷ es) = starts es

unfoldable pub turns : {N : Type 0} → List (MonitorEvent N) → ℕ
turns [] = 0
turns (turn now ∷ es) = suc (turns es)
turns (heartbeat now ∷ es) = turns es
turns (stop_monitor ∷ es) = turns es
turns (kill_monitor ∷ es) = turns es
turns (start_monitor ∷ es) = turns es

-- A reset that may still come without a further start.
abbrev pending : Phase → Bool → ℕ
pending in_loop b = 1
pending in_reset b = 1
pending at_active b = if b then 1 else 0
pending at_kill b = if b then 1 else 0
pending finished b = 0

-- The turns of the thread to its end, once it is killed.
abbrev rank : Phase → ℕ
rank in_loop = 4
rank in_reset = 3
rank at_active = 2
rank at_kill = 1
rank finished = 0

due-start : (p : Phase) (b : Bool) → pending p true ≤ suc (pending p b)
due-start p b = ground arith

due-stop : (p : Phase) (b : Bool) → pending p false ≤ pending p b
due-stop p b = ground arith

rank_zero : (p : Phase) → rank p ≤ 0 → p ≡ finished
rank_zero p e = ground arith

rank_max : (p : Phase) → rank p ≤ 4
rank_max p = ground arith

module _ {N : Type 0} ⦃o : Num N⦄ where
  abbrev due : Monitor N → ℕ
  due m = m.resets + pending m.phase m.active

  due-heartbeat_check :
      (p : Phase) (now : N) (m : Monitor N) → m.phase ≡ p → due (heartbeat_check p now m) ≤ due m
  unfolding heartbeat_check reset
  due-heartbeat_check at_active now m e = ground arith
  due-heartbeat_check in_loop now m e = ground arith
  due-heartbeat_check in_reset now m e = ground arith
  due-heartbeat_check at_kill now m e = ground arith
  due-heartbeat_check finished now m e = ground arith

  due-monitor_run :
      (es : List (MonitorEvent N)) (m : Monitor N) → due (monitor_run es m) ≤ due m + starts es
  unfolding monitor_run monitor_step starts
  due-monitor_run [] m = omega arith
  due-monitor_run (heartbeat now ∷ es) m = due-monitor_run es (record m { last_heartbeat = now })
  due-monitor_run (start_monitor ∷ es) m =
      omega (arith, due-monitor_run es (record m { active = true }), due-start m.phase m.active)
  due-monitor_run (stop_monitor ∷ es) m =
      omega (arith, due-monitor_run es (record m { active = false }), due-stop m.phase m.active)
  due-monitor_run (kill_monitor ∷ es) m = omega (
    arith,
    due-monitor_run es (record m { active = false; kill = true }),
    due-stop m.phase m.active,
  )
  due-monitor_run (turn now ∷ es) m = omega (
    arith,
    due-monitor_run es (heartbeat_check m.phase now m),
    due-heartbeat_check m.phase now m refl,
  )

  -- A new monitor resets its process at most once for each start, whatever the heartbeats, the clock
  -- and the order of the steps.
  pub monitor_run-resets :
      (now timeout : N) (control : Control N) (es : List (MonitorEvent N))
      → (monitor_run es (new_monitor now timeout control)).resets ≤ starts es
  monitor_run-resets now timeout control es =
      omega (arith, due-monitor_run es (new_monitor now timeout control))

  rank-turn :
      (p : Phase) (now : N) (m : Monitor N)
      → m.phase ≡ p
      → m.kill ≡ true
      → m.active ≡ false
      → (rank (heartbeat_check p now m).phase ≤ rank p - 1)
        × ((heartbeat_check p now m).kill ≡ true)
        × ((heartbeat_check p now m).active ≡ false)
  unfolding heartbeat_check reset
  rank-turn at_active now m e k a = ground arith
  rank-turn in_loop now m e k a = ground arith
  rank-turn in_reset now m e k a = ground arith
  rank-turn at_kill now m e k a = ground arith
  rank-turn finished now m e k a = ground arith

  rank-monitor_run :
      (es : List (MonitorEvent N)) (m : Monitor N)
      → m.kill ≡ true
      → m.active ≡ false
      → starts es ≡ 0
      → rank (monitor_run es m).phase ≤ rank m.phase - turns es
  unfolding monitor_run monitor_step starts turns
  rank-monitor_run [] m k a none = omega arith
  rank-monitor_run (heartbeat now ∷ es) m k a none =
      rank-monitor_run es (record m { last_heartbeat = now }) k a none
  rank-monitor_run (start_monitor ∷ es) m k a none = omega arith
  rank-monitor_run (stop_monitor ∷ es) m k a none =
      rank-monitor_run es (record m { active = false }) k refl none
  rank-monitor_run (kill_monitor ∷ es) m k a none =
      rank-monitor_run es (record m { active = false; kill = true }) refl refl none
  rank-monitor_run (turn now ∷ es) m k a none =
      let (less, k', a') = rank-turn m.phase now m refl k a in
      omega (arith, rank-monitor_run es (heartbeat_check m.phase now m) k' a' none, less)

  -- Once it is killed, and not started again, the thread ends within its next four steps, wherever it
  -- stood, also in the middle of a reset.
  pub kill-finished :
      (m : Monitor N) (es : List (MonitorEvent N))
      → starts es ≡ 0
      → 4 ≤ turns es
      → (monitor_run (kill_monitor ∷ es) m).phase ≡ finished
  unfolding monitor_run monitor_step
  kill-finished m es none enough = rank_zero _ (
      omega (
        arith,
        rank-monitor_run es (record m { active = false; kill = true }) refl refl none,
        rank_max m.phase,
      ))
