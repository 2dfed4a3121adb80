-- ===== src/ControlWrites.antt =====
-- The queue of control writes in Redis: `write_control`, `read_control`, `execute_control_writes`
-- and `deep_update` of common/common.py. A queued dictionary is the list of the assignments that
-- `deep_update` makes for it, a nested dictionary as assignments to its keys. The keys are those that
-- core/commands.py, the control process and its modules write. `process_command`, and displays, write
-- whole control structures, which are not such lists: Legacy has a queue of its own for them.
use fire_ai.Prelude.{ℕ, String, Bool, some, List, [], ◌∷◌, ◌++◌}
use fire_ai.Types.{Mode, Notify, Timer, Output, Control}

pub data Assign (N : Type 0) : Type 0 where
  mode next_mode : Mode → Assign N
  updated s_plus pwm_control hopper_check lid_open_toggle tuning_mode : Bool → Assign N
  settings_update probe_profile_update distance_update controller_update : Bool → Assign N
  units_change pause manual_output : Bool → Assign N
  duty_cycle primary_setpoint prime_amount manual_pwm : N → Assign N
  filename : String → Assign N
  start_step : ℕ → Assign N
  manual_change : Output → Assign N
  notify_data : List (Notify N) → Assign N
  timer : Timer N → Assign N

abbrev pub Patch : Type 0 → Type 0
Patch N = List (Assign N)

pub record Redis (N : Type 0) : Type 0 where
  pub general : Control N
  pub queue : List (Patch N)

module _ {N : Type 0} where
  unfoldable pub assign : Control N → Assign N → Control N
  assign c (mode m) = record c { mode = m }
  assign c (next_mode m) = record c { next_mode = m }
  assign c (updated b) = record c { updated = b }
  assign c (s_plus b) = record c { s_plus = b }
  assign c (pwm_control b) = record c { pwm_control = b }
  assign c (hopper_check b) = record c { hopper_check = b }
  assign c (lid_open_toggle b) = record c { lid_open_toggle = b }
  assign c (tuning_mode b) = record c { tuning_mode = b }
  assign c (settings_update b) = record c { settings_update = b }
  assign c (probe_profile_update b) = record c { probe_profile_update = b }
  assign c (distance_update b) = record c { distance_update = b }
  assign c (controller_update b) = record c { controller_update = b }
  assign c (units_change b) = record c { units_change = b }
  assign c (pause b) = record c {
    recipe = record c.recipe { step_data = record c.recipe.step_data { pause = b } };
  }
  assign c (manual_output b) = record c { manual = record c.manual { output = b } }
  assign c (duty_cycle x) = record c { duty_cycle = x }
  assign c (primary_setpoint x) = record c { primary_setpoint = x }
  assign c (prime_amount x) = record c { prime_amount = x }
  assign c (manual_pwm x) = record c { manual = record c.manual { pwm = x } }
  assign c (filename x) = record c { recipe = record c.recipe { filename = x } }
  assign c (start_step x) = record c { recipe = record c.recipe { start_step = x } }
  assign c (manual_change x) = record c { manual = record c.manual { change = some x } }
  assign c (notify_data x) = record c { notify_data = x }
  assign c (timer x) = record c { timer = x }

  -- `for key, value in updates.items()`
  unfoldable pub deep_update : Control N → Patch N → Control N
  unfolding assign
  deep_update c [] = c
  deep_update c (a ∷ rest) = deep_update (assign c a) rest

  unfoldable pub write_direct : Control N → Redis N → Redis N
  write_direct c r = record r { general = c }

  unfoldable pub write_queued : Patch N → Redis N → Redis N
  write_queued p r = record r { queue = r.queue ++ p ∷ [] }

  -- The loop of `execute_control_writes`: each round pops a write, reads, merges, and stores.
  unfoldable pub merge_writes : Control N → List (Patch N) → Control N
  unfolding deep_update
  merge_writes c [] = c
  merge_writes c (p ∷ rest) = merge_writes (deep_update c p) rest

  unfoldable pub execute_control_writes : Redis N → Redis N
  unfolding merge_writes
  execute_control_writes r = record { general = merge_writes r.general r.queue; queue = [] }
