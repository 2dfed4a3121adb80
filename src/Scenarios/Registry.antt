-- ===== src/Scenarios/Registry.antt =====
-- The theorems on the command registry at concrete data.
use fire_ai.Prelude.{ℕ, ◌≡◌, refl, true, false, List, [], ◌∷◌}
use fire_ai.Prelude.Num.{nat_num}
use fire_ai.Types.{smoke, hold, Control}
use fire_ai.ControlWrites.{Assign, Patch}
use fire_ai.Commands.{Command, mode_hold, timer_start, ok, Host, World}
use fire_ai.Commands.Handlers.{execute}
use fire_ai.Commands.Merged.{merged, execute-requested_mode}
use fire_ai.Scenarios.{settings, control_in}

abbrev pub host_at : ℕ → Host ℕ
host_at now = record {
  time = now;
  fahrenheit = true;
  is_recipe_name = λ name. false;
  exists = λ name. false;
  as_posix = λ name. name;
}

-- A smoke with the cook timer running, and writes that wait.
abbrev control : Control ℕ
control = record (control_in smoke) {
  timer = record { start = 1000; paused = 0; end = 1600; shutdown = false };
}

abbrev world_with : List (Patch ℕ) → World ℕ
world_with queue = record {
  redis = record { general = control; queue = queue };
  settings = settings;
}

abbrev waiting : List (Patch ℕ)
waiting = (Assign.mode smoke ∷ Assign.updated true ∷ []) ∷ (Assign.s_plus true ∷ []) ∷ []

hold_is_ok : (execute (host_at 1200) false (mode_hold 225) (world_with waiting)).0 ≡ ok
unfolding execute
hold_is_ok = refl

execute-requested_mode_example :
    let r = (merged (execute (host_at 1200) false (mode_hold 225) (world_with waiting)).1).redis in
    (r.general.mode ≡ hold) × (r.general.updated ≡ true) × (r.queue ≡ [])
execute-requested_mode_example =
    execute-requested_mode (host_at 1200) (mode_hold 225) (world_with waiting) hold refl hold_is_ok

abbrev start_command : Command ℕ
start_command = timer_start 300 true false
