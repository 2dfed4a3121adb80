-- ===== src/Scenarios/Commands.antt =====
-- The theorems on the bridge's commands and on the notifications at concrete data.
use fire_ai.Prelude.{
  ℕ, ◌+◌, ◌≡◌, refl, ◌⊎◌, String, true, false, Option, none, some, List, [], ◌∷◌, arith,
}
use fire_ai.Prelude.Num.{nat_num}
use fire_ai.Types.{smoke}
use fire_ai.Notify.{Readings, Notified, check_notify}
use fire_ai.Notify.Passes.{PassKeeps, check_notify-PassKeeps}
use fire_ai.Bridge.{
  CommandDoc, Registry, Bridge, Moment, failed, has_nonce, trim, remember_nonce, nonce_memory,
}
use fire_ai.Bridge.Checks.{IsPassed, LeavesWorld, handle_command_cases}
use fire_ai.Bridge.Nonces.{remember_all, replay_refused}
use fire_ai.Scenarios.{settings, control_in}

-- A registry that allows every command and counts the runs.
abbrev counter : Registry ℕ ℕ
counter = record { cloud_allowed = λ name. some true; execute = λ cmd runs. (true, runs + 1) }

abbrev bridge : Bridge ℕ ℕ
bridge = record { seen_nonces = ("old", 1) ∷ []; statuses = []; world = 0 }

abbrev moment : Moment ℕ
moment = record { now = 1000; control_enabled = true }

abbrev startup_command : CommandDoc ℕ
startup_command = record {
  pending = true;
  name = "mode.startup";
  created = some 990000;
  nonce = some "n1";
}

handle_command_cases_example :
    IsPassed counter moment startup_command bridge
    ⊎ LeavesWorld counter moment "c1" startup_command bridge
handle_command_cases_example = handle_command_cases counter moment "c1" startup_command bridge

abbrev seen : List (String × ℕ)
seen = ("old", 1) ∷ []

abbrev seen_later : List (String × ℕ)
seen_later = remember_all ((3, "n2") ∷ []) (remember_nonce 2 "n1" seen).0

n1_is_new : (remember_nonce 2 "n1" seen).1 ≡ true
unfolding remember_nonce has_nonce
n1_is_new = refl

replay_refused_example : remember_nonce 9 "n1" seen_later ≡ (seen_later, false)
replay_refused_example = replay_refused 2 9 "n1" seen ((3, "n2") ∷ []) n1_is_new (omega arith)

abbrev readings : Readings ℕ
readings = record {
  in_data = some (λ label. 200);
  hopper_level = 80;
  time = 2000;
  update_eta = false;
  estimate_eta = λ label. none;
}

abbrev notified_of : Option (Notified ℕ) → Notified ℕ
notified_of (some n) = n
notified_of none = record { control = control_in smoke; stored = control_in smoke; sent = [] }

abbrev notified : Notified ℕ
notified = notified_of (check_notify settings readings (control_in smoke) (control_in smoke))

-- The timer has run out, and shuts the grill down.
timer_notified :
    check_notify settings readings (control_in smoke) (control_in smoke) ≡ some notified
unfolding check_notify
timer_notified = refl

check_notify-PassKeeps_example :
    PassKeeps (control_in smoke) (control_in smoke).notify_data notified
check_notify-PassKeeps_example =
    check_notify-PassKeeps settings readings (control_in smoke) (control_in smoke) refl
      timer_notified
