-- ===== src/Scenarios/Older.antt =====
-- The theorems on `process_command` at concrete data.
use text.Mathlib.Text.{◌==◌ as str_eq}
use fire_ai.Prelude.{
  ℕ, String, ◌≡◌, refl, inl, Bool, true, false, ◌||◌, Option, none, some, List, [], ◌∷◌,
  if◌then◌else◌,
}
use fire_ai.Prelude.Num.{nat_num}
use fire_ai.Types.{smoke, error, Control}
use fire_ai.Legacy.{Parser, Site, refused, Store, execute_writes, write_control}
use fire_ai.Legacy.Writes.{set_switch}
use fire_ai.Legacy.Entries.{set_notify, change_entry}
use fire_ai.Legacy.Process.{set, set_rest, process_command}
use fire_ai.Legacy.Held.{IsUntouched, state_of}
use fire_ai.Legacy.Refusals.{process_command-IsUntouched}
use fire_ai.Legacy.Stale.{merged-overwrites}
use fire_ai.Scenarios.{settings, control_in}

abbrev number_of : String → Option ℕ
number_of text = if str_eq text "225" then some 225 else none

abbrev is_number : String → Bool
is_number text = str_eq text "225" || str_eq text "2.2.5"

abbrev parser : Parser ℕ
parser = record {
  isnumeric = is_number;
  isdigit = is_number;
  to_float = number_of;
  to_int = number_of;
}

abbrev site : Site ℕ
site = record {
  time = 1200;
  temps = record { p = []; f = []; aux = []; nt = []; psp = 0; ts = 0 };
  status = record {
    mode = "Smoke";
    start_time = 0;
    start_duration = 0;
    shutdown_duration = 0;
    prime_duration = 0;
    prime_amount = 0;
    lid_open_detected = false;
    lid_open_endtime = 0;
    p_mode = 2;
    outpins = record {
      auger = false;
      igniter = false;
      power = true;
      fan = true;
      pwm = 100;
      frequency = 0;
    };
    startup_timestamp = 0;
  };
  hopper_level = 60;
  uuid = "";
  version = "1";
  build = "0";
  grill_name = "";
  ui_hash = 0;
}

abbrev store : Store ℕ
store = record {
  general = control_in smoke;
  queue = [];
  settings = settings;
  system_queue = [];
  system_calls = [];
}

-- A target that is no number.
abbrev bad_target : List String
bad_target = "notify" ∷ "Grill" ∷ "target" ∷ "hot" ∷ []

bad_target_is_refused :
    (process_command parser site (some "set") bad_target false store).0 ≡ refused
unfolding process_command set set_rest set_notify change_entry
bad_target_is_refused = refl

process_command-IsUntouched_example :
    IsUntouched store (process_command parser site (some "set") bad_target false store).1
process_command-IsUntouched_example =
    process_command-IsUntouched parser site (some "set") bad_target false store
      (inl bad_target_is_refused)

-- While the switch for Smoke Plus is queued, the control process stops with an error.
abbrev stopped : Control ℕ
stopped = record (control_in error) { critical_error = true; startup_timestamp = 1190 }

abbrev smoke_plus_on : List String
smoke_plus_on = "splus" ∷ "true" ∷ []

abbrev queued : Control ℕ
queued = record (control_in smoke) { s_plus = true }

one_is_queued :
    (process_command parser site (some "set") smoke_plus_on false store).1.queue ≡ queued ∷ []
unfolding process_command set set_switch write_control
one_is_queued = refl

merged-overwrites_example :
    state_of
      (execute_writes
        (record (process_command parser site (some "set") smoke_plus_on false store).1 {
          general = stopped;
        })).general
    ≡ state_of store.general
merged-overwrites_example =
    merged-overwrites parser site (some "set") smoke_plus_on false store stopped queued [] refl
      one_is_queued

abbrev hold_225 : List String
hold_225 = "mode" ∷ "hold" ∷ "225" ∷ []
