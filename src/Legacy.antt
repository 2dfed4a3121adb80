-- ===== src/Legacy.antt =====
-- `process_command` of common/common.py, the older interface to the grill that the web API and the
-- displays use. A command reads the whole control structure, changes it and writes the whole of it
-- back. `str`'s tests and conversions are a parameter.
pub mod Degrees
pub mod Reads
pub mod Writes
pub mod Entries
pub mod Outputs
pub mod Process
pub mod Held
pub mod WritesHeld
pub mod Refusals
pub mod Stale
pub mod Agrees
use text.Mathlib.Text.{◌==◌ as str_eq}
use fire_ai.Prelude.{
  ℕ, String, Bool, true, false, not, ◌&&◌, ◌||◌, Option, none, some, List, [], ◌∷◌, ◌++◌, get_elem?,
  if◌then◌else◌,
}
use fire_ai.Types.{Mode, Status, NotifyKind, timer, Notify, Control}
use fire_ai.Settings.{Settings, Units}
use fire_ai.GrillPlatform.{OutputStatus}
use fire_ai.Commands.{is_timer}
use fire_ai.Main.RecipeMode.{set_key}

-- What the command uses of `str`: `isnumeric` without the points, `isdigit`, `float` and `int`,
-- whose `none` is a ValueError.
pub record Parser (N : Type 0) : Type 0 where
  pub isnumeric : String → Bool
  pub isdigit : String → Bool
  pub to_float : String → Option N
  pub to_int : String → Option N

-- `read_current`
pub record Temps (N : Type 0) : Type 0 where
  pub p : List (String × N)
  pub f : List (String × N)
  pub aux : List (String × N)
  pub nt : List (String × N)
  pub psp : N
  pub ts : N

-- `read_status`
pub record StatusDoc (N : Type 0) : Type 0 where
  pub mode : String
  pub start_time : N
  pub start_duration : N
  pub shutdown_duration : N
  pub prime_duration : N
  pub prime_amount : N
  pub lid_open_detected : Bool
  pub lid_open_endtime : N
  pub p_mode : N
  pub outpins : OutputStatus N
  pub startup_timestamp : N

-- What a command reads besides the control structure and the settings modelled: the clock, the
-- documents of other processes, and settings that are only passed on.
pub record Site (N : Type 0) : Type 0 where
  pub time : N
  pub temps : Temps N
  pub status : StatusDoc N
  pub hopper_level : N
  pub uuid : String
  pub version : String
  pub build : String
  pub grill_name : String
  pub ui_hash : ℕ

pub record StatusReply (N : Type 0) : Type 0 where
  pub mode : Mode
  pub status : Status
  pub s_plus : Bool
  pub units : Units
  pub name : String
  pub document : StatusDoc N
  pub ui_hash : ℕ

-- `data['data']`
pub data Datum (N : Type 0) : Type 0 where
  nothing : Datum N
  got_temp : N → Datum N
  got_current : Temps N → Datum N
  got_mode : Mode → Datum N
  got_uuid : String → Datum N
  got_versions : (version build : String) → Datum N
  got_hopper : N → Datum N
  got_timer : (start paused end : N) → (off warm : Bool) → Datum N
  got_notify : List (Notify N) → Datum N
  got_status : StatusReply N → Datum N

-- The result 'OK' with its data, the result 'ERROR', or an exception.
pub data Reply (N : Type 0) : Type 0 where
  accepted : Datum N → Reply N
  refused raised : Reply N

pub data SystemCall : Type 0 where
  restart_scripts reboot_system shutdown_system : SystemCall

-- The control structure and the queue of whole structures in Redis, the settings, the queue of
-- system commands, and the calls of the operating system.
pub record Store (N : Type 0) : Type 0 where
  pub general : Control N
  pub queue : List (Control N)
  pub settings : Settings N
  pub system_queue : List (List (Option String))
  pub system_calls : List SystemCall

-- `arglist[i]`, after it is filled up with None
abbrev pub arg : List String → ℕ → Option String
arg args i = get_elem? args i

-- `arglist[i] == word`
abbrev pub says : Option String → String → Bool
says none word = false
says (some text) word = str_eq text word

abbrev pub is_float : {N : Type 0} → Parser N → Option String → Bool
is_float p none = false
is_float p (some text) = p.isnumeric text

-- `float(arglist[i])`
abbrev pub float_of : {N : Type 0} → Parser N → Option String → Option N
float_of p none = none
float_of p (some text) = p.to_float text

module _ {N : Type 0} where
  unfoldable pub write_control : Bool → Control N → Store N → Store N
  write_control true c s = record s { general = c }
  write_control false c s = record s { queue = s.queue ++ c ∷ [] }

  -- Written back, with the reply 'OK'.
  abbrev pub accept : Bool → Control N → Store N → Reply N × Store N
  accept direct c s = (accepted nothing, write_control direct c s)

  -- `deep_update` of a whole structure: every key is replaced, but the dictionary of trigger
  -- temperatures keeps the keys that the new one lacks.
  unfoldable pub merge_temps : List (String × N) → List (String × N) → List (String × N)
  unfolding set_key
  merge_temps old [] = old
  merge_temps old ((label, value) ∷ rest) = merge_temps (set_key label value old) rest

  unfoldable pub merge_whole : Control N → Control N → Control N
  unfolding merge_temps
  merge_whole old new = record new {
    recipe = record new.recipe {
      step_data = record new.recipe.step_data {
        trigger_temps =
            merge_temps old.recipe.step_data.trigger_temps new.recipe.step_data.trigger_temps;
      };
    };
  }

  unfoldable pub merge_all : Control N → List (Control N) → Control N
  unfolding merge_whole
  merge_all c [] = c
  merge_all c (w ∷ ws) = merge_all (merge_whole c w) ws

  -- `execute_control_writes`
  unfoldable pub execute_writes : Store N → Store N
  unfolding merge_all
  execute_writes s = record s { general = merge_all s.general s.queue; queue = [] }

  -- The timer's entry: the loop over the entries ends at the first of type 'timer', or else at the
  -- last; without any entry its index is unbound.
  unfoldable pub update_timer : (Notify N → Notify N) → List (Notify N) → Option (List (Notify N))
  update_timer change [] = none
  update_timer change (e ∷ []) = some (change e ∷ [])
  update_timer change (e ∷ e' ∷ es) =
      let rest = update_timer change (e' ∷ es) in
      if is_timer e.kind
      then some (change e ∷ e' ∷ es)
      else elim rest [ none ↦ none | some entries ↦ some (e ∷ entries) ]
