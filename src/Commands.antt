-- ===== src/Commands.antt =====
-- The command registry, core/commands.py: the argument models, the handlers and `execute`. A
-- handler's dictionary is the list of its assignments. The commands 'units', 'settings.patch' and
-- 'system.*' are left out.
pub mod Handlers
pub mod Entries
pub mod Timers
pub mod Merged
use text.Mathlib.Text.{◌==◌ as str_eq}
use fire_ai.Prelude.{
  ℕ, String, Bool, true, false, not, ◌&&◌, ◌||◌, Option, none, some, List, [], ◌∷◌, leb,
  if◌then◌else◌,
}
use fire_ai.Prelude.Num.{Num, ◌<?◌, ◌≤?◌, ◌=?◌, ◌+!◌, ◌-!◌, #}
use fire_ai.Types.{
  Mode, stop, startup, reignite, smoke, hold, shutdown, monitor, manual, prime, recipe, NotifyKind,
  probe, probe_limit_high, probe_limit_low, timer, hopper, test, Notify, Timer, Output, pwm,
  Control,
}
use fire_ai.Settings.{Settings}
use fire_ai.ControlWrites.{Assign, Patch, Redis, deep_update, write_direct, write_queued}

pub record NotifyArgs (N : Type 0) : Type 0 where
  pub label : String
  pub kind : NotifyKind
  pub req : Option Bool
  pub target : Option N
  pub shutdown : Option Bool
  pub keep_warm : Option Bool
  pub reignite : Option Bool

-- A command with its arguments; `unknown` is a name that is not registered.
pub data Command (N : Type 0) : Type 0 where
  unknown : String → Command N
  mode_startup mode_smoke mode_shutdown mode_stop mode_monitor mode_manual : Command N
  mode_reignite lid_open_toggle timer_pause timer_resume timer_stop : Command N
  recipe_continue hopper_check : Command N
  mode_hold setpoint duty_cycle pmode manual_pwm : N → Command N
  mode_prime : N → Mode → Command N
  smoke_plus pwm_control tuning_mode : Bool → Command N
  timer_start : N → Bool → Bool → Command N
  notify_set : NotifyArgs N → Command N
  manual_output : Output → Bool → Command N
  recipe_start : String → ℕ → Command N

-- `code` of a `CommandError`, or the first two errors of `execute`.
pub data Code : Type 0 where
  unknown_command invalid_arguments state not_found invalid : Code

pub data CommandResult : Type 0 where
  ok : CommandResult
  error : Code → CommandResult

-- A handler's error, or the settings after it and the patch that it queues.
pub data Answer (N : Type 0) : Type 0 where
  raise : Code → Answer N
  patch : Settings N → Patch N → Answer N

-- What a command reads outside Redis and the settings: the clock, whether the units are 'F', and
-- the file names of recipes.
pub record Host (N : Type 0) : Type 0 where
  pub time : N
  pub fahrenheit : Bool
  pub is_recipe_name : String → Bool
  pub exists : String → Bool
  pub as_posix : String → String

pub record World (N : Type 0) : Type 0 where
  pub redis : Redis N
  pub settings : Settings N

abbrev pub is_timer : NotifyKind → Bool
is_timer timer = true
is_timer _ = false

abbrev pub same_kind : NotifyKind → NotifyKind → Bool
same_kind probe probe = true
same_kind probe_limit_high probe_limit_high = true
same_kind probe_limit_low probe_limit_low = true
same_kind timer timer = true
same_kind hopper hopper = true
same_kind test test = true
same_kind _ _ = false

abbrev pub or_else : Option Bool → Bool → Bool
or_else none b = b
or_else (some a) b = a

-- 'Stop', 'Startup' and 'Monitor'
abbrev after_prime : Mode → Bool
after_prime stop = true
after_prime startup = true
after_prime monitor = true
after_prime _ = false

abbrev settable : NotifyKind → Bool
settable test = false
settable _ = true

abbrev switchable : Output → Bool
switchable pwm = false
switchable _ = true

-- The first entry that passes the test, changed; `none` if there is none.
unfoldable pub update_first :
    {N : Type 0}
    → (Notify N → Bool)
    → (Notify N → Notify N)
    → List (Notify N)
    → Option (List (Notify N))
update_first fits change [] = none
update_first fits change (entry ∷ rest) =
    let later = update_first fits change rest in
    if fits entry
    then some (change entry ∷ rest)
    else elim later [ none ↦ none | some entries ↦ some (entry ∷ entries) ]

module _ {N : Type 0} ⦃o : Num N⦄ where
  -- The limits of the argument models.
  unfoldable pub is_valid : Host N → Command N → Bool
  is_valid h (mode_hold sp) = # 0 <? sp
  is_valid h (setpoint sp) = # 0 <? sp
  is_valid h (duty_cycle d) = (# 0 ≤? d) && (d ≤? # 100)
  is_valid h (manual_pwm d) = (# 0 ≤? d) && (d ≤? # 100)
  is_valid h (pmode p) = (# 0 ≤? p) && (p ≤? # 9)
  is_valid h (mode_prime amount next) = (# 1 ≤? amount) && (amount ≤? # 100) && after_prime next
  is_valid h (timer_start seconds s k) = (# 1 ≤? seconds) && (seconds ≤? # 86400)
  is_valid h (notify_set a) = settable a.kind && elim a.target [ none ↦ true | some t ↦ # 0 <? t ]
  is_valid h (manual_output output on) = switchable output
  is_valid h (recipe_start filename step) = h.is_recipe_name filename && leb step 50
  is_valid h _ = true

  -- `int(x) if units == 'F' else float(x)`
  unfoldable pub in_units : Host N → N → N
  in_units h x = if h.fahrenheit then o.trunc x else x
