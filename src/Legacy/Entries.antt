-- ===== src/Legacy/Entries.antt =====
-- The commands 'set/notify', 'set/limit_high' and 'set/limit_low' of `process_command`.
use text.Mathlib.Text.{◌==◌ as str_eq}
use fire_ai.Prelude.{
  String, Bool, true, false, not, ◌&&◌, ◌||◌, Option, none, some, List, if◌then◌else◌,
}
use fire_ai.Prelude.Num.{Num}
use fire_ai.Types.{NotifyKind, probe_limit_high, probe_limit_low, Notify, Control}
use fire_ai.Settings.{Units, celsius, fahrenheit}
use fire_ai.Commands.{same_kind, update_first}
use fire_ai.Legacy.{
  Parser, Reply, refused, raised, Store, says, is_float, float_of, write_control, accept,
}

-- `None` for 'notify'
abbrev pub limit_of_name : Option String → Option NotifyKind
limit_of_name name =
    if says name "limit_high"
    then some probe_limit_high
    else if says name "limit_low"
    then some probe_limit_low
    else none

abbrev pub of_limit : Option NotifyKind → NotifyKind → Bool
of_limit none kind = true
of_limit (some limit) kind = same_kind kind limit

module _ {N : Type 0} where
  -- The keys of an entry that are switched.
  unfoldable pub entry_key : Option String → Option (Bool → Notify N → Notify N)
  entry_key name =
      if says name "req"
      then some (λ b e. record e { req = b })
      else if says name "shutdown"
      then some (λ b e. record e { shutdown = b })
      else if says name "keep_warm"
      then some (λ b e. record e { keep_warm = b })
      else if says name "reignite"
      then some (λ b e. record e { reignite = some b })
      else none

  -- The first entry with the label, and of the limit's type, changed.
  unfoldable pub change_entry :
      String → Option NotifyKind → (Notify N → Notify N) → Control N → Option (List (Notify N))
  unfolding update_first
  change_entry label limit change c =
      update_first (λ e. str_eq e.label label && of_limit limit e.kind) change c.notify_data

  abbrev pub with_entries : Option (List (Notify N)) → Control N → Control N
  with_entries none c = c
  with_entries (some entries) c = record c { notify_data = entries }

module _ {N : Type 0} ⦃o : Num N⦄ where
  -- A target's value: in Celsius it is the grill's set point that is set.
  unfoldable pub target_in : Units → String → Option NotifyKind → N → Store N → Reply N × Store N
  unfolding change_entry write_control
  target_in fahrenheit label limit x s =
      accept false
        (with_entries (change_entry label limit (λ e. record e { target = o.trunc x }) s.general)
          s.general)
        s
  target_in celsius label limit x s = accept false (record s.general { primary_setpoint = x }) s

  module _ (p : Parser N) where
    -- 'target'
    unfoldable pub set_target :
        String → Option NotifyKind → Option String → Store N → Reply N × Store N
    unfolding target_in write_control
    set_target label limit value s =
        if is_float p value
        then elim (float_of p value) [
          | none ↦ (raised, s)
          | some x ↦ target_in s.settings.units label limit x s
        ]
        else (refused, write_control false s.general s)

    -- An entry that was found: the structure is queued, also after an error.
    unfoldable pub set_found :
        String → Option NotifyKind → Option String → Option String → Store N → Reply N × Store N
    unfolding entry_key change_entry set_target write_control
    set_found label limit key value s = elim (entry_key key) [
      | some change ↦
          accept false
            (with_entries (change_entry label limit (change (says value "true")) s.general)
              s.general)
            s
      | none ↦
          if says key "target" && not (str_eq label "Timer" || str_eq label "Hopper")
          then set_target label limit value s
          else (refused, write_control false s.general s)
    ]

    unfoldable pub set_notify :
        Option String → Option String → Option String → Option String → Store N → Reply N × Store N
    unfolding change_entry set_found
    set_notify kind none key value s = (refused, s)
    set_notify kind (some label) key value s =
        elim (change_entry label (limit_of_name kind) (λ e. e) s.general) [
          | none ↦ (refused, s)
          | some entries ↦ set_found label (limit_of_name kind) key value s
        ]
