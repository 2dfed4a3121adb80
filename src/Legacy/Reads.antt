-- ===== src/Legacy/Reads.antt =====
-- The commands 'get' of `process_command`.
use fire_ai.Prelude.{String, Bool, true, Option, none, some, List, [], ◌∷◌, if◌then◌else◌}
use fire_ai.Types.{Notify, Control}
use fire_ai.Commands.{is_timer}
use fire_ai.Legacy.{
  Temps, Site, got_temp, got_current, got_mode, got_uuid, got_versions, got_hopper, got_timer,
  got_notify, got_status, Reply, accepted, refused, raised, Store, arg, says, write_control,
}

module _ {N : Type 0} where
  unfoldable pub temp_of : Option String → List (String × N) → Option N
  temp_of label [] = none
  temp_of label ((l, t) ∷ rest) =
      let later = temp_of label rest in if says label l then some t else later

  -- The first of the three groups that has the label.
  unfoldable pub find_temp : Option String → Temps N → Option N
  unfolding temp_of
  find_temp label t = elim (temp_of label t.p) [
    | some x ↦ some x
    | none ↦ elim (temp_of label t.f) [ some x ↦ some x | none ↦ temp_of label t.aux ]
  ]

  -- The entry that `update_timer` changes.
  unfoldable pub timer_entry : List (Notify N) → Option (Notify N)
  timer_entry [] = none
  timer_entry (e ∷ []) = some e
  timer_entry (e ∷ e' ∷ es) =
      let rest = timer_entry (e' ∷ es) in if is_timer e.kind then some e else rest

  unfoldable pub get_timer : Control N → Reply N
  unfolding timer_entry
  get_timer c = elim (timer_entry c.notify_data) [
    | none ↦ raised
    | some e ↦ accepted (got_timer c.timer.start c.timer.paused c.timer.end e.shutdown e.keep_warm)
  ]

  unfoldable pub get_status : Site N → Store N → Reply N
  get_status site s = accepted (
      got_status (record {
        mode = s.general.mode;
        status = s.general.status;
        s_plus = s.general.s_plus;
        units = s.settings.units;
        name = site.grill_name;
        document = site.status;
        ui_hash = site.ui_hash;
      }))

  -- The commands that only read.
  unfoldable pub get_data : Site N → List String → Store N → Reply N
  unfolding find_temp get_timer get_status
  get_data site args s =
      let a0 = arg args 0 in
      let label = arg args 1 in
      if says a0 "temp"
      then elim (find_temp label site.temps) [ none ↦ refused | some t ↦ accepted (got_temp t) ]
      else if says a0 "current"
      then accepted (got_current site.temps)
      else if says a0 "mode"
      then accepted (got_mode s.general.mode)
      else if says a0 "uuid"
      then accepted (got_uuid site.uuid)
      else if says a0 "versions"
      then accepted (got_versions site.version site.build)
      else if says a0 "timer"
      then get_timer s.general
      else if says a0 "notify"
      then accepted (got_notify s.general.notify_data)
      else if says a0 "status"
      then get_status site s
      else refused

  -- 'get/hopper' asks the control process for a reading, and returns the level it finds.
  unfoldable pub get : Site N → Bool → List String → Store N → Reply N × Store N
  unfolding get_data write_control
  get site direct args s =
      if says (arg args 0) "hopper"
      then (
        accepted (got_hopper site.hopper_level),
        write_control direct (record s.general { hopper_check = true }) s,
      )
      else (get_data site args s, s)
