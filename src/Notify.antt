-- ===== src/Notify.antt =====
-- `check_notify` and `_check_condition` of notify/notifications.py. The forwarding to MQTT,
-- InfluxDB and WLED sends and changes nothing that the control process reads. Readings are there
-- for every probe that has an entry. `none` is the `KeyError` of a probe that the recipe lacks.
pub mod Turns
pub mod Passes
use text.Mathlib.Text.{◌==◌ as str_eq}
use fire_ai.Prelude.{
  String, Bool, true, false, not, ◌&&◌, Option, none, some, List, [], ◌∷◌, ◌++◌, if◌then◌else◌,
  and_then,
}
use fire_ai.Prelude.Num.{Num, ◌<?◌, ◌≤?◌, ◌=?◌, ◌-!◌, ◌*!◌, #}
use fire_ai.Types.{
  Mode, startup, reignite, smoke, hold, shutdown, stop, recipe, NotifyKind, probe, probe_limit_high,
  probe_limit_low, timer, hopper, test, Condition, equal, above, below, equal_above, equal_below,
  Notify, Control,
}
use fire_ai.Settings.{Settings}

-- The events that `send_notifications` is called with.
pub data Event : Type 0 where
  probe_temp_achieved probe_temp_limit_alarm timer_expired pellet_level_low : Event
  test_notify grill_error_01 grill_error_02 grill_error_03 recipe_step_message : Event

-- What a call is given beside the settings and the control structure: the readings of `in_data`
-- by label, the hopper level, the clock, and the estimates of `_estimate_eta` if they are due.
pub record Readings (N : Type 0) : Type 0 where
  pub in_data : Option (String → N)
  pub hopper_level : N
  pub time : N
  pub update_eta : Bool
  pub estimate_eta : String → Option N

-- An entry after its turn, the control structure, the events sent, and whether the loop body
-- reached its `write_control`.
pub record Turn (N : Type 0) : Type 0 where
  pub item : Notify N
  pub control : Control N
  pub sent : List Event
  pub written : Bool

abbrev pub is_true : Option Bool → Bool
is_true (some true) = true
is_true _ = false

abbrev pub is_limit : NotifyKind → Bool
is_limit probe_limit_high = true
is_limit probe_limit_low = true
is_limit _ = false

abbrev pub is_probe : NotifyKind → Bool
is_probe probe = true
is_probe _ = false

-- the modes ('Smoke', 'Hold')
abbrev pub burning : Mode → Bool
burning smoke = true
burning hold = true
burning _ = false

-- the modes ('Reignite', 'Startup', 'Smoke', 'Hold')
abbrev pub cooking : Mode → Bool
cooking reignite = true
cooking startup = true
cooking smoke = true
cooking hold = true
cooking _ = false

abbrev pub is_recipe : Mode → Bool
is_recipe recipe = true
is_recipe _ = false

abbrev pub is_stop : Mode → Bool
is_stop stop = true
is_stop _ = false

module _ {N : Type 0} ⦃o : Num N⦄ where
  unfoldable pub check_condition : Condition → N → N → Bool
  check_condition equal current target = current =? target
  check_condition above current target = target <? current
  check_condition below current target = current <? target
  check_condition equal_above current target = target ≤? current
  check_condition equal_below current target = current ≤? target

  -- `trigger_temps[label]`
  unfoldable pub trigger_temp : String → List (String × N) → Option N
  trigger_temp label [] = none
  trigger_temp label ((l, v) ∷ rest) = if str_eq l label then some v else trigger_temp label rest

  abbrev trigger_step : Control N → Control N
  trigger_step c = record c {
    recipe = record c.recipe { step_data = record c.recipe.step_data { triggered = true } };
  }

  -- The recipe's part of a probe that reached its target.
  unfoldable pub recipe_probe : String → Control N → Option (Control N)
  unfolding trigger_temp
  recipe_probe label c =
      if is_recipe c.mode
      then elim (trigger_temp label c.recipe.step_data.trigger_temps) [
        | none ↦ none
        | some t ↦ some (if # 0 <? t then trigger_step c else c)
      ]
      else some c

  abbrev pub turn : Notify N → Control N → List Event → Turn N
  turn item c sent = record { item = item; control = c; sent = sent; written = true }

  -- The branch of the probe entries, from the update of the estimate on.
  unfoldable pub check_probe : Readings N → (String → N) → Notify N → Control N → Option (Turn N)
  unfolding check_condition recipe_probe
  check_probe r temps entry c =
      let item =
        if is_probe entry.kind && r.update_eta
        then record entry { eta = r.estimate_eta entry.label }
        else entry in
      if check_condition item.condition (temps item.label) item.target
      then (if is_probe item.kind
          then elim (recipe_probe item.label c) [
            | none ↦ none
            | some c' ↦ some (
                turn (record item { req = false; target = # 0; eta = none }) c'
                  (probe_temp_achieved ∷ []))
          ]
          else if not (is_true item.triggered)
          then some (turn (record item { triggered = some true }) c (probe_temp_limit_alarm ∷ []))
          else some (turn item c []))
      else if is_limit item.kind && is_true item.triggered
      then some (turn (record item { triggered = some false }) c [])
      else some (turn item c [])

  unfoldable pub check_timer : Readings N → Notify N → Control N → Turn N
  check_timer r item c =
      if c.timer.end ≤? r.time
      then (let c' =
            if is_recipe c.mode && (# 0 <? c.recipe.step_data.timer) then trigger_step c else c in
          turn (record item { req = false })
            (record c' { timer = record c.timer { start = # 0; paused = # 0; end = # 0 } })
            (timer_expired ∷ []))
      else turn item c []

  -- In Stop mode the loop goes on to the next entry at once.
  unfoldable pub check_hopper : Settings N → Readings N → Notify N → Control N → Turn N
  check_hopper s r item c =
      if is_stop c.mode
      then record { item = item; control = c; sent = []; written = false }
      else if ((s.pelletlevel.warning_time *! # 60) <? (r.time -! item.last_check))
          && (r.hopper_level ≤? s.pelletlevel.warning_level)
      then turn (record item { last_check = r.time }) c (pellet_level_low ∷ [])
      else turn item c []

  -- The branch of an entry's type, for an entry that is requested.
  unfoldable pub check_kind :
      NotifyKind → Settings N → Readings N → Notify N → Control N → Option (Turn N)
  unfolding check_probe check_timer check_hopper
  check_kind timer s r item c = some (check_timer r item c)
  check_kind hopper s r item c = some (check_hopper s r item c)
  check_kind test s r item c =
      some (turn (record item { last_check = r.time; req = false }) c (test_notify ∷ []))
  check_kind _ s r item c = elim r.in_data [
    | none ↦ some (turn item c [])
    | some temps ↦ check_probe r temps item c
  ]

  -- 'Do Shutdown or Keep Warm if Requested'
  unfoldable pub do_actions : Settings N → Turn N → Turn N
  do_actions s t =
      if item.shutdown && cooking control.mode && not item.req
      then record t {
        item = record item { shutdown = false };
        control = record control { mode = shutdown; updated = true };
      }
      else if item.keep_warm && burning control.mode && not item.req
      then record t {
        item = record item { keep_warm = false };
        control = record control {
          mode = hold;
          primary_setpoint = s.keep_warm.temp;
          s_plus = s.keep_warm.s_plus;
          updated = true;
        };
      }
      else if is_true item.reignite && is_true item.triggered && burning control.mode
      then record t {
        control = record control {
          safety = record control.safety { reignitelaststate = control.mode };
          mode = reignite;
          updated = true;
        };
      }
      else t
    where
      open t use {item, control}

  -- The actions, unless the turn ended early.
  unfoldable pub finish_turn : Settings N → Option (Turn N) → Option (Turn N)
  unfolding do_actions
  finish_turn s none = none
  finish_turn s (some t) = some (if t.written then do_actions s t else t)

  -- The loop's body.
  unfoldable pub check_item : Settings N → Readings N → Notify N → Control N → Option (Turn N)
  unfolding check_kind finish_turn
  check_item s r item c =
      finish_turn s (if item.req then check_kind item.kind s r item c else some (turn item c []))

-- The control structure in hand, the one in Redis, and the events sent.
pub record Notified (N : Type 0) : Type 0 where
  pub control : Control N
  pub stored : Control N
  pub sent : List Event

module _ {N : Type 0} where
  unfoldable pub after_turn : List (Notify N) → List (Notify N) → Turn N → Notified N → Notified N
  after_turn before rest t n =
      let c = record t.control { notify_data = before ++ t.item ∷ rest } in
      record { control = c; stored = if t.written then c else n.stored; sent = n.sent ++ t.sent }

module _ {N : Type 0} ⦃o : Num N⦄ where
  -- The loop over `control['notify_data']`, with the entries that had their turn.
  unfoldable pub check_items :
      Settings N → Readings N → List (Notify N) → List (Notify N) → Notified N → Option (Notified N)
  unfolding after_turn check_item
  check_items s r before [] n = some n
  check_items s r before (item ∷ rest) n =
      and_then (check_item s r item n.control)
        λ t. check_items s r (before ++ t.item ∷ []) rest (after_turn before rest t n)

  unfoldable pub check_notify :
      Settings N → Readings N → Control N → Control N → Option (Notified N)
  unfolding check_items
  check_notify s r c stored =
      check_items s r [] c.notify_data (record { control = c; stored = stored; sent = [] })
