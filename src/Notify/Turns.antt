-- ===== src/Notify/Turns.antt =====
-- What one entry's turn in `check_notify` (notify/notifications.py) may change.
use fire_ai.Prelude.{
  String, ℕ, suc, ◌≡◌, refl, ◌⊎◌, Bool, true, false, Option, none, some, List, [], ◌∷◌, arith,
  subst, if◌then◌else◌, ◌&&◌, not,
}
use mathlib.Core.Option.{some-injective}
use fire_ai.Prelude.Num.{Num, #}
use fire_ai.Types.{
  Notify, NotifyKind, probe, probe_limit_high, probe_limit_low, timer, hopper, test, Control,
}
use fire_ai.Settings.{Settings}
use fire_ai.Notify.{
  Event, grill_error_03, Readings, Turn, cooking, check_kind, recipe_probe, check_probe,
  check_timer, check_hopper, check_condition, is_true, is_limit, is_probe, probe_temp_achieved,
  probe_temp_limit_alarm, do_actions, finish_turn, check_item, turn,
}

-- How many attempts to ignite again the events tell of.
abbrev pub reignitions : List Event → ℕ
reignitions [] = 0
reignitions (grill_error_03 ∷ es) = suc (reignitions es)
reignitions (_ ∷ es) = reignitions es

pub record TurnKeeps {N : Type 0} (item : Notify N) (c : Control N) (t : Turn N) : Type 0 where
  pub retries : t.control.safety.reigniteretries ≡ c.safety.reigniteretries
  pub startuptemp : t.control.safety.startuptemp ≡ c.safety.startuptemp
  pub quiet : reignitions t.sent ≡ 0
  pub label : t.item.label ≡ item.label
  pub kind : t.item.kind ≡ item.kind
  -- a new mode is announced
  pub mode : (t.control.mode ≡ c.mode) ⊎ ((t.control.updated ≡ true) × (cooking c.mode ≡ true))
  pub updated : c.updated ≡ true → t.control.updated ≡ true
  pub critical_error : t.control.critical_error ≡ c.critical_error

-- What a step that leaves the cook as it is leaves alone.
pub record CookKeeps {N : Type 0} (c c' : Control N) : Type 0 where
  pub safety : c'.safety ≡ c.safety
  pub mode : c'.mode ≡ c.mode
  pub updated : c'.updated ≡ c.updated
  pub critical_error : c'.critical_error ≡ c.critical_error

module _ {N : Type 0} ⦃o : Num N⦄ (s : Settings N) (r : Readings N) where
  recipe_probe-CookKeeps :
      (label : String) (c : Control N) {c' : Control N}
      → recipe_probe label c ≡ some c'
      → CookKeeps c c'
  unfolding recipe_probe
  recipe_probe-CookKeeps label c h = ground arith

  turn-TurnKeeps :
      (item entry : Notify N) (c c' : Control N) (es : List Event)
      → CookKeeps c c'
      → reignitions es ≡ 0
      → entry.label ≡ item.label
      → entry.kind ≡ item.kind
      → TurnKeeps item c (turn entry c' es) × (c'.mode ≡ c.mode)
  turn-TurnKeeps item entry c c' es h q l k = ground arith

  check_hopper-TurnKeeps :
      (item : Notify N) (c : Control N)
      → TurnKeeps item c (check_hopper s r item c)
        × ((check_hopper s r item c).control.mode ≡ c.mode)
  unfolding check_hopper
  check_hopper-TurnKeeps item c = ground arith

  check_timer-TurnKeeps :
      (item : Notify N) (c : Control N)
      → TurnKeeps item c (check_timer r item c) × ((check_timer r item c).control.mode ≡ c.mode)
  unfolding check_timer
  check_timer-TurnKeeps item c = ground arith

  some_turn-TurnKeeps :
      (item entry : Notify N) (c c' : Control N) (es : List Event) {t : Turn N}
      → CookKeeps c c'
      → (reignitions es ≡ 0) × (entry.label ≡ item.label) × (entry.kind ≡ item.kind)
      → some (turn entry c' es) ≡ some t
      → TurnKeeps item c t × (t.control.mode ≡ c.mode)
  some_turn-TurnKeeps item entry c c' es k (q, l, e) h =
      subst (λ (u : Turn N). TurnKeeps item c u × (u.control.mode ≡ c.mode)) (some-injective _ _ h)
        (turn-TurnKeeps item entry c c' es k q l e)

  recipe_or_none-TurnKeeps :
      (item entry : Notify N) (c : Control N) (es : List Event) (m : Option (Control N))
      {t : Turn N}
      → ((c' : Control N) → m ≡ some c' → CookKeeps c c')
      → (reignitions es ≡ 0) × (entry.label ≡ item.label) × (entry.kind ≡ item.kind)
      → elim m [ none ↦ none | some c' ↦ some (turn entry c' es) ] ≡ some t
      → TurnKeeps item c t × (t.control.mode ≡ c.mode)
  recipe_or_none-TurnKeeps item entry c es none k q h = cc
  recipe_or_none-TurnKeeps item entry c es (some c') k q h =
      some_turn-TurnKeeps item entry c c' es (k c' refl) q h

  CookKeeps-refl : (c : Control N) → CookKeeps c c
  CookKeeps-refl c = record { safety = refl; mode = refl; updated = refl; critical_error = refl }

  -- The outcomes of a probe entry by the tests of the branch.
  outcome-TurnKeeps :
      (reached a_probe untold told : Bool) (item : Notify N) (c : Control N)
      (m : Option (Control N)) {t : Turn N}
      → ((c' : Control N) → m ≡ some c' → CookKeeps c c')
      → (if reached
          then (if a_probe
              then elim m [
                | none ↦ none
                | some c' ↦ some (
                    turn
                      (record item { req = false; target = # 0; eta = none })
                      c'
                      (probe_temp_achieved ∷ []))
              ]
              else if untold
              then some
                  (turn (record item { triggered = some true }) c (probe_temp_limit_alarm ∷ []))
              else some (turn item c []))
          else if told
          then some (turn (record item { triggered = some false }) c [])
          else some (turn item c []))
        ≡ some t
      → TurnKeeps item c t × (t.control.mode ≡ c.mode)
  outcome-TurnKeeps true true u w item c m k h =
      recipe_or_none-TurnKeeps item _ c _ m k (refl, refl, refl) h
  outcome-TurnKeeps true false true w item c m k h =
      some_turn-TurnKeeps item _ c c _ (CookKeeps-refl c) (refl, refl, refl) h
  outcome-TurnKeeps true false false w item c m k h =
      some_turn-TurnKeeps item _ c c _ (CookKeeps-refl c) (refl, refl, refl) h
  outcome-TurnKeeps false p u true item c m k h =
      some_turn-TurnKeeps item _ c c _ (CookKeeps-refl c) (refl, refl, refl) h
  outcome-TurnKeeps false p u false item c m k h =
      some_turn-TurnKeeps item _ c c _ (CookKeeps-refl c) (refl, refl, refl) h

  -- The estimate changes neither the label nor the kind.
  eta-TurnKeeps :
      (b : Bool) (e : Option N) (item : Notify N) (c : Control N) {t : Turn N}
      → TurnKeeps (if b then record item { eta = e } else item) c t × (t.control.mode ≡ c.mode)
      → TurnKeeps item c t × (t.control.mode ≡ c.mode)
  eta-TurnKeeps true e item c (k, m) = (
    record {
      retries = k.retries;
      startuptemp = k.startuptemp;
      quiet = k.quiet;
      label = k.label;
      kind = k.kind;
      mode = k.mode;
      updated = k.updated;
      critical_error = k.critical_error;
    },
    m,
  )
  eta-TurnKeeps false e item c k = k

  check_probe-TurnKeeps :
      (temps : String → N) (item : Notify N) (c : Control N) {t : Turn N}
      → check_probe r temps item c ≡ some t
      → TurnKeeps item c t × (t.control.mode ≡ c.mode)
  unfolding check_probe
  check_probe-TurnKeeps temps item c h =
      let estimates = is_probe item.kind && r.update_eta in
      let e = r.estimate_eta item.label in
      let entry = if estimates then record item { eta = e } else item in
      eta-TurnKeeps estimates e item c (
        outcome-TurnKeeps (check_condition entry.condition (temps entry.label) entry.target)
          (is_probe entry.kind) (not (is_true entry.triggered))
          (is_limit entry.kind && is_true entry.triggered) entry c (recipe_probe entry.label c)
          (λ c'. recipe_probe-CookKeeps entry.label c) h)

  readings_or_none-TurnKeeps :
      (m : Option (String → N)) (item : Notify N) (c : Control N) {t : Turn N}
      → elim m [ none ↦ some (turn item c []) | some temps ↦ check_probe r temps item c ] ≡ some t
      → TurnKeeps item c t × (t.control.mode ≡ c.mode)
  readings_or_none-TurnKeeps none item c h = ground arith
  readings_or_none-TurnKeeps (some temps) item c h = check_probe-TurnKeeps temps item c h

  check_kind-TurnKeeps :
      (kind : NotifyKind) (item : Notify N) (c : Control N) {t : Turn N}
      → check_kind kind s r item c ≡ some t
      → TurnKeeps item c t × (t.control.mode ≡ c.mode)
  unfolding check_kind
  check_kind-TurnKeeps timer item c {t} h =
      subst (λ (u : Turn N). TurnKeeps item c u × (u.control.mode ≡ c.mode)) (some-injective _ _ h)
        (check_timer-TurnKeeps item c)
  check_kind-TurnKeeps hopper item c {t} h =
      subst (λ (u : Turn N). TurnKeeps item c u × (u.control.mode ≡ c.mode)) (some-injective _ _ h)
        (check_hopper-TurnKeeps item c)
  check_kind-TurnKeeps test item c h = ground arith
  check_kind-TurnKeeps probe item c h = readings_or_none-TurnKeeps r.in_data item c h
  check_kind-TurnKeeps probe_limit_high item c h = readings_or_none-TurnKeeps r.in_data item c h
  check_kind-TurnKeeps probe_limit_low item c h = readings_or_none-TurnKeeps r.in_data item c h

  do_actions-TurnKeeps :
      (item : Notify N) (c : Control N) (t : Turn N)
      → TurnKeeps item c t × (t.control.mode ≡ c.mode)
      → TurnKeeps item c (if t.written then do_actions s t else t)
  unfolding do_actions
  do_actions-TurnKeeps item c t h = ground arith

  finish_turn-TurnKeeps :
      (item : Notify N) (c : Control N) (m : Option (Turn N)) {t : Turn N}
      → ((u : Turn N) → m ≡ some u → TurnKeeps item c u × (u.control.mode ≡ c.mode))
      → finish_turn s m ≡ some t
      → TurnKeeps item c t
  unfolding finish_turn
  finish_turn-TurnKeeps item c none h e = cc
  finish_turn-TurnKeeps item c (some u) h e =
      subst (TurnKeeps item c) (some-injective _ _ e) (do_actions-TurnKeeps item c u (h u refl))

  kind_or_none-TurnKeeps :
      (item : Notify N) (c : Control N) (b : Bool) {t : Turn N}
      → (if b then check_kind item.kind s r item c else some (turn item c [])) ≡ some t
      → TurnKeeps item c t × (t.control.mode ≡ c.mode)
  kind_or_none-TurnKeeps item c true h = check_kind-TurnKeeps item.kind item c h
  kind_or_none-TurnKeeps item c false {t} h =
      subst (λ (u : Turn N). TurnKeeps item c u × (u.control.mode ≡ c.mode)) (some-injective _ _ h)
        (ground arith)

  pub check_item-TurnKeeps :
      (item : Notify N) (c : Control N) {t : Turn N}
      → check_item s r item c ≡ some t
      → TurnKeeps item c t
  unfolding check_item
  check_item-TurnKeeps item c h =
      finish_turn-TurnKeeps item c _ (λ u. kind_or_none-TurnKeeps item c item.req) h
