-- ===== src/Main/RecipeMode.antt =====
-- `_recipe_mode` of control.py, and `convert_recipe_units` of file_mgmt/recipes.py. The step's
-- dictionary is shared by the recipe and the control structure: what is set in `step_data` is set in
-- the recipe's step as well.
use text.Mathlib.Text.{◌==◌ as str_eq}
use fire_ai.Prelude.{
  ℕ, zero, suc, ◌+◌, String, Bool, true, false, not, ◌&&◌, ◌||◌, Option, none, some, List, [], ◌∷◌,
  length, get_elem?, ltb, leb, if◌then◌else◌,
}
use fire_ai.Prelude.Num.{Num}
use fire_ai.Types.{Mode, stop, reignite, recipe, Control}
use fire_ai.Settings.{Settings, Units, celsius, fahrenheit, ProbeMap}
use fire_ai.Notify.{is_recipe}
use fire_ai.Control.{Controller, Flow, on, leave, raise}
use fire_ai.Main.{
  Process, TriggerTemps, by_role, by_label, RecipeStep, RecipeFile, StepRun, write_control,
  take_writes, run_cycle,
}
use fire_ai.Main.Defaults.{no_step}

abbrev pub is_reignite : Mode → Bool
is_reignite reignite = true
is_reignite _ = false

abbrev pub same_units : Units → Units → Bool
same_units celsius celsius = true
same_units fahrenheit fahrenheit = true
same_units _ _ = false

-- How a turn of the loop over the steps ends: with the number of the next step and the recipe, or
-- with another mode; in the loop of a cycle; or with an exception.
pub data StepEnd (N : Type 0) : Type 0 where
  proceed : ℕ → List (RecipeStep N) → Control N → Process N → StepEnd N
  cancel : Control N → Process N → StepEnd N
  inside : Process N → StepEnd N
  broken : StepEnd N

module _ {N : Type 0} where
  -- `d[label] = value`
  unfoldable pub set_key : String → N → List (String × N) → List (String × N)
  set_key label value [] = (label, value) ∷ []
  set_key label value ((l, v) ∷ rest) =
      let later = set_key label value rest in
      if str_eq l label then (l, value) ∷ rest else (l, v) ∷ later

  -- More temperatures than food probes are an `IndexError`.
  unfoldable pub map_food : List String → List N → List (String × N) → Option (List (String × N))
  unfolding set_key
  map_food labels [] d = some d
  map_food [] (value ∷ values) d = none
  map_food (label ∷ labels) (value ∷ values) d = map_food labels values (set_key label value d)

  -- By labels there is no entry 'primary' and none that is a list: a `KeyError` or a `TypeError`.
  unfoldable pub map_temps : ProbeMap → TriggerTemps N → Option (List (String × N))
  unfolding map_food
  map_temps m (by_role primary food) = map_food m.food food ((m.primary, primary) ∷ [])
  map_temps m (by_label temps) = none

  -- `steps[num] = step`
  unfoldable pub set_elem : List (RecipeStep N) → ℕ → RecipeStep N → List (RecipeStep N)
  set_elem [] i v = []
  set_elem (x ∷ xs) zero v = v ∷ xs
  set_elem (x ∷ xs) (suc i) v = x ∷ set_elem xs i v

  unfoldable pub set_step : ℕ → RecipeStep N → List (String × N) → Control N → Control N
  set_step num step temps c = record c {
    recipe = record c.recipe {
      step = num;
      step_data = record {
        mode = step.mode;
        timer = step.timer;
        trigger_temps = temps;
        hold_temp = step.hold_temp;
        triggered = false;
        pause = step.pause;
        notify = step.notify;
      };
    };
    primary_setpoint = step.hold_temp;
    updated = false;
  }

  -- 4c: after the cycle that ignites again, the same step once more, or another mode.
  unfoldable pub reignited : ℕ → List (RecipeStep N) → Flow (Process N) → StepEnd N
  reignited num steps (on p) =
      if p.stored.updated && not (is_recipe p.stored.mode)
      then cancel p.stored p
      else proceed num steps p.stored p
  reignited num steps (leave p) = inside p
  reignited num steps raise = broken

  -- `convert_recipe_units`: no step has the key 'settemps' that the loop reads.
  unfoldable pub convert_recipe_units : List (RecipeStep N) → Option (List (RecipeStep N))
  convert_recipe_units [] = some []
  convert_recipe_units (step ∷ steps) = none

  abbrev pub or_raise :
      Option (List (RecipeStep N)) → (List (RecipeStep N) → Flow (Process N)) → Flow (Process N)
  or_raise none f = raise
  or_raise (some steps) f = f steps

module _ {N : Type 0} ⦃o : Num N⦄ where
  -- 5: the recipe leaves the control structure; with no other mode requested, or after the last
  -- step, the grill stops.
  unfoldable pub finish_recipe : ℕ → ℕ → Control N → Process N → Process N
  finish_recipe num num_steps c p =
      let cleared = record c {
        recipe = record c.recipe { step = 0; step_data = no_step; filename = "" };
      } in
      write_control
        (if not c.updated || (leb num num_steps && leb num_steps num)
          then record cleared { updated = true; mode = stop }
          else cleared)
        p

module _ {N K : Type 0} ⦃o : Num N⦄ (ctl : Controller N K) where
  -- 4c to 4e.
  unfoldable pub after_step : StepRun N → ℕ → List (RecipeStep N) → Process N → StepEnd N
  after_step r num steps p =
      let p' = take_writes r.writes p in
      let c = p'.stored in
      if is_reignite c.mode && c.updated
      then reignited num steps (
          run_cycle ctl reignite r.reignite
            (write_control (record c { updated = false; mode = recipe }) p'))
      else if not (is_recipe c.mode) && c.updated
      then cancel c p'
      else proceed (num + 1) steps c p'

  unfoldable pub stepped : StepRun N → ℕ → List (RecipeStep N) → Flow (Process N) → StepEnd N
  stepped r num steps (on p) = after_step r num steps p
  stepped r num steps (leave p) = inside p
  stepped r num steps raise = broken

  -- 4a and 4b, with the temperatures by labels.
  unfoldable pub mapped_step :
      StepRun N
      → ℕ
      → RecipeStep N
      → List (RecipeStep N)
      → Control N
      → Process N
      → Option (List (String × N))
      → StepEnd N
  mapped_step r num step steps c p none = broken
  mapped_step r num step steps c p (some temps) =
      stepped r num (set_elem steps num (record step { trigger_temps = by_label temps }))
        (run_cycle ctl step.mode r.run (write_control (set_step num step temps c) p))

  unfoldable pub recipe_step :
      ProbeMap
      → StepRun N
      → ℕ
      → RecipeStep N
      → List (RecipeStep N)
      → Control N
      → Process N
      → StepEnd N
  recipe_step m r num step steps c p =
      mapped_step r num step steps c p (map_temps m step.trigger_temps)

  -- 4: the loop, over what its turns read.
  unfoldable pub recipe_loop :
      ProbeMap
      → ℕ
      → List (StepRun N)
      → ℕ
      → List (RecipeStep N)
      → Control N
      → Process N
      → Flow (Process N)
  recipe_loop m num_steps [] num steps c p =
      if ltb num num_steps then leave p else on (finish_recipe num num_steps c p)
  recipe_loop m num_steps (r ∷ rs) num steps c p = elim (get_elem? steps num) [
    | none ↦ on (finish_recipe num num_steps c p)
    | some step ↦ elim (recipe_step m r num step steps c p) [
      | proceed num' steps' c' p' ↦ recipe_loop m num_steps rs num' steps' c' p'
      | cancel c' p' ↦ on (finish_recipe num num_steps c' p')
      | inside p' ↦ leave p'
      | broken ↦ raise
    ]
  ]

  unfoldable pub recipe_mode :
      Settings N → Option (RecipeFile N) → List (StepRun N) → ℕ → Process N → Flow (Process N)
  recipe_mode settings none runs start_step p = on p
  recipe_mode settings (some file) runs start_step p =
      or_raise
        (if same_units settings.units file.units
          then some file.steps
          else convert_recipe_units file.steps)
        λ steps.
          recipe_loop settings.recipe_probe_map (length steps) runs start_step steps p.stored p
