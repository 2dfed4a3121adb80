-- ===== src/Main/DarkCycles.antt =====
-- The auger and the igniter after a cycle, a recipe and a change of the mode (control.py).
use fire_ai.Prelude.{
  ◌≡◌, ℕ, ◌+◌, not, ◌&&◌, length, get_elem?, ltb, String, Bool, true, false, Option, none, some,
  List, [], ◌∷◌, arith, if◌then◌else◌,
}
use fire_ai.Prelude.Num.{Num}
use fire_ai.Types.{Mode, Control, reignite, recipe}
use fire_ai.GrillPlatform.{GrillPlatform}
use fire_ai.Notify.{is_recipe}
use fire_ai.Control.{Controller, Cycle, Flow, on, leave, raise, ◌>>=◌}
use fire_ai.Control.WorkCycle.{running, ended, failed, work_cycle, outcome, clean_up}
use fire_ai.Main.{
  Process, Run, StepRun, RecipeStep, RecipeFile, run_cycle, after_cycle, take_writes, write_control,
}
use fire_ai.Main.RecipeMode.{
  StepEnd, proceed, cancel, inside, broken, recipe_mode, recipe_loop, recipe_step, mapped_step,
  stepped, after_step, reignited, map_temps, finish_recipe, convert_recipe_units, or_raise,
  is_reignite, same_units,
}
use fire_ai.Settings.{Settings, ProbeMap}
use fire_ai.Main.Modes.{next_mode, enter_stop}

-- The auger and the igniter are off.
pub record IsDark {N : Type 0} (g : GrillPlatform N) : Type 0 where
  pub auger : g.auger ≡ false
  pub igniter : g.igniter ≡ false

abbrev pub DarkEnd : {N : Type 0} → Flow (Process N) → Type 0
DarkEnd (on p) = IsDark p.platform
DarkEnd (leave p) = Unit
DarkEnd raise = Unit

module _ {N K : Type 0} ⦃o : Num N⦄ where
  pub clean_up-IsDark : (mode : Mode) (s : Cycle N K) → IsDark (clean_up mode s).platform
  unfolding clean_up
  clean_up-IsDark mode s = ground arith

  pub outcome-IsDark :
      (mode : Mode) (m : Flow (Cycle N K)) (p : Process N)
      → DarkEnd (elim (outcome mode m) [
        | running s ↦ leave (after_cycle s p)
        | ended s ↦ on (after_cycle s p)
        | failed ↦ raise
      ])
  outcome-IsDark mode (on s) p = tt
  outcome-IsDark mode (leave s) p = clean_up-IsDark mode s
  outcome-IsDark mode raise p = tt

  pub run_cycle-IsDark :
      (ctl : Controller N K) (mode : Mode) (r : Run N) (p : Process N)
      → DarkEnd (run_cycle ctl mode r p)
  unfolding run_cycle work_cycle
  run_cycle-IsDark ctl mode r p = outcome-IsDark mode _ p

module _ {N : Type 0} where
  pub >>=-DarkEnd :
      (m : Flow (Process N)) (f : Process N → Flow (Process N))
      → DarkEnd m
      → ((p : Process N) → IsDark p.platform → DarkEnd (f p))
      → DarkEnd (m >>= f)
  >>=-DarkEnd (on p) f h k = k p h
  >>=-DarkEnd (leave p) f h k = tt
  >>=-DarkEnd raise f h k = tt

  pub DarkEnd-on : (m : Flow (Process N)) {p : Process N} → DarkEnd m → m ≡ on p → IsDark p.platform
  DarkEnd-on (on q) h e = ground arith
  DarkEnd-on (leave q) h e = cc
  DarkEnd-on raise h e = cc

  pub if-DarkEnd :
      (b : Bool) (m n : Flow (Process N)) → DarkEnd m → DarkEnd n → DarkEnd (if b then m else n)
  if-DarkEnd true m n h k = h
  if-DarkEnd false m n h k = k

-- The same of a turn over a recipe's steps.
abbrev pub DarkStep : {N : Type 0} → StepEnd N → Type 0
DarkStep (proceed num steps c p) = IsDark p.platform
DarkStep (cancel c p) = IsDark p.platform
DarkStep _ = Unit

module _ {N : Type 0} where
  pub if-DarkStep :
      (b : Bool) (m n : StepEnd N) → DarkStep m → DarkStep n → DarkStep (if b then m else n)
  if-DarkStep true m n h k = h
  if-DarkStep false m n h k = k

  pub or_raise-DarkEnd :
      (m : Option (List (RecipeStep N))) (f : List (RecipeStep N) → Flow (Process N))
      → ((steps : List (RecipeStep N)) → DarkEnd (f steps))
      → DarkEnd (or_raise m f)
  or_raise-DarkEnd none f h = tt
  or_raise-DarkEnd (some steps) f h = h steps

  pub reignited-DarkStep :
      (num : ℕ) (steps : List (RecipeStep N)) (m : Flow (Process N))
      → DarkEnd m
      → DarkStep (reignited num steps m)
  unfolding reignited
  reignited-DarkStep num steps (on p) d =
      if-DarkStep (p.stored.updated && not (is_recipe p.stored.mode)) (cancel p.stored p)
        (proceed num steps p.stored p) d d
  reignited-DarkStep num steps (leave p) d = tt
  reignited-DarkStep num steps raise d = tt

module _ {N : Type 0} ⦃o : Num N⦄ where
  pub next_mode-platform :
      (m : Mode) (x : N) (ws : List _) (p : Process N) → (next_mode m x ws p).platform ≡ p.platform
  unfolding next_mode
  next_mode-platform m x ws p = ground arith

  pub enter_stop-IsDark :
      (file : _) (c : Control N) (p : Process N) → IsDark (enter_stop file c p).platform
  unfolding enter_stop
  enter_stop-IsDark file c p = ground arith

module _ {N K : Type 0} ⦃o : Num N⦄ (ctl : Controller N K) where
  pub after_step-DarkStep :
      (r : StepRun N) (num : ℕ) (steps : List (RecipeStep N)) (p : Process N)
      → IsDark p.platform
      → DarkStep (after_step ctl r num steps p)
  unfolding after_step
  after_step-DarkStep r num steps p d =
      let p' = take_writes r.writes p in
      let c = p'.stored in
      let again =
        run_cycle ctl reignite r.reignite
          (write_control (record c { updated = false; mode = recipe }) p') in
      let other =
        if not (is_recipe c.mode) && c.updated then cancel c p' else proceed (num + 1) steps c p' in
      if-DarkStep (is_reignite c.mode && c.updated) (reignited num steps again) other
        (reignited-DarkStep num steps again (run_cycle-IsDark ctl reignite r.reignite _))
        (if-DarkStep (not (is_recipe c.mode) && c.updated) (cancel c p')
          (proceed (num + 1) steps c p') d d)

  pub stepped-DarkStep :
      (r : StepRun N) (num : ℕ) (steps : List (RecipeStep N)) (m : Flow (Process N))
      → DarkEnd m
      → DarkStep (stepped ctl r num steps m)
  unfolding stepped
  stepped-DarkStep r num steps (on p) d = after_step-DarkStep r num steps p d
  stepped-DarkStep r num steps (leave p) d = tt
  stepped-DarkStep r num steps raise d = tt

  pub mapped-DarkStep :
      (r : StepRun N) (num : ℕ) (step : RecipeStep N) (steps : List (RecipeStep N)) (c : Control N)
      (p : Process N) (temps : Option (List (String × N)))
      → DarkStep (mapped_step ctl r num step steps c p temps)
  unfolding mapped_step
  mapped-DarkStep r num step steps c p none = tt
  mapped-DarkStep r num step steps c p (some temps) =
      stepped-DarkStep r num _ _ (run_cycle-IsDark ctl step.mode r.run _)

  pub recipe_step-DarkStep :
      (m : ProbeMap) (r : StepRun N) (num : ℕ) (step : RecipeStep N) (steps : List (RecipeStep N))
      (c : Control N) (p : Process N)
      → DarkStep (recipe_step ctl m r num step steps c p)
  unfolding recipe_step
  recipe_step-DarkStep m r num step steps c p =
      mapped-DarkStep r num step steps c p (map_temps m step.trigger_temps)

  pub recipe_loop-DarkEnd :
      (m : ProbeMap) (n : ℕ) (rs : List (StepRun N)) (num : ℕ) (steps : List (RecipeStep N))
      (c : Control N) (p : Process N)
      → IsDark p.platform
      → DarkEnd (recipe_loop ctl m n rs num steps c p)
  unfolding recipe_loop finish_recipe
  recipe_loop-DarkEnd m n [] num steps c p d =
      if-DarkEnd (ltb num n) (leave p) (on (finish_recipe num n c p)) tt d
  recipe_loop-DarkEnd m n (r ∷ rs) num steps c p d =
      at_step (get_elem? steps num) (λ step. recipe_step-DarkStep m r num step steps c p)
        λ num' steps' c' p' e. recipe_loop-DarkEnd m n rs num' steps' c' p' e
    where
      turned :
          (e : StepEnd N)
          → DarkStep e
          → ((num' : ℕ) (steps' : List (RecipeStep N)) (c' : Control N) (p' : Process N)
              → IsDark p'.platform
              → DarkEnd (recipe_loop ctl m n rs num' steps' c' p'))
          → DarkEnd (elim e [
            | proceed num' steps' c' p' ↦ recipe_loop ctl m n rs num' steps' c' p'
            | cancel c' p' ↦ on (finish_recipe num n c' p')
            | inside p' ↦ leave p'
            | broken ↦ raise
          ])
      turned (proceed num' steps' c' p') q ih = ih num' steps' c' p' q
      turned (cancel c' p') q ih = q
      turned (inside p') q ih = tt
      turned broken q ih = tt

      at_step :
          (s : Option (RecipeStep N))
          → ((step : RecipeStep N) → DarkStep (recipe_step ctl m r num step steps c p))
          → ((num' : ℕ) (steps' : List (RecipeStep N)) (c' : Control N) (p' : Process N)
              → IsDark p'.platform
              → DarkEnd (recipe_loop ctl m n rs num' steps' c' p'))
          → DarkEnd (elim s [
            | none ↦ on (finish_recipe num n c p)
            | some step ↦ elim (recipe_step ctl m r num step steps c p) [
              | proceed num' steps' c' p' ↦ recipe_loop ctl m n rs num' steps' c' p'
              | cancel c' p' ↦ on (finish_recipe num n c' p')
              | inside p' ↦ leave p'
              | broken ↦ raise
            ]
          ])
      at_step none q ih = d
      at_step (some step) q ih = turned (recipe_step ctl m r num step steps c p) (q step) ih

  pub recipe_mode-DarkEnd :
      (s : Settings N) (f : Option (RecipeFile N)) (rs : List (StepRun N)) (n : ℕ) (p : Process N)
      → IsDark p.platform
      → DarkEnd (recipe_mode ctl s f rs n p)
  unfolding recipe_mode
  recipe_mode-DarkEnd s none rs n p d = d
  recipe_mode-DarkEnd s (some f) rs n p d =
      or_raise-DarkEnd
        (if same_units s.units f.units then some f.steps else convert_recipe_units f.steps) _
        λ steps. recipe_loop-DarkEnd s.recipe_probe_map (length steps) rs n steps p.stored p d
