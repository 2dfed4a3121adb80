-- ===== src/Main/Recipes.antt =====
-- How `_recipe_mode` of control.py ends.
use fire_ai.Prelude.{
  ◌≡◌, ◌∙◌, refl, ap, subst, ℕ, zero, suc, ◌+◌, ◌≤◌, ◌<◌, ◌⊎◌, inl, inr, String, Bool, true, false,
  not, ◌&&◌, Option, none, some, List, [], ◌∷◌, arith, if◌then◌else◌, length, get_elem?, ltb,
  Bool-cases,
}
use fire_ai.Prelude.Num.{Num}
use fire_ai.Types.{recipe, reignite, Control}
use fire_ai.Settings.{ProbeMap}
use fire_ai.Notify.{is_recipe}
use fire_ai.Control.{Controller, Flow, on, leave, raise, on-injective}
use fire_ai.Main.{Process, RecipeStep, StepRun, by_label, run_cycle, write_control, take_writes}
use fire_ai.Main.RecipeMode.{
  StepEnd, proceed, cancel, inside, broken, is_reignite, set_elem, map_temps, reignited, after_step,
  stepped, mapped_step, recipe_step, finish_recipe, recipe_loop,
}

-- The recipe has let go of the control structure: another mode is announced, and no recipe is set.
pub record IsReleased {N : Type 0} (c : Control N) : Type 0 where
  pub announced : c.updated ≡ true
  pub mode : is_recipe c.mode ≡ false
  pub step : c.recipe.step ≡ 0
  pub filename : c.recipe.filename ≡ ""

-- What a turn over the steps leaves: the same recipe or the next step; or another mode, announced.
abbrev pub StepOk : {N : Type 0} → ℕ → List (RecipeStep N) → StepEnd N → Type 0
StepOk num steps (proceed k steps' c p) = (k ≤ num + 1) × (steps' ≡ steps)
StepOk num steps (cancel c p) = (c.updated ≡ true) × (is_recipe c.mode ≡ false)
StepOk num steps _ = Unit

module _ {N : Type 0} where
  if-StepOk :
      (num : ℕ) (steps : List (RecipeStep N)) (b : Bool) (m n : StepEnd N)
      → (b ≡ true → StepOk num steps m)
      → (b ≡ false → StepOk num steps n)
      → StepOk num steps (if b then m else n)
  if-StepOk num steps true m n h k = h refl
  if-StepOk num steps false m n h k = k refl

  reignited-StepOk :
      (num : ℕ) (steps : List (RecipeStep N)) (m : Flow (Process N))
      → StepOk num steps (reignited num steps m)
  unfolding reignited
  reignited-StepOk num steps (on p) =
      if-StepOk num steps (p.stored.updated && not (is_recipe p.stored.mode)) (cancel p.stored p)
        (proceed num steps p.stored p) (λ e. (ground arith, ground arith))
        (λ e. (omega arith, refl))
  reignited-StepOk num steps (leave p) = tt
  reignited-StepOk num steps raise = tt

  length-set_elem :
      (steps : List (RecipeStep N)) (i : ℕ) (s : RecipeStep N)
      → length (set_elem steps i s) ≡ length steps
  unfolding set_elem
  length-set_elem [] i s = refl
  length-set_elem (x ∷ xs) zero s = refl
  length-set_elem (x ∷ xs) (suc i) s = ap suc (length-set_elem xs i s)

  get_elem?-set_elem :
      (steps : List (RecipeStep N)) (i : ℕ) (s : RecipeStep N) {t : RecipeStep N}
      → get_elem? steps i ≡ some t
      → get_elem? (set_elem steps i s) i ≡ some s
  unfolding set_elem
  get_elem?-set_elem [] i s h = cc
  get_elem?-set_elem (x ∷ xs) zero s h = refl
  get_elem?-set_elem (x ∷ xs) (suc i) s h = get_elem?-set_elem xs i s h

module _ {N K : Type 0} ⦃o : Num N⦄ (ctl : Controller N K) where
  after_step-StepOk :
      (r : StepRun N) (num : ℕ) (steps : List (RecipeStep N)) (p : Process N)
      → StepOk num steps (after_step ctl r num steps p)
  unfolding after_step
  after_step-StepOk r num steps p =
      let p' = take_writes r.writes p in
      let c = p'.stored in
      let again =
        run_cycle ctl reignite r.reignite
          (write_control (record c { updated = false; mode = recipe }) p') in
      let other =
        if not (is_recipe c.mode) && c.updated then cancel c p' else proceed (num + 1) steps c p' in
      if-StepOk num steps (is_reignite c.mode && c.updated) (reignited num steps again) other
        (λ e. reignited-StepOk num steps again)
        (λ e.
          if-StepOk num steps (not (is_recipe c.mode) && c.updated) (cancel c p')
            (proceed (num + 1) steps c p') (λ f. (ground arith, ground arith))
            (λ f. (omega arith, refl)))

  stepped-StepOk :
      (r : StepRun N) (num : ℕ) (steps : List (RecipeStep N)) (m : Flow (Process N))
      → StepOk num steps (stepped ctl r num steps m)
  unfolding stepped
  stepped-StepOk r num steps (on p) = after_step-StepOk r num steps p
  stepped-StepOk r num steps (leave p) = tt
  stepped-StepOk r num steps raise = tt

  -- A step that was set up has its temperatures by labels.
  mapped-StepOk :
      (r : StepRun N) (num : ℕ) (step : RecipeStep N) (steps : List (RecipeStep N)) (c : Control N)
      (p : Process N) (m : Option (List (String × N)))
      → (mapped_step ctl r num step steps c p m ≡ broken)
        ⊎ ((temps : List (String × N)) × StepOk num
              (set_elem steps num (record step { trigger_temps = by_label temps }))
              (mapped_step ctl r num step steps c p m))
  unfolding mapped_step
  mapped-StepOk r num step steps c p none = inl refl
  mapped-StepOk r num step steps c p (some temps) = inr (temps, stepped-StepOk r num _ _)

  recipe_step-StepOk :
      (m : ProbeMap) (r : StepRun N) (num : ℕ) (step : RecipeStep N) (steps : List (RecipeStep N))
      (c : Control N) (p : Process N)
      → (recipe_step ctl m r num step steps c p ≡ broken)
        ⊎ ((temps : List (String × N)) × StepOk num
              (set_elem steps num (record step { trigger_temps = by_label temps }))
              (recipe_step ctl m r num step steps c p))
  unfolding recipe_step
  recipe_step-StepOk m r num step steps c p =
      mapped-StepOk r num step steps c p (map_temps m step.trigger_temps)

  set_up_fails :
      (m : ProbeMap) (n : ℕ) (r : StepRun N) (rs : List (StepRun N)) (num : ℕ) (step : RecipeStep N)
      (steps : List (RecipeStep N)) (c : Control N) (p : Process N)
      → get_elem? steps num ≡ some step
      → map_temps m step.trigger_temps ≡ none
      → recipe_loop ctl m n (r ∷ rs) num steps c p ≡ raise
  unfolding recipe_step recipe_loop mapped_step
  set_up_fails m n r rs num step steps c p at none_left = rw (at, none_left, recipe_loop)

  -- A step that runs again, after the fire went out and was lit, does not get far: the process ends
  -- with an exception as soon as the loop sets the step up once more.
  pub rerun-raises :
      (m : ProbeMap) (n : ℕ) (r again : StepRun N) (rs : List (StepRun N)) (num : ℕ)
      (step : RecipeStep N) (steps : List (RecipeStep N)) (c : Control N) (p : Process N)
      {steps' : List (RecipeStep N)} {c' : Control N} {p' : Process N}
      → get_elem? steps num ≡ some step
      → recipe_step ctl m r num step steps c p ≡ proceed num steps' c' p'
      → recipe_loop ctl m n (again ∷ rs) num steps' c' p' ≡ raise
  unfolding recipe_step map_temps
  rerun-raises m n r again rs num step steps c p {steps'} {c'} {p'} at h =
      elim (recipe_step-StepOk m r num step steps c p) [
        | inl e ↦ cc
        | inr (temps, good) ↦
            let (near, same) = subst (StepOk num _) h good in
            let there =
              ap (λ (l : List (RecipeStep N)). get_elem? l num) same
              ∙ get_elem?-set_elem steps num (record step { trigger_temps = by_label temps }) at in
            set_up_fails m n again rs num _ _ c' p' there refl
      ]

abbrev ReleasedEnd : {N : Type 0} → Flow (Process N) → Type 0
ReleasedEnd (on p) = IsReleased p.stored
ReleasedEnd (leave p) = Unit
ReleasedEnd raise = Unit

get_elem?-none : {A : Type 0} (xs : List A) (i : ℕ) → get_elem? xs i ≡ none → length xs ≤ i
get_elem?-none [] i h = omega arith
get_elem?-none (x ∷ xs) zero h = cc
get_elem?-none (x ∷ xs) (suc i) h = omega (arith, get_elem?-none xs i h)

get_elem?-some :
    {A : Type 0} (xs : List A) (i : ℕ) {x : A} → get_elem? xs i ≡ some x → i < length xs
get_elem?-some [] i h = cc
get_elem?-some (x ∷ xs) zero h = omega arith
get_elem?-some (x ∷ xs) (suc i) h = omega (arith, get_elem?-some xs i h)

module _ {N : Type 0} ⦃o : Num N⦄ where
  -- The recipe is over, or another mode is announced, or none is.
  finish_recipe-IsReleased :
      (num n : ℕ) (c : Control N) (p : Process N)
      → (num ≡ n) ⊎ (((c.updated ≡ true) × (is_recipe c.mode ≡ false)) ⊎ (c.updated ≡ false))
      → IsReleased (finish_recipe num n c p).stored
  unfolding finish_recipe
  finish_recipe-IsReleased num n c p h = ground arith

  last_turn-ReleasedEnd :
      (num n : ℕ) (c : Control N) (p : Process N)
      → num ≤ n
      → ReleasedEnd (if ltb num n then leave p else on (finish_recipe num n c p))
  last_turn-ReleasedEnd num n c p le = elim (Bool-cases (ltb num n)) [
    | inl more ↦ rw more tt
    | inr over ↦ rw over (finish_recipe-IsReleased num n c p (inl (ground arith)))
  ]

module _ {N : Type 0} where
  IsReleased-on :
      (f : Flow (Process N)) {p' : Process N} → ReleasedEnd f → f ≡ on p' → IsReleased p'.stored
  IsReleased-on (on q) h e = subst (λ (u : Process N). IsReleased u.stored) (on-injective e) h
  IsReleased-on (leave q) h e = cc
  IsReleased-on raise h e = cc

module _ {N K : Type 0} ⦃o : Num N⦄ (ctl : Controller N K) (m : ProbeMap) (n : ℕ) where
  recipe_loop-ReleasedEnd :
      (rs : List (StepRun N)) (num : ℕ) (steps : List (RecipeStep N)) (c : Control N)
      (p : Process N)
      → num ≤ n
      → length steps ≡ n
      → ReleasedEnd (recipe_loop ctl m n rs num steps c p)
  unfolding recipe_loop
  recipe_loop-ReleasedEnd [] num steps c p le all = last_turn-ReleasedEnd num n c p le
  recipe_loop-ReleasedEnd (r ∷ rs) num steps c p le all =
      at_step (get_elem? steps num) refl
        λ num' steps' c' p' le' all'. recipe_loop-ReleasedEnd rs num' steps' c' p' le' all'
    where
      turned :
          (e : StepEnd N) (steps0 : List (RecipeStep N))
          → (e ≡ broken) ⊎ StepOk num steps0 e
          → length steps0 ≡ n
          → num + 1 ≤ n
          → ((num' : ℕ) (steps' : List (RecipeStep N)) (c' : Control N) (p' : Process N)
              → num' ≤ n
              → length steps' ≡ n
              → ReleasedEnd (recipe_loop ctl m n rs num' steps' c' p'))
          → ReleasedEnd (elim e [
            | proceed num' steps' c' p' ↦ recipe_loop ctl m n rs num' steps' c' p'
            | cancel c' p' ↦ on (finish_recipe num n c' p')
            | inside p' ↦ leave p'
            | broken ↦ raise
          ])
      turned (proceed num' steps' c' p') steps0 (inl e) k l ih = cc
      turned (proceed num' steps' c' p') steps0 (inr (near, same)) k l ih =
          ih num' steps' c' p' (omega arith) (ap length same ∙ k)
      turned (cancel c' p') steps0 (inl e) k l ih = cc
      turned (cancel c' p') steps0 (inr q) k l ih =
          finish_recipe-IsReleased num n c' p' (inr (inl q))
      turned (inside p') steps0 q k l ih = tt
      turned broken steps0 q k l ih = tt

      at_step :
          (s : Option (RecipeStep N))
          → get_elem? steps num ≡ s
          → ((num' : ℕ) (steps' : List (RecipeStep N)) (c' : Control N) (p' : Process N)
              → num' ≤ n
              → length steps' ≡ n
              → ReleasedEnd (recipe_loop ctl m n rs num' steps' c' p'))
          → ReleasedEnd (elim s [
            | none ↦ on (finish_recipe num n c p)
            | some step ↦ elim (recipe_step ctl m r num step steps c p) [
              | proceed num' steps' c' p' ↦ recipe_loop ctl m n rs num' steps' c' p'
              | cancel c' p' ↦ on (finish_recipe num n c' p')
              | inside p' ↦ leave p'
              | broken ↦ raise
            ]
          ])
      at_step none q ih =
          finish_recipe-IsReleased num n c p (inl (omega (arith, get_elem?-none steps num q)))
      at_step (some step) q ih = elim (recipe_step-StepOk ctl m r num step steps c p) [
        | inl e ↦
            turned (recipe_step ctl m r num step steps c p) steps (inl e) all
              (omega (arith, get_elem?-some steps num q)) ih
        | inr (temps, good) ↦
            turned (recipe_step ctl m r num step steps c p) _ (inr good)
              (length-set_elem steps num (record step { trigger_temps = by_label temps }) ∙ all)
              (omega (arith, get_elem?-some steps num q)) ih
      ]

  -- A recipe that comes to its end, by its last step or by a request for another mode, announces a
  -- mode other than Recipe and takes itself out of the control structure. It may start at any step up
  -- to the end.
  pub recipe_loop-IsReleased :
      (rs : List (StepRun N)) (num : ℕ) (steps : List (RecipeStep N)) (c : Control N)
      (p : Process N) {p' : Process N}
      → num ≤ n
      → length steps ≡ n
      → recipe_loop ctl m n rs num steps c p ≡ on p'
      → IsReleased p'.stored
  recipe_loop-IsReleased rs num steps c p le all e =
      IsReleased-on (recipe_loop ctl m n rs num steps c p)
        (recipe_loop-ReleasedEnd rs num steps c p le all) e
