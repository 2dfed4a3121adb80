-- ===== src/Commands/Merged.antt =====
-- What the control process sees of a command of core/commands.py: the handlers' writes after the
-- merge of `execute_control_writes` (common/common.py).
use fire_ai.Prelude.{
  ◌≡◌, refl, sym, ap, subst, Bool, true, false, Option, none, some, List, [], ◌∷◌, ◌++◌,
  if◌then◌else◌, arith,
}
use fire_ai.Prelude.Num.{Num}
use fire_ai.Types.{
  Mode, stop, startup, reignite, smoke, hold, shutdown, monitor, manual, prime, recipe, Control,
}
use fire_ai.ControlWrites.{
  Patch, Redis, deep_update, assign, write_queued, merge_writes, execute_control_writes,
}
use fire_ai.Commands.{
  Command, mode_startup, mode_smoke, mode_shutdown, mode_stop, mode_monitor, mode_manual,
  mode_reignite, mode_hold, setpoint, mode_prime, recipe_start, invalid_arguments, ok, error,
  Answer, raise, patch, Host, World, is_valid,
}
use fire_ai.Commands.Handlers.{handler, hold_at, start_recipe, answer, patch_control, execute}

-- The mode that a command asks for.
abbrev pub requested_mode : {N : Type 0} → Command N → Option Mode
requested_mode mode_startup = some startup
requested_mode mode_smoke = some smoke
requested_mode mode_shutdown = some shutdown
requested_mode mode_stop = some stop
requested_mode mode_monitor = some monitor
requested_mode mode_manual = some manual
requested_mode mode_reignite = some reignite
requested_mode (mode_hold sp) = some hold
requested_mode (setpoint sp) = some hold
requested_mode (mode_prime amount next) = some prime
requested_mode (recipe_start filename step) = some recipe
requested_mode _ = none

module _ {N : Type 0} where
  pub merge_writes-++ :
      (c : Control N) (ps qs : List (Patch N))
      → merge_writes c (ps ++ qs) ≡ merge_writes (merge_writes c ps) qs
  unfolding merge_writes
  merge_writes-++ c [] qs = refl
  merge_writes-++ c (p ∷ ps) qs = merge_writes-++ (deep_update c p) ps qs

  abbrev drained : Control N → Redis N
  drained c = record { general = c; queue = [] }

  -- A patch that is queued reaches the control structure after all that waited before it.
  pub merged-write_queued :
      (p : Patch N) (r : Redis N)
      → execute_control_writes (write_queued p r)
        ≡ record { general = deep_update (merge_writes r.general r.queue) p; queue = [] }
  unfolding execute_control_writes write_queued merge_writes
  merged-write_queued p r = ap drained (merge_writes-++ r.general r.queue (p ∷ []))

  -- A command's queued write, and the merge by the control process.
  abbrev pub merged : World N → World N
  merged w = record w { redis = execute_control_writes w.redis }

  abbrev IsRequested : Mode → Redis N → Type 0
  IsRequested m r = (r.general.mode ≡ m) × (r.general.updated ≡ true) × (r.queue ≡ [])

  -- What the patch of an answer sets in any control structure.
  abbrev Sets : Mode → Answer N → Type 0
  Sets m (raise code) = Unit
  Sets m (patch s p) =
      (c : Control N) → ((deep_update c p).mode ≡ m) × ((deep_update c p).updated ≡ true)

  answer-IsRequested :
      (valid : Bool) (m : Mode) (a : Answer N) (w : World N)
      → Sets m a
      → let after = if valid then answer false a w else (error invalid_arguments, w) in
        after.0 ≡ ok → IsRequested m (merged after.1).redis
  unfolding answer patch_control
  answer-IsRequested false m a w sets h = cc
  answer-IsRequested true m (raise code) w sets h = cc
  answer-IsRequested true m (patch s p) w sets h =
      let c = merge_writes w.redis.general w.redis.queue in
      subst (IsRequested m) (sym (merged-write_queued p w.redis)) ((sets c).0, (sets c).1, refl)

module _ {N : Type 0} ⦃o : Num N⦄ where
  handler-Sets :
      (h : Host N) (cmd : Command N) (w : World N) (m : Mode)
      → requested_mode cmd ≡ some m
      → Sets m (handler h cmd w)
  unfolding handler hold_at start_recipe deep_update assign
  handler-Sets h cmd w m e = ground arith

  -- Whatever writes waited in the queue, once the control process has merged the write of an
  -- accepted command that asks for a mode, the control structure has that mode and announces it,
  -- and the queue is empty.
  pub execute-requested_mode :
      (h : Host N) (cmd : Command N) (w : World N) (m : Mode)
      → requested_mode cmd ≡ some m
      → (execute h false cmd w).0 ≡ ok
      → let r = (merged (execute h false cmd w).1).redis in
        (r.general.mode ≡ m) × (r.general.updated ≡ true) × (r.queue ≡ [])
  unfolding execute
  execute-requested_mode h cmd w m e =
      answer-IsRequested (is_valid h cmd) m (handler h cmd w) w (handler-Sets h cmd w m e)
