-- ===== src/Control/Retries.antt =====
-- The attempts to ignite again of a work cycle (control.py): each is counted, and none is made
-- that the retries do not allow.
use fire_ai.Prelude.{ℕ, ◌+◌, ◌≡◌, refl, ◌∙◌, List, [], ◌∷◌, arith}
use fire_ai.Prelude.Num.{Num}
use fire_ai.Types.{Control}
use fire_ai.GrillPlatform.{GrillPlatform}
use fire_ai.ControlWrites.{Assign, Patch, assign, deep_update, merge_writes}
use fire_ai.Notify.Turns.{reignitions}
use fire_ai.Control.{Cycle}
use fire_ai.Control.Keeps.{Keeps}

-- The control structure in hand and the one in Redis have the same retries left, and these with
-- the attempts told of make the number given.
pub record IsCounted {N K : Type 0} (n : ℕ) (s : Cycle N K) : Type 0 where
  pub stored : s.stored.safety.reigniteretries ≡ s.control.safety.reigniteretries
  pub total : reignitions s.sent + s.control.safety.reigniteretries ≡ n

module _ {N : Type 0} where
  assign-safety : (c : Control N) (a : Assign N) → (assign c a).safety ≡ c.safety
  unfolding assign
  assign-safety c a = ground arith

  deep_update-safety : (c : Control N) (p : Patch N) → (deep_update c p).safety ≡ c.safety
  unfolding deep_update
  deep_update-safety c [] = refl
  deep_update-safety c (a ∷ p) = deep_update-safety (assign c a) p ∙ assign-safety c a

  -- No write of another process touches the safety entry.
  pub merge_writes-safety :
      (c : Control N) (ps : List (Patch N)) → (merge_writes c ps).safety ≡ c.safety
  unfolding merge_writes
  merge_writes-safety c [] = refl
  merge_writes-safety c (p ∷ ps) = merge_writes-safety (deep_update c p) ps ∙ deep_update-safety c p
