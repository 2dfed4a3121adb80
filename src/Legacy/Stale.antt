-- ===== src/Legacy/Stale.antt =====
-- The merge of the whole structures that `process_command` queues (`execute_control_writes` of
-- common/common.py).
use fire_ai.Prelude.{String, ◌≡◌, sym, ap, subst, Bool, Option, List, [], ◌∷◌, ◌++◌, All, ◌∙◌}
use fire_ai.Prelude.Num.{Num}
use fire_ai.Types.{Control}
use fire_ai.Legacy.{Parser, Site, Store, merge_whole, merge_all, execute_writes}
use fire_ai.Legacy.Process.{process_command}
use fire_ai.Legacy.Held.{Keeps, state_of}
use fire_ai.Legacy.Refusals.{process_command-IsHeld}

module _ {N : Type 0} where
  merged-Keeps :
      (c g : Control N) (ws : List (Control N))
      → Keeps c g
      → All (Keeps c) ws
      → Keeps c (merge_all g ws)
  unfolding merge_all merge_whole
  merged-Keeps c g [] k ks = k
  merged-Keeps c g (w ∷ ws) k (kw, ks) = merged-Keeps c (merge_whole g w) ws kw ks

  merged-last :
      (c g w : Control N) (ws : List (Control N))
      → All (Keeps c) (w ∷ ws)
      → Keeps c (merge_all g (w ∷ ws))
  unfolding merge_all merge_whole
  merged-last c g w ws (kw, ks) = merged-Keeps c (merge_whole g w) ws kw ks

module _ {N : Type 0} ⦃o : Num N⦄ (p : Parser N) where
  -- Where a command queues anything, on a queue that was empty, the merge gives the control process's
  -- own state back the values that the command had read: the safety temperatures, the attempts to
  -- ignite again, the status, the startup's data, the critical error and the recipe's step. What the
  -- control process wrote between the reading and the merge, `now`, is lost.
  pub merged-overwrites :
      (site : Site N) (action : Option String) (args : List String) (direct : Bool) (s : Store N)
      (now w : Control N) (ws : List (Control N))
      → s.queue ≡ []
      → let s' = (process_command p site action args direct s).1 in
        s'.queue ≡ w ∷ ws
        → state_of (execute_writes (record s' { general = now })).general ≡ state_of s.general
  unfolding execute_writes
  merged-overwrites site action args direct s now w ws e q =
      let h = (process_command-IsHeld p site action args direct s).kept in
      let written = sym (ap (λ (cs : List (Control N)). cs ++ h.writes) e) ∙ sym h.queued ∙ q in
      subst (λ (cs : List (Control N)). Keeps s.general (merge_all now cs)) (sym q)
        (merged-last s.general now w ws
          (subst (λ (cs : List (Control N)). All (Keeps s.general) cs) written h.kept))
