-- ===== src/Legacy/WritesHeld.antt =====
-- How the commands of Legacy.Writes and Legacy.Entries end (`process_command` of common/common.py).
use mathlib.Core.List.{append_assoc}
use text.Mathlib.Text.{◌==◌ as str_eq}
use fire_ai.Prelude.{
  String, ◌≡◌, refl, Bool, true, false, not, ◌&&◌, ◌||◌, Option, none, some, List, [], ◌∷◌, ◌++◌,
  ap, ◌∙◌, if◌then◌else◌,
}
use fire_ai.Prelude.Num.{Num, ◌<?◌, ◌≤?◌, #}
use fire_ai.Types.{NotifyKind, Notify, Control}
use fire_ai.Settings.{Units, celsius, fahrenheit}
use fire_ai.Legacy.{Parser, refused, raised, Store, says, is_float, float_of, write_control, accept}
use fire_ai.Legacy.Held.{
  Keeps, state_of, IsKept, IsHeld, if-IsHeld, elim-IsHeld, write-IsKept, accept-IsHeld, same,
  queued-IsHeld,
}
use fire_ai.Legacy.Writes.{
  set_units, set_psp, set_prime, set_mode, set_pmode, set_duty_cycle, plain_mode, units_of,
}
use fire_ai.Legacy.Entries.{
  target_in, set_target, set_found, set_notify, entry_key, change_entry, limit_of_name,
  with_entries,
}
use fire_ai.Legacy.Degrees.{convert_settings_units}

module _ {N : Type 0} where
  with_entries-Keeps : (m : Option (List (Notify N))) (c : Control N) → Keeps c (with_entries m c)
  with_entries-Keeps none c = refl
  with_entries-Keeps (some entries) c = refl

module _ {N : Type 0} ⦃o : Num N⦄ where
  -- Two writes of structures that keep the state.
  twice-IsKept :
      (direct : Bool) (c c' : Control N) (s s' : Store N)
      → Keeps s.general c
      → Keeps s.general c'
      → s'.general ≡ s.general
      → s'.queue ≡ s.queue
      → IsKept s (write_control direct c' (write_control direct c s'))
  unfolding write_control
  twice-IsKept true c c' s s' k k' g q = write-IsKept true c' s s' k' g q
  twice-IsKept false c c' s s' k k' g q = record {
    stored = ap state_of g;
    writes = c ∷ c' ∷ [];
    queued =
        ap (λ (cs : List (Control N)). (cs ++ c ∷ []) ++ c' ∷ []) q
        ∙ append_assoc s.queue (c ∷ []) (c' ∷ []);
    kept = (k, (k', tt));
  }

  pub set_units-IsHeld :
      (direct : Bool) (name : Option String) (s : Store N) → IsHeld s (set_units direct name s)
  unfolding set_units
  set_units-IsHeld direct name s =
      elim-IsHeld s (units_of name) _
        (λ u.
          let first = record s.general { settings_update = true } in
          accept direct (record first { updated = true; units_change = true })
            (write_control direct first
              (record s { settings = convert_settings_units u s.settings })))
        (same refused s)
        (λ u. record { held = tt; kept = twice-IsKept direct _ _ s _ refl refl refl refl })

  target_in-IsHeld :
      (u : Units) (label : String) (limit : Option NotifyKind) (x : N) (s : Store N)
      → IsHeld s (target_in u label limit x s)
  unfolding target_in
  target_in-IsHeld fahrenheit label limit x s =
      accept-IsHeld false _ s (with_entries-Keeps _ s.general)
  target_in-IsHeld celsius label limit x s = accept-IsHeld false _ s refl

module _ {N : Type 0} ⦃o : Num N⦄ (p : Parser N) where
  pub set_psp-IsHeld :
      (direct : Bool) (temp : Option String) (s : Store N) → IsHeld s (set_psp p direct temp s)
  unfolding set_psp
  set_psp-IsHeld direct temp s =
      if-IsHeld s (is_float p temp) _ _
        (elim-IsHeld s (float_of p temp) _ _ (same raised s) (λ x. accept-IsHeld direct _ s refl))
        (same refused s)

  set_prime-IsHeld :
      (direct : Bool) (amount next : Option String) (s : Store N)
      → IsHeld s (set_prime p direct amount next s)
  unfolding set_prime
  set_prime-IsHeld direct none next s = same refused s
  set_prime-IsHeld direct (some amount) next s =
      if-IsHeld s (p.isdigit amount) _ _
        (elim-IsHeld s (p.to_int amount) _ _ (same refused s) (λ n. accept-IsHeld direct _ s refl))
        (same refused s)

  pub set_mode-IsHeld :
      (direct : Bool) (name value next : Option String) (s : Store N)
      → IsHeld s (set_mode p direct name value next s)
  unfolding set_mode
  set_mode-IsHeld direct name value next s =
      elim-IsHeld s (plain_mode name) _ _
        (if-IsHeld s (says name "prime") _ _ (set_prime-IsHeld direct value next s)
          (if-IsHeld s (says name "hold") _ _ (set_psp-IsHeld direct value s) (same refused s)))
        (λ m. accept-IsHeld direct _ s refl)

  pub set_pmode-IsHeld : (value : Option String) (s : Store N) → IsHeld s (set_pmode p value s)
  unfolding set_pmode
  set_pmode-IsHeld none s = same refused s
  set_pmode-IsHeld (some value) s =
      if-IsHeld s (p.isdigit value) _ _
        (elim-IsHeld s (p.to_int value) _ _ (same raised s) (λ n.
          if-IsHeld s ((# 0 ≤? n) && (n <? # 10)) _ _
            (record { held = tt; kept = write-IsKept false _ s _ refl refl refl })
            (same refused s)))
        (same refused s)

  pub set_duty_cycle-IsHeld :
      (value : Option String) (s : Store N) → IsHeld s (set_duty_cycle p value s)
  unfolding set_duty_cycle
  set_duty_cycle-IsHeld none s = same refused s
  set_duty_cycle-IsHeld (some value) s =
      if-IsHeld s (p.isnumeric value) _ _
        (elim-IsHeld s (p.to_int value) _ _ (same raised s) (λ d.
          if-IsHeld s ((# 0 ≤? d) && (d ≤? # 100)) _ _ (accept-IsHeld false _ s refl)
            (same refused s)))
        (same refused s)

  set_target-IsHeld :
      (label : String) (limit : Option NotifyKind) (value : Option String) (s : Store N)
      → IsHeld s (set_target p label limit value s)
  unfolding set_target
  set_target-IsHeld label limit value s =
      if-IsHeld s (is_float p value) _ _
        (elim-IsHeld s (float_of p value) _ _ (same raised s)
          (λ x. target_in-IsHeld s.settings.units label limit x s))
        (queued-IsHeld s)

  set_found-IsHeld :
      (label : String) (limit : Option NotifyKind) (key value : Option String) (s : Store N)
      → IsHeld s (set_found p label limit key value s)
  unfolding set_found
  set_found-IsHeld label limit key value s =
      elim-IsHeld s (entry_key {N = N} key)
        (if says key "target" && not (str_eq label "Timer" || str_eq label "Hopper")
          then set_target p label limit value s
          else (refused, write_control false s.general s))
        (λ (change : Bool → Notify N → Notify N).
          accept false
            (with_entries (change_entry label limit (change (says value "true")) s.general)
              s.general)
            s)
        (if-IsHeld s (says key "target" && not (str_eq label "Timer" || str_eq label "Hopper"))
          (set_target p label limit value s) (refused, write_control false s.general s)
          (set_target-IsHeld label limit value s) (queued-IsHeld s))
        (λ change. accept-IsHeld false _ s (with_entries-Keeps _ s.general))

  pub set_notify-IsHeld :
      (kind label key value : Option String) (s : Store N)
      → IsHeld s (set_notify p kind label key value s)
  unfolding set_notify
  set_notify-IsHeld kind none key value s = same refused s
  set_notify-IsHeld kind (some label) key value s =
      elim-IsHeld s (change_entry label (limit_of_name kind) (λ e. e) s.general) _ _
        (same refused s) (λ entries. set_found-IsHeld label (limit_of_name kind) key value s)
