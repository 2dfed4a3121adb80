-- ===== src/Pellets/Fresh.antt =====
-- The loop of `upsert_pellet_profile` (core/library.py) that looks for a new id.
use text.Mathlib.TextEquality.{eq_iff}
use fire_ai.Prelude.{String, ◌≡◌, sym, ◌∙◌, true, Option, List, [], ◌∷◌, arith}
use fire_ai.Prelude.Num.{Num}
use fire_ai.Pellets.{has_key, pop}

module _ {ℓ} {A : Type ℓ} where
  pub has_key-pop :
      (key other : String) (d : List (String × A))
      → (key ≡ other → ⊥)
      → has_key other d ≡ true
      → has_key other (pop key d) ≡ true
  unfolding has_key pop
  has_key-pop key other [] ne h = cc
  has_key-pop key other ((k, a) ∷ rest) ne h =
      let later = has_key-pop key other rest ne in
      let same = (eq_iff k key).0 in
      let same' = (eq_iff k other).0 in
      let apart = λ (p : k ≡ key) (q : k ≡ other). ne (sym p ∙ q) in ground arith
