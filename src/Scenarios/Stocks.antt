-- ===== src/Scenarios/Stocks.antt =====
-- The theorems on the pellet database at concrete data.
use Prim.Native.String.{◌++◌ as append}
use fire_ai.Prelude.{ℕ, zero, suc, ◌≤◌, String, ◌≡◌, true, false, none, List, [], ◌∷◌, arith}
use fire_ai.Prelude.Num.{nat_num, nat_order, ◌≤?◌}
use fire_ai.Types.{smoke}
use fire_ai.ControlWrites.{Redis}
use fire_ai.Pellets.{
  PelletStore, ProfileRequest, TextTools, PelletCall, load_profile, upsert_profile, delete_profile,
  use_pellets, default_pellets, pellet_calls,
}
use fire_ai.Pellets.Stock.{IsStocked, pellet_calls-IsStocked}
use fire_ai.Scenarios.{control_in}

abbrev tools : TextTools
tools = record { first = λ n text. text; is_blank = λ text. false; sorted_set = λ texts. texts }

abbrev redis : Redis ℕ
redis = record { general = control_in smoke; queue = [] }

abbrev marked : ℕ → String
marked zero = ""
marked (suc n) = append "+" (marked n)

abbrev apple : ProfileRequest ℕ
apple = record { id = none; brand = "Generic"; wood = "Apple"; rating = 9; comments = "" }

abbrev box : PelletStore ℕ
box = record { db = default_pellets "12:00" ""; redis = redis }

-- Stored and loaded, used, and refused to be deleted.
abbrev calls : List (PelletCall ℕ)
calls =
    upsert_profile "12:05" marked apple true
    ∷ use_pellets 30 2
    ∷ delete_profile "+"
    ∷ delete_profile ""
    ∷ load_profile "12:10" ""
    ∷ []

literals : (a b : ℕ) → a ≤ b → (a ≤? b) ≡ true
literals a b h = ground arith

pellet_calls-IsStocked_example : IsStocked (pellet_calls tools calls box).db
pellet_calls-IsStocked_example =
    pellet_calls-IsStocked nat_order literals tools "12:00" "" calls redis
