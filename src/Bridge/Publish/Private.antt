-- ===== src/Bridge/Publish/Private.antt =====
-- The settings that leave the grill for the cloud (bridge/sync.py).
use text.Mathlib.Text.{◌==◌ as str_eq}
use fire_ai.Prelude.{◌≡◌, String, Bool, Option, none, some}
use fire_ai.Prelude.Num.{Num}
use fire_ai.Documents.{Fields, get}
use fire_ai.Documents.Redaction.{HaveClean}
use fire_ai.Bridge.Publish.{Link, Ended}

-- What the cloud has of the settings tells no secret, and nothing of 'server'.
abbrev pub IsPrivate : {N : Type 0} → (String → Bool) → Option (Fields N) → Type 0
IsPrivate matches none = Unit
IsPrivate matches (some d) = HaveClean matches d × (get "server" d ≡ none)

module _ {N : Type 0} ⦃o : Num N⦄ (matches : String → Bool) where
  abbrev IsPrivateEnd : Ended × Link N → Type 0
  IsPrivateEnd (e, s) = IsPrivate matches s.settings
