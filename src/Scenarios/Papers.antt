-- ===== src/Scenarios/Papers.antt =====
-- The theorems on settings documents at concrete data.
use text.Mathlib.Text.{◌==◌ as str_eq}
use fire_ai.Prelude.{ℕ, ◌≡◌, refl, String, Bool, false, ◌||◌}
use fire_ai.Prelude.Num.{nat_num}
use fire_ai.Documents.{
  num, str, arr, obj, nil, cons, Fields, end, field, redact, get, has_auth, apply_patch,
}
use fire_ai.Documents.Redaction.{HaveClean, redact-IsClean}
use fire_ai.Documents.Patches.{Stays, apply_patch-Stays}

abbrev is_token : String → Bool
is_token k = str_eq k "token" || str_eq k "password"

abbrev document : Fields ℕ
document = field "influxdb" (obj (field "url" (str "http") (field "token" (str "t0") end))) (
    field "devices" (arr (cons (obj (field "password" (num 7) end)) nil))
      (field "server" (obj (field "auth" (obj (field "password_hash" (str "h") end)) end)) end))

redact-IsClean_example :
    HaveClean is_token (redact is_token document)
    × has_auth (get "server" (redact is_token document)) ≡ false
redact-IsClean_example = redact-IsClean is_token document

abbrev patch : Fields ℕ
patch =
    field "influxdb" (obj (field "url" (str "new") (field "token" (str "***") end)))
      (field "units" (str "C") end)

apply_patch-Stays_example : Stays (apply_patch false document patch)
apply_patch-Stays_example =
    apply_patch-Stays false document patch ((refl, (refl, tt)), (tt, (((refl, tt), tt), tt)))
