-- ===== src/Scenarios/Access.antt =====
-- The theorems on local authentication and on the commands of the cloud at concrete data.
use Prim.Native.String.{◌++◌ as ◌<>◌, count}
use text.Mathlib.Text.{◌==◌ as str_eq}
use fire_ai.Prelude.{ℕ, ◌<◌, ◌≤◌, ◌≡◌, ◌≢◌, ◌⊎◌, refl, String, true, false, none, some, [], ◌∷◌}
use text.Mathlib.TextPositions.{eq_refl}
use fire_ai.Prelude.Num.{nat_num}
use fire_ai.Types.{smoke, hold}
use fire_ai.Commands.{Command, mode_hold, Host, World}
use fire_ai.Commands.Handlers.{execute}
use fire_ai.Commands.Merged.{merged}
use fire_ai.Bridge.{CommandDoc, Bridge, Moment, done, handle_command, is_stale, has_nonce}
use fire_ai.Bridge.Checks.{IsPassed}
use fire_ai.Cloud.{cloud_registry, find_command, handle_command-requested_mode}
use fire_ai.Auth.{
  Principal, Claims, ApiKey, AuthBlock, Crypto, ok, password_is_set, set_password, verify_password,
  create_api_key, delete_api_key, verify_api_key,
}
use fire_ai.Auth.Keys.{has_digest, create-verify_api_key, delete-verify_api_key}
use fire_ai.Auth.Sessions.{set_password_lem}
use fire_ai.Scenarios.{settings, control_in}

abbrev host : Host ℕ
host = record {
  time = 1200;
  fahrenheit = true;
  is_recipe_name = λ name. false;
  exists = λ name. false;
  as_posix = λ name. name;
}

abbrev parse : CommandDoc ℕ → Command ℕ
parse cmd = mode_hold 225

abbrev moment : Moment ℕ
moment = record { now = 1000; control_enabled = true }

abbrev document : String → CommandDoc ℕ
document name = record { pending = true; name = name; created = some 990000; nonce = some "n1" }

abbrev bridge : Bridge ℕ (World ℕ)
bridge = record {
  seen_nonces = ("old", 1) ∷ [];
  statuses = [];
  world = record { redis = record { general = control_in smoke; queue = [] }; settings = settings };
}

hold-IsPassed : IsPassed (cloud_registry host parse) moment (document "mode.hold") bridge
unfolding is_stale has_nonce find_command
hold-IsPassed = record {
  created = 990000;
  nonce = "n1";
  pending = refl;
  dated = refl;
  fresh = refl;
  marked = refl;
  new = refl;
  enabled = refl;
  allowed = refl;
}

hold_is_done :
    (handle_command (cloud_registry host parse) moment "c1" (document "mode.hold") bridge).1 ≡ done
unfolding handle_command is_stale has_nonce find_command execute
hold_is_done = refl

handle_command-requested_mode_example :
    let r = handle_command (cloud_registry host parse) moment "c1" (document "mode.hold") bridge in
    ((merged r.0.world).redis.general.mode ≡ hold)
    × ((merged r.0.world).redis.general.updated ≡ true)
handle_command-requested_mode_example =
    handle_command-requested_mode host parse moment "c1" (document "mode.hold") bridge hold
      hold-IsPassed refl hold_is_done

-- The claims of one user, in the place of what a token holds.
abbrev claims : Claims
claims = record { sub = "u"; role = some "admin"; iat = 100; exp = 160 }

abbrev crypto : Crypto
crypto = record {
  hash = λ salt password. password;
  verify = λ stored password. str_eq stored password;
  sha256 = λ text. text;
  encode = λ c secret. secret;
  decode = λ now secret token. some claims;
}

abbrev block : AuthBlock
block = record { password_hash = none; password_set_at = 0; jwt_secret = none; api_keys = [] }

no_digest : has_digest "fireai_t" block.api_keys ≡ false
unfolding has_digest
no_digest = refl

key_made : (create_api_key crypto "t" "k1" "today" "phone" "viewer" block).0 ≡ some "fireai_t"
unfolding create_api_key
key_made = refl

create-verify_api_key_example :
    (verify_api_key crypto "today" "fireai_t"
      (create_api_key crypto "t" "k1" "today" "phone" "viewer" block).1).0
    ≡ some (record { uid = "key:" <> "k1"; role = "viewer"; via = "api_key" })
create-verify_api_key_example =
    create-verify_api_key crypto "today" "t" "k1" "today" "phone" "viewer" "fireai_t" block
      no_digest key_made

abbrev api_key : String → ApiKey
api_key id = record {
  id = id;
  name = "phone";
  role = "viewer";
  created = "d";
  last_used = none;
  hash = "fireai_" <> id;
}

abbrev two_keys : AuthBlock
two_keys = record block { api_keys = api_key "k1" ∷ api_key "k2" ∷ [] }

key_deleted : (delete_api_key "k1" two_keys).0 ≡ true
unfolding delete_api_key
key_deleted = refl

abbrev other : Principal
other = record { uid = "key:k2"; role = "viewer"; via = "api_key" }

other_verifies :
    (verify_api_key crypto "d" "fireai_k2" (delete_api_key "k1" two_keys).1).0 ≡ some other
unfolding verify_api_key delete_api_key
other_verifies = refl

delete-verify_api_key_example : other.uid ≢ "key:" <> "k1"
delete-verify_api_key_example =
    delete-verify_api_key crypto "d" "fireai_k2" "k1" two_keys key_deleted other_verifies

set_password_lem_example :
    let (result, b) = set_password crypto 50 "salt" "s" "pellets1" false block in
    ((result ≡ ok)
      × (8 ≤ count "pellets1")
      × ((false ≡ true) ⊎ (password_is_set block ≡ false))
      × (verify_password crypto "pellets1" b ≡ true)
      × (password_is_set b ≡ true))
    ⊎ ((result ≢ ok)
        × (b ≡ block)
        × ((count "pellets1" < 8) ⊎ ((false ≡ false) × (password_is_set block ≡ true))))
set_password_lem_example =
    set_password_lem crypto (λ salt password. eq_refl password) 50 "salt" "s" "pellets1" false block
