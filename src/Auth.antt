-- ===== src/Auth.antt =====
-- Local authentication, server/auth.py. `AuthBlock` is `settings['server']['auth']`, which every
-- change writes to settings.json. Argon2, SHA-256, JSON web tokens and random texts are not the
-- program's: they are the fields of `Crypto` and arguments. A missing value and an empty text are
-- one in `AuthBlock`: none.
pub mod Keys
pub mod Sessions
use Prim.Native.String.{count, ◌++◌ as ◌<>◌}
use text.Mathlib.Text.{starts_with, ◌==◌ as str_eq}
use fire_ai.Prelude.{
  ℕ, ◌+◌, ◌*◌, String, Bool, true, false, not, ◌&&◌, ◌||◌, Option, none, some, List, [], ◌∷◌, ◌++◌,
  length, ltb, ◌==◌, if◌then◌else◌,
}

abbrev pub token_ttl_s : ℕ
token_ttl_s = 30 * 24 * 3600

abbrev pub api_key_prefix : String
api_key_prefix = "fireai_"

pub record Principal : Type 0 where
  pub uid : String
  pub role : String
  pub via : String

-- The claims of a token of the issuer 'fireai-local'.
pub record Claims : Type 0 where
  pub sub : String
  pub role : Option String
  pub iat : ℕ
  pub exp : ℕ

pub record ApiKey : Type 0 where
  pub id : String
  pub name : String
  pub role : String
  pub created : String
  pub last_used : Option String
  pub hash : String

pub record AuthBlock : Type 0 where
  pub password_hash : Option String
  pub password_set_at : ℕ
  pub jwt_secret : Option String
  pub api_keys : List ApiKey

-- `PasswordHasher.hash` with its salt, and `.verify`; SHA-256 as a text; `jwt.encode`, and
-- `jwt.decode` at a time, which is none where it raises.
pub record Crypto : Type 0 where
  pub hash : String → String → String
  pub verify : String → String → Bool
  pub sha256 : String → String
  pub encode : Claims → String → String
  pub decode : ℕ → String → String → Option Claims

pub data SetPassword : Type 0 where
  ok value_error permission_error : SetPassword

abbrev pub or_else : Option String → String → String
or_else none d = d
or_else (some x) d = x

abbrev is_some : Option String → Bool
is_some none = false
is_some (some x) = true

unfoldable pub password_is_set : AuthBlock → Bool
password_is_set b = is_some b.password_hash

-- `_jwt_secret`: the secret is made at its first use.
unfoldable pub with_secret : String → AuthBlock → AuthBlock
with_secret fresh b = record b { jwt_secret = some (or_else b.jwt_secret fresh) }

module _ (c : Crypto) where
  unfoldable pub set_password :
      ℕ → (salt fresh password : String) → Bool → AuthBlock → SetPassword × AuthBlock
  unfolding with_secret password_is_set
  set_password now salt fresh password replace b =
      if ltb (count password) 8
      then (value_error, b)
      else if password_is_set b && not replace
      then (permission_error, b)
      else (
        ok,
        with_secret fresh
            (record b { password_hash = some (c.hash salt password); password_set_at = now }),
      )

  unfoldable pub verify_password : String → AuthBlock → Bool
  verify_password password b = elim b.password_hash [
    | none ↦ false
    | some stored ↦ c.verify stored password
  ]

  unfoldable pub issue_token : ℕ → (fresh uid role : String) → ℕ → AuthBlock → String × AuthBlock
  unfolding with_secret
  issue_token now fresh uid role ttl b =
      let claims : Claims = record { sub = uid; role = some role; iat = now; exp = now + ttl } in
      (c.encode claims (or_else b.jwt_secret fresh), with_secret fresh b)

  abbrev pub local_principal : Option Claims → Option Principal
  local_principal none = none
  local_principal (some claims) =
      some (record { uid = claims.sub; role = or_else claims.role "admin"; via = "local" })

  unfoldable pub verify_token : ℕ → String → AuthBlock → Option Principal
  verify_token now token b = elim b.jwt_secret [
    | none ↦ none
    | some secret ↦ local_principal (c.decode now secret token)
  ]

  -- The key itself is returned once, and only its hash is kept. `none` is a `ValueError`. The name
  -- is given as it is kept, cut to 60 characters.
  unfoldable pub create_api_key :
      (token id now name role : String) → AuthBlock → Option String × AuthBlock
  create_api_key token id now name role b =
      let key = api_key_prefix <> token in
      if str_eq role "admin" || str_eq role "operator" || str_eq role "viewer"
      then (
        some key,
        record b {
          api_keys =
              b.api_keys
              ++ record {
                id = id;
                name = name;
                role = role;
                created = now;
                last_used = none;
                hash = c.sha256 key;
              }
                ∷ [];
        },
      )
      else (none, b)

-- The keys of other ids.
unfoldable pub other_keys : String → List ApiKey → List ApiKey
other_keys id [] = []
other_keys id (k ∷ ks) = let rest = other_keys id ks in if str_eq k.id id then rest else k ∷ rest

unfoldable pub delete_api_key : String → AuthBlock → Bool × AuthBlock
unfolding other_keys
delete_api_key id b =
    let keep = other_keys id b.api_keys in
    if length keep == length b.api_keys then (false, b) else (true, record b { api_keys = keep })

-- The first key of a digest, with the day of its use.
unfoldable pub use_key : (today digest : String) → List ApiKey → Option Principal × List ApiKey
use_key today digest [] = (none, [])
use_key today digest (k ∷ ks) =
    let (found, rest) = use_key today digest ks in
    if str_eq k.hash digest
    then (
      some (record { uid = "key:" <> k.id; role = k.role; via = "api_key" }),
      record k { last_used = some today } ∷ ks,
    )
    else (found, k ∷ rest)

module _ (c : Crypto) where
  unfoldable pub verify_api_key : (today key : String) → AuthBlock → Option Principal × AuthBlock
  unfolding use_key
  verify_api_key today key b =
      if not (starts_with key api_key_prefix)
      then (none, b)
      else (let (found, keys) = use_key today (c.sha256 key) b.api_keys in
          (found, record b { api_keys = keys }))

  -- An empty token is none. The verifier of Firebase tokens, where one is installed, has the last word.
  abbrev pub or_firebase :
      Option (String → Option Principal) → String → Option Principal → Option Principal
  or_firebase firebase token (some p) = some p
  or_firebase none token none = none
  or_firebase (some verifier) token none = verifier token

  unfoldable pub authenticate :
      Bool
      → Option (String → Option Principal)
      → ℕ
      → (today : String) → Option String
      → AuthBlock
      → Option Principal × AuthBlock
  unfolding verify_api_key verify_token
  authenticate disabled firebase now today none b = (
    if disabled then some (record { uid = "dev"; role = "admin"; via = "disabled" }) else none,
    b,
  )
  authenticate disabled firebase now today (some token) b =
      if disabled
      then (some (record { uid = "dev"; role = "admin"; via = "disabled" }), b)
      else if starts_with token api_key_prefix
      then (let (found, b') = verify_api_key today token b in
          (or_firebase firebase token found, b'))
      else (or_firebase firebase token (verify_token c now token b), b)
