-- ===== src/Auth/Keys.antt =====
-- The life of an API key (server/auth.py).
use Prim.Native.String.{◌++◌ as ◌<>◌}
use text.Mathlib.Text.{◌==◌ as str_eq}
use text.Mathlib.TextPositions.{eq_refl, starts_with-append}
use text.Mathlib.TextEquality.{eq_iff}
use text.Mathlib.TextLemmas.{append_cancel_left}
use fire_ai.Prelude.{
  ◌≡◌, ◌≢◌, String, Bool, true, false, none, some, List, [], ◌∷◌, ◌++◌, ◌||◌, arith,
}
use fire_ai.Auth.{
  api_key_prefix, Principal, ApiKey, AuthBlock, Crypto, create_api_key, other_keys, delete_api_key,
  use_key, verify_api_key,
}

-- Whether a key with this digest is kept.
unfoldable pub has_digest : String → List ApiKey → Bool
has_digest digest [] = false
has_digest digest (k ∷ ks) = str_eq k.hash digest || has_digest digest ks

use_key-append :
    (today : String) (ks : List ApiKey) (k : ApiKey)
    → has_digest k.hash ks ≡ false
    → (use_key today k.hash (ks ++ k ∷ [])).0
      ≡ some (record { uid = "key:" <> k.id; role = k.role; via = "api_key" })
unfolding use_key has_digest
use_key-append today [] k h = rw eq_refl
use_key-append today (j ∷ ks) k h = let ih = use_key-append today ks k in ground arith

use_key-ne :
    (today digest id : String) (ks : List ApiKey) {p : Principal}
    → (use_key today digest (other_keys id ks)).0 ≡ some p
    → p.uid ≢ "key:" <> id
unfolding use_key other_keys
use_key-ne today digest id [] h e = cc
use_key-ne today digest id (k ∷ ks) {p} h e =
    let ih = λ (q : (use_key today digest (other_keys id ks)).0 ≡ some p).
      use_key-ne today digest id ks q e in
    let same = λ (q : "key:" <> k.id ≡ "key:" <> id).
      (eq_iff k.id id).1 (append_cancel_left "key:" k.id id q) in
    ground arith

module _ (c : Crypto) where
  -- A key that was created verifies as its id and role, where no key before it has its digest.
  pub create-verify_api_key :
      (today token id now name role key : String) (b : AuthBlock)
      → has_digest (c.sha256 (api_key_prefix <> token)) b.api_keys ≡ false
      → (create_api_key c token id now name role b).0 ≡ some key
      → (verify_api_key c today key (create_api_key c token id now name role b).1).0
        ≡ some (record { uid = "key:" <> id; role = role; via = "api_key" })
  unfolding create_api_key verify_api_key
  create-verify_api_key today token id now name role key b new made =
      let kept =
        use_key-append today b.api_keys
          (record {
            id = id;
            name = name;
            role = role;
            created = now;
            last_used = none;
            hash = c.sha256 (api_key_prefix <> token);
          })
          new in
      let prefixed = starts_with-append api_key_prefix token in ground arith

  -- A deleted key is refused: no text verifies as a key of its id, however often the id was given.
  pub delete-verify_api_key :
      (today key id : String) (b : AuthBlock) {p : Principal}
      → (delete_api_key id b).0 ≡ true
      → (verify_api_key c today key (delete_api_key id b).1).0 ≡ some p
      → p.uid ≢ "key:" <> id
  unfolding delete_api_key verify_api_key
  delete-verify_api_key today key id b {p} gone h =
      use_key-ne today (c.sha256 key) id b.api_keys {p = p} (ground arith)
