-- ===== src/Auth/Sessions.antt =====
-- Passwords and tokens (server/auth.py).
use Prim.Native.String.{count}
use fire_ai.Prelude.{
  ◌≡◌, ◌≢◌, refl, ap, ℕ, ◌+◌, ◌≤◌, ◌<◌, String, Bool, true, false, some, arith, ◌⊎◌,
}
use fire_ai.Auth.{
  Claims, AuthBlock, Crypto, ok, password_is_set, with_secret, or_else, local_principal,
  set_password, verify_password, issue_token, verify_token,
}

module _ (c : Crypto) where
  -- `set_password` succeeds exactly if the password has 8 characters, and none is set or it is to be
  -- replaced; else it changes nothing. After a success the password verifies, where the hasher
  -- accepts what it has hashed, and without `replace` no other call succeeds.
  pub set_password_lem :
      ((salt password : String) → c.verify (c.hash salt password) password ≡ true)
      → (now : ℕ) (salt fresh password : String) (replace : Bool) (b : AuthBlock)
      → let (result, b') = set_password c now salt fresh password replace b in
        ((result ≡ ok)
          × (8 ≤ count password)
          × ((replace ≡ true) ⊎ (password_is_set b ≡ false))
          × (verify_password c password b' ≡ true)
          × (password_is_set b' ≡ true))
        ⊎ ((result ≢ ok)
            × (b' ≡ b)
            × ((count password < 8) ⊎ ((replace ≡ false) × (password_is_set b ≡ true))))
  unfolding set_password verify_password with_secret password_is_set
  set_password_lem law now salt fresh password replace b =
      let fits = law salt password in ground arith

  -- A token that was issued verifies until it expires, as its user and role, where the decoder gives
  -- back the claims that the token was made of as long as they have not expired.
  pub issue-verify_token :
      (now later : ℕ) (fresh uid role : String) (ttl : ℕ) (b : AuthBlock)
      → ((time : ℕ) (secret : String) (claims : Claims)
          → claims ≡ record { sub = uid; role = some role; iat = now; exp = now + ttl }
          → time < claims.exp
          → c.decode time secret (c.encode claims secret) ≡ some claims)
      → later < now + ttl
      → let (token, b') = issue_token c now fresh uid role ttl b in
        verify_token c later token b' ≡ some (record { uid = uid; role = role; via = "local" })
  unfolding issue_token verify_token with_secret
  issue-verify_token now later fresh uid role ttl b law live =
      ap (local_principal c) (law later (or_else b.jwt_secret fresh) _ refl live)
