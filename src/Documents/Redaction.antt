-- ===== src/Documents/Redaction.antt =====
-- What leaves the grill (core/settings_schema.py): redacted documents.
use text.Mathlib.Text.{◌==◌ as str_eq}
use fire_ai.Prelude.{
  ◌≡◌, refl, ◌⊎◌, inl, inr, String, Bool, true, false, not, ◌&&◌, none, arith, if◌then◌else◌,
}
use fire_ai.Prelude.Num.{Num}
use fire_ai.Documents.{
  Json, null, bool, num, str, arr, obj, Items, nil, cons, Fields, end, field, redacted,
  is_secret_key, is_container, is_unset, hidden, get, without, walk, walk_items, walk_fields,
  drop_auth, redact, has_auth,
}

-- A value that tells nothing: the sentinel or the empty text.
abbrev pub TellsNothing : {N : Type 0} → Json N → Type 0
TellsNothing v = (v ≡ str redacted) ⊎ (v ≡ str "")

-- No value but a container stands under a secret key, unless it tells nothing, at any depth.
abbrev mutual
  pub IsClean : {N : Type 0} → (String → Bool) → Json N → Type 0
  IsClean matches null = Unit
  IsClean matches (bool b) = Unit
  IsClean matches (num x) = Unit
  IsClean matches (str s) = Unit
  IsClean matches (arr xs) = AreClean matches xs
  IsClean matches (obj fs) = HaveClean matches fs

  pub AreClean : {N : Type 0} → (String → Bool) → Items N → Type 0
  AreClean matches nil = Unit
  AreClean matches (cons x xs) = IsClean matches x × AreClean matches xs

  pub HaveClean : {N : Type 0} → (String → Bool) → Fields N → Type 0
  HaveClean matches end = Unit
  HaveClean matches (field k v fs) =
      (is_secret_key matches k && not (is_container v) ≡ true → TellsNothing v)
      × IsClean matches v
      × HaveClean matches fs

module _ {N : Type 0} ⦃o : Num N⦄ (matches : String → Bool) where
  is_container-walk : (v : Json N) → is_container (walk matches v) ≡ is_container v
  unfolding walk
  is_container-walk null = refl
  is_container-walk (bool b) = refl
  is_container-walk (num x) = refl
  is_container-walk (str s) = refl
  is_container-walk (arr xs) = refl
  is_container-walk (obj fs) = refl

  hidden-TellsNothing : (v : Json N) → TellsNothing (hidden v)
  hidden-TellsNothing v =
      elim (is_unset v) as (λ b. TellsNothing {N = N} (if b then str "" else str redacted)) [
        | true ↦ inr refl
        | false ↦ inl refl
      ]

  hidden-IsClean : (v : Json N) → IsClean matches (hidden v)
  hidden-IsClean v =
      elim (is_unset v) as (λ b. IsClean {N = N} matches (if b then str "" else str redacted)) [
        | true ↦ tt
        | false ↦ tt
      ]

  -- The value under a key, by whether the key is secret and the value a container.
  IsClean-field :
      (secret container : Bool) (v w : Json N)
      → is_container w ≡ container
      → IsClean matches w
      → (secret && not (is_container (if secret && not container then hidden v else w)) ≡ true
          → TellsNothing (if secret && not container then hidden v else w))
        × IsClean matches (if secret && not container then hidden v else w)
  IsClean-field true true v w e clean = (λ r. grind arith, clean)
  IsClean-field false c v w e clean = (λ r. grind arith, clean)
  IsClean-field true false v w e clean = (λ r. hidden-TellsNothing v, hidden-IsClean v)

  mutual
    unfolding walk

    walk-IsClean : (v : Json N) → IsClean matches (walk matches v)
    walk-IsClean null = tt
    walk-IsClean (bool b) = tt
    walk-IsClean (num x) = tt
    walk-IsClean (str s) = tt
    walk-IsClean (arr xs) = walk_items-AreClean xs
    walk-IsClean (obj fs) = walk_fields-HaveClean fs

    walk_items-AreClean : (xs : Items N) → AreClean matches (walk_items matches xs)
    walk_items-AreClean nil = tt
    walk_items-AreClean (cons x xs) = (walk-IsClean x, walk_items-AreClean xs)

    walk_fields-HaveClean : (fs : Fields N) → HaveClean matches (walk_fields matches fs)
    walk_fields-HaveClean end = tt
    walk_fields-HaveClean (field k v fs) =
        let one =
          IsClean-field (is_secret_key matches k) (is_container v) v (walk matches v)
            (is_container-walk v) (walk-IsClean v) in
        (one.0, one.1, walk_fields-HaveClean fs)

  pub HaveClean-if :
      (b : Bool) (fs gs : Fields N)
      → HaveClean matches fs
      → HaveClean matches gs
      → HaveClean matches (if b then fs else gs)
  HaveClean-if true fs gs f g = f
  HaveClean-if false fs gs f g = g

  pub without-HaveClean :
      (k : String) (fs : Fields N) → HaveClean matches fs → HaveClean matches (without k fs)
  unfolding without
  without-HaveClean k end clean = tt
  without-HaveClean k (field j v fs) (here, inside, after) =
      let rest = without-HaveClean k fs after in
      HaveClean-if (str_eq j k) (without k fs) (field j v (without k fs)) rest (here, inside, rest)

  -- A field that stays, before fields that may lose something.
  keep :
      (k : String) (v : Json N) (fs gs : Fields N)
      → HaveClean matches (field k v fs)
      → HaveClean matches gs
      → HaveClean matches (if str_eq k "server" then field k v fs else field k v gs)
  keep k v fs gs (here, inside, after) g =
      HaveClean-if (str_eq k "server") (field k v fs) (field k v gs) (here, inside, after)
        (here, inside, g)

  drop_auth-HaveClean : (fs : Fields N) → HaveClean matches fs → HaveClean matches (drop_auth fs)
  unfolding drop_auth
  drop_auth-HaveClean end clean = tt
  drop_auth-HaveClean (field k null fs) (h, i, a) =
      keep k null fs (drop_auth fs) (h, i, a) (drop_auth-HaveClean fs a)
  drop_auth-HaveClean (field k (bool b) fs) (h, i, a) =
      keep k (bool b) fs (drop_auth fs) (h, i, a) (drop_auth-HaveClean fs a)
  drop_auth-HaveClean (field k (num x) fs) (h, i, a) =
      keep k (num x) fs (drop_auth fs) (h, i, a) (drop_auth-HaveClean fs a)
  drop_auth-HaveClean (field k (str s) fs) (h, i, a) =
      keep k (str s) fs (drop_auth fs) (h, i, a) (drop_auth-HaveClean fs a)
  drop_auth-HaveClean (field k (arr xs) fs) (h, i, a) =
      keep k (arr xs) fs (drop_auth fs) (h, i, a) (drop_auth-HaveClean fs a)
  drop_auth-HaveClean (field k (obj inner) fs) (h, i, a) =
      HaveClean-if (str_eq k "server") (field k (obj (without "auth" inner)) fs)
        (field k (obj inner) (drop_auth fs))
        ((λ r. grind arith), without-HaveClean "auth" inner i, a) (h, i, drop_auth-HaveClean fs a)

pub get-without : {N : Type 0} (k : String) (fs : Fields N) → get k (without k fs) ≡ none
unfolding get without
get-without k end = refl
get-without k (field j v fs) = let ih = get-without k fs in ground arith

has_auth-drop_auth : {N : Type 0} (fs : Fields N) → has_auth (get "server" (drop_auth fs)) ≡ false
unfolding get drop_auth
has_auth-drop_auth end = refl
has_auth-drop_auth (field k null fs) = let ih = has_auth-drop_auth fs in ground arith
has_auth-drop_auth (field k (bool b) fs) = let ih = has_auth-drop_auth fs in ground arith
has_auth-drop_auth (field k (num x) fs) = let ih = has_auth-drop_auth fs in ground arith
has_auth-drop_auth (field k (str s) fs) = let ih = has_auth-drop_auth fs in ground arith
has_auth-drop_auth (field k (arr xs) fs) = let ih = has_auth-drop_auth fs in ground arith
has_auth-drop_auth (field k (obj inner) fs) =
    let ih = has_auth-drop_auth fs in let gone = get-without "auth" inner in ground arith

-- A redacted document has no secret: whatever the pattern of secret keys, at every depth, lists
-- included, no value but a container stands under a secret key, unless it is the sentinel or the
-- empty text, and 'server' has no 'auth'.
pub redact-IsClean :
    {N : Type 0} ⦃o : Num N⦄ (matches : String → Bool) (fs : Fields N)
    → HaveClean matches (redact matches fs) × has_auth (get "server" (redact matches fs)) ≡ false
unfolding redact
redact-IsClean matches fs = (
  drop_auth-HaveClean matches (walk_fields matches fs) (walk_fields-HaveClean matches fs),
  has_auth-drop_auth (walk_fields matches fs),
)
