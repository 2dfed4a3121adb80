-- ===== src/Documents.antt =====
-- The settings document: core/settings_schema.py, and `deep_update` of common/common.py on any
-- document. The search by the regular expression of secret keys is a parameter.
pub mod Patches
pub mod Redaction
use text.Mathlib.Text.{◌==◌ as str_eq}
use fire_ai.Prelude.{
  ℕ, zero, suc, String, Bool, true, false, not, ◌&&◌, ◌||◌, Option, none, some, List, [], ◌∷◌, ◌++◌,
  if◌then◌else◌, ◌==◌, and_then, map,
}
use fire_ai.Prelude.Num.{Num, ◌=?◌, #}

abbrev same_bool : Bool → Bool → Bool
same_bool true b = b
same_bool false b = not b

abbrev pub is_nil : List (List String) → Bool
is_nil [] = true
is_nil (path ∷ paths) = false

mutual
  pub data Json (N : Type 0) : Type 0 where
    null : Json N
    bool : Bool → Json N
    num : N → Json N
    str : String → Json N
    arr : Items N → Json N
    obj : Fields N → Json N

  pub data Items (N : Type 0) : Type 0 where
    nil : Items N
    cons : Json N → Items N → Items N

  pub data Fields (N : Type 0) : Type 0 where
    end : Fields N
    field : String → Json N → Fields N → Fields N

abbrev pub redacted : String
redacted = "***"

-- `NOT_SECRET`
abbrev pub not_secret : String → Bool
not_secret k =
    str_eq k "jwt_alg"
    || str_eq k "token_ttl"
    || str_eq k "auth_required"
    || str_eq k "password_set"

-- `matches` is `SECRET_KEY_RE.search`.
abbrev pub is_secret_key : (String → Bool) → String → Bool
is_secret_key matches k = not (not_secret k) && matches k

module _ {N : Type 0} where
  abbrev pub is_container : Json N → Bool
  is_container (arr xs) = true
  is_container (obj fs) = true
  is_container _ = false

  -- `d.get(k)`
  unfoldable pub get : String → Fields N → Option (Json N)
  get k end = none
  get k (field j v fs) = if str_eq j k then some v else get k fs

  -- `d[k] = v`
  unfoldable pub put : String → Json N → Fields N → Fields N
  put k v end = field k v end
  put k v (field j w fs) =
      let rest = put k v fs in if str_eq j k then field j v fs else field j w rest

  -- A dictionary without a key.
  unfoldable pub without : String → Fields N → Fields N
  without k end = end
  without k (field j v fs) = let rest = without k fs in if str_eq j k then rest else field j v rest

  -- `out['server']` loses 'auth', if it is a dictionary.
  unfoldable pub drop_auth : Fields N → Fields N
  unfolding without
  drop_auth end = end
  drop_auth (field k (obj fs) rest) =
      let others = drop_auth rest in
      if str_eq k "server" then field k (obj (without "auth" fs)) rest else field k (obj fs) others
  drop_auth (field k v rest) =
      let others = drop_auth rest in if str_eq k "server" then field k v rest else field k v others

  abbrev pub is_empty : Fields N → Bool
  is_empty end = true
  is_empty (field k v fs) = false

module _ {N : Type 0} ⦃o : Num N⦄ where
  -- `v in (None, '', 0, False)`
  abbrev pub is_unset : Json N → Bool
  is_unset null = true
  is_unset (bool b) = not b
  is_unset (num x) = x =? # 0
  is_unset (str s) = str_eq s ""
  is_unset _ = false

  abbrev pub hidden : Json N → Json N
  hidden v = if is_unset v then str "" else str redacted

  module _ (matches : String → Bool) where
    unfoldable mutual
      pub walk : Json N → Json N
      walk null = null
      walk (bool b) = bool b
      walk (num x) = num x
      walk (str s) = str s
      walk (arr xs) = arr (walk_items xs)
      walk (obj fs) = obj (walk_fields fs)

      pub walk_items : Items N → Items N
      walk_items nil = nil
      walk_items (cons x xs) = cons (walk x) (walk_items xs)

      pub walk_fields : Fields N → Fields N
      walk_fields end = end
      walk_fields (field k v fs) =
          let inner = walk v in
          field k (if is_secret_key matches k && not (is_container v) then hidden v else inner)
            (walk_fields fs)

    unfoldable pub redact : Fields N → Fields N
    unfolding walk drop_auth
    redact fs = drop_auth (walk_fields fs)

module _ {N : Type 0} where
  abbrev is_sentinel : Json N → Bool
  is_sentinel (str s) = str_eq s redacted
  is_sentinel _ = false

  unfoldable mutual
    -- A value of a patch, if it stays.
    pub strip_value : Json N → Option (Json N)
    strip_value null = some null
    strip_value (bool b) = some (bool b)
    strip_value (num x) = some (num x)
    strip_value (str s) = if str_eq s redacted then none else some (str s)
    strip_value (arr xs) = some (arr xs)
    strip_value (obj fs) =
        let inner = strip_sentinels fs in
        if not (is_empty inner) || is_empty fs then some (obj inner) else none

    pub strip_sentinels : Fields N → Fields N
    strip_sentinels end = end
    strip_sentinels (field k v fs) =
        let rest = strip_sentinels fs in
        elim (strip_value v) [ none ↦ rest | some v' ↦ field k v' rest ]

  abbrev is_there : Option (Json N) → Bool
  is_there none = false
  is_there (some v) = true

  abbrev pub has_auth : Option (Json N) → Bool
  has_auth (some (obj inner)) = is_there (get "auth" inner)
  has_auth _ = false

  -- `PROTECTED_PATHS`
  unfoldable pub is_protected : Fields N → Bool
  unfolding get
  is_protected fs =
      is_there (get "versions" fs) || is_there (get "server_info" fs) || has_auth (get "server" fs)

  -- What `deep_update` puts under the key of a dictionary: the value there, if any, updated by it.
  -- An empty dictionary leaves every value, and another one fails on a value that is none.
  abbrev pub merge_under : (Fields N → Option (Fields N)) → Bool → Option (Json N) → Option (Json N)
  merge_under update empty none = and_then (update end) λ m. some (obj m)
  merge_under update empty (some (obj fs)) = and_then (update fs) λ m. some (obj m)
  merge_under update empty (some null) = if empty then some null else none
  merge_under update empty (some (bool b)) = if empty then some (bool b) else none
  merge_under update empty (some (num x)) = if empty then some (num x) else none
  merge_under update empty (some (str s)) = if empty then some (str s) else none
  merge_under update empty (some (arr xs)) = if empty then some (arr xs) else none

  -- `deep_update`; none is the exception of a dictionary that is merged into another value.
  unfoldable pub deep_update : Fields N → Fields N → Option (Fields N)
  unfolding get put
  deep_update d end = some d
  deep_update d (field k (obj inner) rest) =
      and_then (merge_under (λ fs. deep_update fs inner) (is_empty inner) (get k d))
        λ m. deep_update (put k m d) rest
  deep_update d (field k v rest) = deep_update (put k v d) rest

module _ {N : Type 0} ⦃o : Num N⦄ where
  abbrev as_num : Bool → N
  as_num b = if b then # 1 else # 0

  abbrev size : Fields N → ℕ
  size end = 0
  size (field k v fs) = suc (size fs)

  -- `a == b`. True is 1, and the order of a dictionary does not count.
  unfoldable mutual
    unfolding get

    pub py_eq : Json N → Json N → Bool
    py_eq null null = true
    py_eq (bool b) (bool c) = same_bool b c
    py_eq (bool b) (num x) = as_num b =? x
    py_eq (num x) (bool b) = x =? as_num b
    py_eq (num x) (num y) = x =? y
    py_eq (str s) (str t) = str_eq s t
    py_eq (arr xs) (arr ys) = py_eq_items xs ys
    py_eq (obj fs) (obj gs) = (size fs == size gs) && py_eq_fields fs gs
    py_eq _ _ = false

    pub py_eq_items : Items N → Items N → Bool
    py_eq_items nil nil = true
    py_eq_items (cons x xs) (cons y ys) = py_eq x y && py_eq_items xs ys
    py_eq_items _ _ = false

    pub py_eq_fields : Fields N → Fields N → Bool
    py_eq_fields end gs = true
    py_eq_fields (field k v fs) gs =
        elim (get k gs) [ none ↦ false | some w ↦ py_eq v w ] && py_eq_fields fs gs

  -- `_flatten_changes`: the paths, as lists of keys.
  unfoldable pub flatten_changes : Fields N → Fields N → List (List String)
  unfolding get py_eq
  flatten_changes base end = []
  flatten_changes base (field k (obj inner) rest) =
      elim (get k base) [
        | some (obj fs) ↦ map (λ path. k ∷ path) (flatten_changes fs inner)
        | some v ↦ (k ∷ []) ∷ []
        | none ↦ (k ∷ []) ∷ []
      ]
      ++ flatten_changes base rest
  flatten_changes base (field k v rest) =
      elim (get k base) [ some w ↦ if py_eq w v then [] else (k ∷ []) ∷ [] | none ↦ (k ∷ []) ∷ [] ]
      ++ flatten_changes base rest

-- How `apply_patch` ends: with the paths that changed and the document that is kept, with its
-- `ValueError`, or with an exception of the merge.
pub data Applied (N : Type 0) : Type 0 where
  changed : List (List String) → Fields N → Applied N
  read_only : Applied N
  failed : Applied N

module _ {N : Type 0} ⦃o : Num N⦄ where
  abbrev pub merged_into : List (List String) → Option (Fields N) → Applied N
  merged_into paths none = failed
  merged_into paths (some doc) = changed paths doc

  unfoldable pub apply_patch : Bool → Fields N → Fields N → Applied N
  unfolding strip_sentinels is_protected flatten_changes deep_update
  apply_patch allow_protected doc patch =
      let stripped = strip_sentinels patch in
      if not allow_protected && is_protected stripped
      then read_only
      else (let paths = flatten_changes doc stripped in
          if is_nil paths then changed [] doc else merged_into paths (deep_update doc stripped))
