-- ===== src/Documents/Patches.antt =====
-- What comes back to the grill (core/settings_schema.py): patches without sentinels.
use text.Mathlib.Text.{◌==◌ as str_eq}
use fire_ai.Prelude.{
  ◌≡◌, String, Bool, true, false, not, ◌&&◌, ◌||◌, List, [], Option, and_then, none, some,
  Bool-cases, inl, inr, arith, if◌then◌else◌,
}
use fire_ai.Prelude.Num.{Num}
use fire_ai.Documents.{
  Json, null, bool, num, str, arr, obj, Fields, end, field, redacted, strip_value, strip_sentinels,
  is_empty, get, put, deep_update, merge_under, Applied, changed, read_only, failed, apply_patch,
  merged_into, flatten_changes, is_protected, is_nil,
}

-- No sentinel stands outside the lists, at any depth.
abbrev mutual
  pub IsReal : {N : Type 0} → Json N → Type 0
  IsReal null = Unit
  IsReal (bool b) = Unit
  IsReal (num x) = Unit
  IsReal (str s) = str_eq s redacted ≡ false
  IsReal (arr xs) = Unit
  IsReal (obj fs) = HaveReal fs

  pub HaveReal : {N : Type 0} → Fields N → Type 0
  HaveReal end = Unit
  HaveReal (field k v fs) = IsReal v × HaveReal fs

abbrev IsRealIfSome : {N : Type 0} → Option (Json N) → Type 0
IsRealIfSome none = Unit
IsRealIfSome (some v) = IsReal v

strip_str :
    (N : Type 0) (s : String)
    → IsRealIfSome {N = N} (if str_eq s redacted then none else some (str s))
strip_str N s = elim (Bool-cases (str_eq s redacted)) [
  | inl e ↦ ground arith
  | inr e ↦ ground arith
]

abbrev AreRealIfSome : {N : Type 0} → Option (Fields N) → Type 0
AreRealIfSome none = Unit
AreRealIfSome (some fs) = HaveReal fs

module _ {N : Type 0} where
  strip_obj :
      (b : Bool) (fs : Fields N)
      → HaveReal fs
      → IsRealIfSome {N = N} (if b then some (obj fs) else none)
  strip_obj true fs real = real
  strip_obj false fs real = tt

  strip_field :
      (k : String) (v : Option (Json N)) (rest : Fields N)
      → IsRealIfSome v
      → HaveReal rest
      → HaveReal (elim v [ none ↦ rest | some v' ↦ field k v' rest ])
  strip_field k none rest one others = others
  strip_field k (some v) rest one others = (one, others)

  mutual
    unfolding strip_value

    strip_value-IsReal : (v : Json N) → IsRealIfSome (strip_value v)
    strip_value-IsReal null = tt
    strip_value-IsReal (bool b) = tt
    strip_value-IsReal (num x) = tt
    strip_value-IsReal (str s) = strip_str N s
    strip_value-IsReal (arr xs) = tt
    strip_value-IsReal (obj fs) =
        strip_obj (not (is_empty (strip_sentinels fs)) || is_empty fs) (strip_sentinels fs)
          (strip_sentinels-IsReal fs)

    strip_sentinels-IsReal : (fs : Fields N) → HaveReal (strip_sentinels fs)
    strip_sentinels-IsReal end = tt
    strip_sentinels-IsReal (field k v fs) =
        strip_field k (strip_value v) (strip_sentinels fs) (strip_value-IsReal v)
          (strip_sentinels-IsReal fs)

  HaveReal-put :
      (k : String) (v : Json N) (d : Fields N) → IsReal v → HaveReal d → HaveReal (put k v d)
  unfolding put
  HaveReal-put k v end one all = (one, tt)
  HaveReal-put k v (field j w d) one (here, after) =
      let rest = HaveReal-put k v d one after in
      elim (str_eq j k) as (λ b. HaveReal (if b then field j v d else field j w (put k v d))) [
        | true ↦ (one, after)
        | false ↦ (here, rest)
      ]

  IsReal-get : (k : String) (d : Fields N) → HaveReal d → IsRealIfSome (get k d)
  unfolding get
  IsReal-get k end all = tt
  IsReal-get k (field j v d) (here, after) =
      let rest = IsReal-get k d after in
      elim (str_eq j k) as (λ b. IsRealIfSome (if b then some v else get k d)) [
        | true ↦ here
        | false ↦ rest
      ]

  IsReal-if : (b : Bool) (v : Json N) → IsReal v → IsRealIfSome (if b then some v else none)
  IsReal-if true v one = one
  IsReal-if false v one = tt

  IsReal-and_then :
      (d : Option (Fields N)) → AreRealIfSome d → IsRealIfSome (and_then d λ m. some (obj m))
  IsReal-and_then none all = tt
  IsReal-and_then (some m) all = all

  merge_under-IsReal :
      (update : Fields N → Option (Fields N)) (empty : Bool) (slot : Option (Json N))
      → ((fs : Fields N) → HaveReal fs → AreRealIfSome (update fs))
      → IsRealIfSome slot
      → IsRealIfSome (merge_under update empty slot)
  merge_under-IsReal update empty none keeps one = IsReal-and_then (update end) (keeps end tt)
  merge_under-IsReal update empty (some (obj fs)) keeps one =
      IsReal-and_then (update fs) (keeps fs one)
  merge_under-IsReal update empty (some null) keeps one = IsReal-if empty null one
  merge_under-IsReal update empty (some (bool b)) keeps one = IsReal-if empty (bool b) one
  merge_under-IsReal update empty (some (num x)) keeps one = IsReal-if empty (num x) one
  merge_under-IsReal update empty (some (str s)) keeps one = IsReal-if empty (str s) one
  merge_under-IsReal update empty (some (arr xs)) keeps one = IsReal-if empty (arr xs) one

  AreReal-and_then :
      (v : Option (Json N)) (f : Json N → Option (Fields N))
      → IsRealIfSome v
      → ((w : Json N) → IsReal w → AreRealIfSome (f w))
      → AreRealIfSome (and_then v f)
  AreReal-and_then none f one keeps = tt
  AreReal-and_then (some w) f one keeps = keeps w one

  deep_update-AreReal :
      (d patch : Fields N) → HaveReal d → HaveReal patch → AreRealIfSome (deep_update d patch)
  unfolding deep_update
  deep_update-AreReal d end real patch = real
  deep_update-AreReal d (field k null rest) real (one, others) =
      deep_update-AreReal (put k null d) rest (HaveReal-put k null d one real) others
  deep_update-AreReal d (field k (bool b) rest) real (one, others) =
      deep_update-AreReal (put k (bool b) d) rest (HaveReal-put k (bool b) d one real) others
  deep_update-AreReal d (field k (num x) rest) real (one, others) =
      deep_update-AreReal (put k (num x) d) rest (HaveReal-put k (num x) d one real) others
  deep_update-AreReal d (field k (str s) rest) real (one, others) =
      deep_update-AreReal (put k (str s) d) rest (HaveReal-put k (str s) d one real) others
  deep_update-AreReal d (field k (arr xs) rest) real (one, others) =
      deep_update-AreReal (put k (arr xs) d) rest (HaveReal-put k (arr xs) d one real) others
  deep_update-AreReal d (field k (obj inner) rest) real (one, others) =
      AreReal-and_then (merge_under (λ fs. deep_update fs inner) (is_empty inner) (get k d))
        (λ m. deep_update (put k m d) rest)
        (merge_under-IsReal (λ fs. deep_update fs inner) (is_empty inner) (get k d)
          (λ fs all. deep_update-AreReal fs inner all one) (IsReal-get k d real))
        (λ m all. deep_update-AreReal (put k m d) rest (HaveReal-put k m d all real) others)

module _ {N : Type 0} ⦃o : Num N⦄ where
  -- What is kept after a patch, from the document before it.
  abbrev pub Stays : Applied N → Type 0
  Stays (changed paths doc) = HaveReal doc
  Stays read_only = Unit
  Stays failed = Unit

  Stays-merged_into :
      (paths : List (List String)) (m : Option (Fields N))
      → AreRealIfSome m
      → Stays (merged_into paths m)
  Stays-merged_into paths none all = tt
  Stays-merged_into paths (some m) all = all

  Stays-if : (b : Bool) (x y : Applied N) → Stays x → Stays y → Stays (if b then x else y)
  Stays-if true x y one other = one
  Stays-if false x y one other = other

  -- A patch never brings the sentinel into the settings, whatever a client sends: if it stood
  -- nowhere outside the lists of the settings, it stands nowhere outside the lists of what is kept.
  pub apply_patch-Stays :
      (allow_protected : Bool) (doc patch : Fields N)
      → HaveReal doc
      → Stays (apply_patch allow_protected doc patch)
  unfolding apply_patch
  apply_patch-Stays allow_protected doc patch real =
      let stripped = strip_sentinels patch in
      let paths = flatten_changes doc stripped in
      Stays-if (not allow_protected && is_protected stripped) read_only
        (if is_nil paths then changed [] doc else merged_into paths (deep_update doc stripped)) tt
        (Stays-if (is_nil paths) (changed [] doc) (merged_into paths (deep_update doc stripped))
          real
          (Stays-merged_into paths (deep_update doc stripped)
            (deep_update-AreReal doc stripped real (strip_sentinels-IsReal patch))))
