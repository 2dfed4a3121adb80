-- ===== src/Pellets.antt =====
-- The pellet database: `default_pellets` (common/common.py), its commands in core/library.py, and the
-- level and the usage that the control process writes (control.py). A dictionary is an association
-- list with each key once. Slices, `sorted` and the calendar are parameters.
pub mod Stock
pub mod Fresh
use text.Mathlib.Text.{◌==◌ as str_eq}
use fire_ai.Prelude.{
  ℕ, zero, suc, ◌+◌, String, Bool, true, false, not, ◌||◌, Option, none, some, List, [], ◌∷◌, ◌++◌,
  length, if◌then◌else◌,
}
use fire_ai.Prelude.Num.{Num, ◌+!◌, ◌*!◌, #, min, max}
use fire_ai.ControlWrites.{Assign, Redis, write_queued}

module _ {ℓ} {A : Type ℓ} where
  -- `key in d`
  unfoldable pub has_key : String → List (String × A) → Bool
  has_key key [] = false
  has_key key ((k, a) ∷ rest) = let later = has_key key rest in if str_eq k key then true else later

  -- `d[key] = value`
  unfoldable pub set_item : String → A → List (String × A) → List (String × A)
  set_item key value [] = (key, value) ∷ []
  set_item key value ((k, a) ∷ rest) =
      let later = set_item key value rest in
      if str_eq k key then (k, value) ∷ rest else (k, a) ∷ later

  -- `d.pop(key, None)`
  unfoldable pub pop : String → List (String × A) → List (String × A)
  pop key [] = []
  pop key ((k, a) ∷ rest) =
      let later = pop key rest in if str_eq k key then rest else (k, a) ∷ later

pub record PelletProfile (N : Type 0) : Type 0 where
  pub id : String
  pub brand : String
  pub wood : String
  pub rating : N
  pub comments : String

-- `current` has the fields from `pelletid` to `est_usage`; `lastupdated` is left out.
pub record PelletDb (N : Type 0) : Type 0 where
  pub pelletid : String
  pub hopper_level : N
  pub date_loaded : String
  pub est_usage : N
  pub woods : List String
  pub brands : List String
  pub archive : List (String × PelletProfile N)
  pub log : List (String × String)

-- The file of the database, and the queue of control writes.
pub record PelletStore (N : Type 0) : Type 0 where
  pub db : PelletDb N
  pub redis : Redis N

-- What a request gives of a profile; the keys that it lacks are filled in before.
pub record ProfileRequest (N : Type 0) : Type 0 where
  pub id : Option String
  pub brand : String
  pub wood : String
  pub rating : N
  pub comments : String

-- The functions of Python that are used: a text's first characters, whether a text is blank, and the
-- sorted list of a set of texts.
pub record TextTools : Type 0 where
  pub first : ℕ → String → String
  pub is_blank : String → Bool
  pub sorted_set : List String → List String

-- A command, or a write of the control process; `now` is the time to the second, and `candidates`
-- are the ids made of the time, with '01', '02', ... behind it.
pub data PelletCall (N : Type 0) : Type 0 where
  load_profile : (now profile_id : String) → PelletCall N
  upsert_profile :
      (now : String) → (candidates : ℕ → String) → ProfileRequest N → (load : Bool) → PelletCall N
  delete_profile : (profile_id : String) → PelletCall N
  set_lists : (brands woods : Option (List String)) → PelletCall N
  delete_log_entry : (when : String) → PelletCall N
  read_level : (level : N) → PelletCall N
  use_pellets : (auger_on_time auger_rate : N) → PelletCall N

unfoldable pub contains : String → List String → Bool
contains x [] = false
contains x (y ∷ ys) = let later = contains x ys in if str_eq y x then true else later

-- `if value not in l: l.append(value)`
abbrev add_new : String → List String → List String
add_new x xs = if contains x xs then xs else xs ++ x ∷ []

module _ {ℓ} {A : Type ℓ} where
  -- The loop that looks for an id that is new, from candidate `n` on.
  unfoldable pub search_id : (ℕ → String) → ℕ → ℕ → List (String × A) → Option String
  search_id candidates zero n archive = none
  search_id candidates (suc fuel) n archive =
      let later = search_id candidates fuel (suc n) archive in
      if has_key (candidates n) archive then later else some (candidates n)

  -- As many tries as the archive has profiles, and one more.
  unfoldable pub new_id : (ℕ → String) → List (String × A) → Option String
  unfolding search_id
  new_id candidates archive = search_id candidates (suc (length archive)) 0 archive

-- The texts that are not blank, cut, without doubles and in order.
unfoldable pub cut_all : TextTools → List String → List String
cut_all tools [] = []
cut_all tools (x ∷ xs) =
    let rest = cut_all tools xs in if tools.is_blank x then rest else tools.first 60 x ∷ rest

abbrev list_or : TextTools → Option (List String) → List String → List String
list_or tools none old = old
list_or tools (some xs) old = tools.sorted_set (cut_all tools xs)

-- `profile.get('id')`, where the empty text counts as none.
abbrev pub given_id : Option String → Option String
given_id none = none
given_id (some pid) = if str_eq pid "" then none else some pid

abbrev default_woods : List String
default_woods =
    "Alder" ∷ "Almond" ∷ "Apple" ∷ "Apricot" ∷ "Blend" ∷ "Competition" ∷ "Cherry" ∷ "Chestnut"
    ∷ "Hickory" ∷ "Lemon" ∷ "Maple" ∷ "Mesquite" ∷ "Mulberry" ∷ "Nectarine" ∷ "Oak" ∷ "Orange"
    ∷ "Peach" ∷ "Pear" ∷ "Plum" ∷ "Walnut" ∷ []

module _ {N : Type 0} ⦃o : Num N⦄ where
  unfoldable pub default_pellets : String → String → PelletDb N
  default_pellets now id = record {
    pelletid = id;
    hopper_level = # 100;
    date_loaded = now;
    est_usage = # 0;
    woods = default_woods;
    brands = "Generic" ∷ "Custom" ∷ [];
    archive =
        (
          id,
          record {
            id = id;
            brand = "Generic";
            wood = "Alder";
            rating = # 4;
            comments =
                "This is a placeholder profile.  Alder is generic and used in almost all pellets, regardless of the wood type indicated on the packaging.  It tends to burn consistently and produces a mild smoke.";
          },
        )
        ∷ [];
    log = (now, id) ∷ [];
  }

  abbrev pub loaded_as : String → String → PelletStore N → Bool × PelletStore N
  loaded_as now profile_id s = (
    true,
    record {
      db = record s.db {
        pelletid = profile_id;
        est_usage = # 0;
        date_loaded = now;
        log = set_item now profile_id s.db.log;
      };
      redis = write_queued (Assign.hopper_check true ∷ []) s.redis;
    },
  )

  -- A KeyError for an id that is not archived.
  unfoldable pub load_pellet_profile : String → String → PelletStore N → Bool × PelletStore N
  unfolding set_item write_queued
  load_pellet_profile now profile_id s =
      if not (has_key profile_id s.db.archive) then (false, s) else loaded_as now profile_id s

  unfoldable pub store_profile : PelletProfile N → PelletStore N → PelletStore N
  unfolding set_item contains
  store_profile e s = record s {
    db = record s.db {
      archive = set_item e.id e s.db.archive;
      brands = add_new e.brand s.db.brands;
      woods = add_new e.wood s.db.woods;
    };
  }

  -- A ValueError for the profile that is loaded.
  unfoldable pub delete_pellet_profile : String → PelletStore N → Bool × PelletStore N
  unfolding pop
  delete_pellet_profile profile_id s =
      if str_eq profile_id s.db.pelletid
      then (false, s)
      else (true, record s { db = record s.db { archive = pop profile_id s.db.archive } })

  module _ (tools : TextTools) where
    unfoldable pub entry_of : String → ProfileRequest N → PelletProfile N
    entry_of pid r = record {
      id = pid;
      brand = tools.first 60 r.brand;
      wood = tools.first 60 r.wood;
      rating = max (# 0) (min (# 5) (o.trunc r.rating));
      comments = tools.first 2000 r.comments;
    }

    abbrev pub upsert_as :
        String → String → ProfileRequest N → Bool → PelletStore N → Bool × PelletStore N
    upsert_as now pid r load s =
        let stored = store_profile (entry_of pid r) s in
        if load then load_pellet_profile now pid stored else (true, stored)

    -- An id that is given is taken as it is.
    unfoldable pub upsert_pellet_profile :
        String → (ℕ → String) → ProfileRequest N → Bool → PelletStore N → Bool × PelletStore N
    unfolding new_id entry_of store_profile load_pellet_profile
    upsert_pellet_profile now candidates r load s = elim (given_id r.id) [
      | some pid ↦ upsert_as now pid r load s
      | none ↦ elim (new_id candidates s.db.archive) [
        | none ↦ (false, s)
        | some pid ↦ upsert_as now pid r load s
      ]
    ]

    unfoldable pub set_pellet_lists :
        Option (List String) → Option (List String) → PelletStore N → PelletStore N
    unfolding cut_all
    set_pellet_lists brands woods s = record s {
      db = record s.db {
        brands = list_or tools brands s.db.brands;
        woods = list_or tools woods s.db.woods;
      };
    }

    unfoldable pub pellet_call : PelletCall N → PelletStore N → Bool × PelletStore N
    unfolding load_pellet_profile upsert_pellet_profile delete_pellet_profile set_pellet_lists pop
    pellet_call (load_profile now id) s = load_pellet_profile now id s
    pellet_call (upsert_profile now candidates r load) s =
        upsert_pellet_profile now candidates r load s
    pellet_call (delete_profile id) s = delete_pellet_profile id s
    pellet_call (set_lists brands woods) s = (true, set_pellet_lists brands woods s)
    pellet_call (delete_log_entry t) s =
        (true, record s { db = record s.db { log = pop t s.db.log } })
    pellet_call (read_level level) s =
        (true, record s { db = record s.db { hopper_level = level } })
    pellet_call (use_pellets time rate) s =
        (true, record s { db = record s.db { est_usage = s.db.est_usage +! time *! rate } })

    unfoldable pub pellet_calls : List (PelletCall N) → PelletStore N → PelletStore N
    pellet_calls [] s = s
    pellet_calls (x ∷ xs) s = pellet_calls xs (pellet_call x s).1
