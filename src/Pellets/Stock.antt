-- ===== src/Pellets/Stock.antt =====
-- What every command keeps of the pellet database (core/library.py).
use text.Mathlib.Text.{◌==◌ as str_eq}
use text.Mathlib.TextEquality.{eq_iff}
use fire_ai.Prelude.{
  ℕ, ◌≤◌, String, ◌≡◌, refl, sym, Bool, true, false, not, none, some, List, [], ◌∷◌, All,
  if◌then◌else◌, arith,
}
use fire_ai.Prelude.Num.{Num, NumOrder, ◌≤?◌, #, min, max, le_refl}
use fire_ai.ControlWrites.{Redis}
use fire_ai.Pellets.{
  has_key, set_item, pop, PelletProfile, PelletDb, PelletStore, ProfileRequest, TextTools,
  PelletCall, load_profile, upsert_profile, delete_profile, set_lists, delete_log_entry, read_level,
  use_pellets, new_id, given_id, default_pellets, loaded_as, load_pellet_profile, entry_of,
  store_profile, upsert_as, upsert_pellet_profile, delete_pellet_profile, set_pellet_lists,
  pellet_call, pellet_calls,
}
use fire_ai.Pellets.Fresh.{has_key-pop}

module _ {ℓ} {A : Type ℓ} where
  has_key-set_item :
      (key other : String) (a : A) (d : List (String × A))
      → has_key other d ≡ true
      → has_key other (set_item key a d) ≡ true
  unfolding has_key set_item
  has_key-set_item key other a [] h = cc
  has_key-set_item key other a ((k, b) ∷ rest) h =
      let later = has_key-set_item key other a rest in ground arith

  has_key-new :
      (key : String) (a : A) (d : List (String × A)) → has_key key (set_item key a d) ≡ true
  unfolding has_key set_item
  has_key-new key a [] = let same = (eq_iff key key).1 refl in ground arith
  has_key-new key a ((k, b) ∷ rest) = let later = has_key-new key a rest in ground arith

  module _ {κ} (P : String × A → Type κ) where
    All-pop : (key : String) (d : List (String × A)) → All P d → All P (pop key d)
    unfolding pop
    All-pop key [] h = tt
    All-pop key ((k, a) ∷ rest) (p, ps) =
        elim (str_eq k key) as (λ b. All P (if b then rest else (k, a) ∷ pop key rest)) [
          | true ↦ ps
          | false ↦ (p, All-pop key rest ps)
        ]

    All-set_item :
        (key : String) (a : A) (d : List (String × A))
        → ((k : String) → k ≡ key → P (k, a))
        → All P d
        → All P (set_item key a d)
    unfolding set_item
    All-set_item key a [] new h = (new key refl, tt)
    All-set_item key a ((k, b) ∷ rest) new (p, ps) =
        let later = All-set_item key a rest new ps in
        let same = (eq_iff k key).0 in
        elim (str_eq k key)
            as (λ c.
              (c ≡ true → k ≡ key)
              → All P (if c then (k, a) ∷ rest else (k, b) ∷ set_item key a rest)) [
                | true ↦ λ e. (new k (e refl), ps)
                | false ↦ λ e. (p, later)
              ]
          same

module _ {N : Type 0} ⦃o : Num N⦄ where
  -- Filed under its id, with a rating from 0 to 5.
  pub record IsFiled (item : String × PelletProfile N) : Type 0 where
    pub same : item.1.id ≡ item.0
    pub low : (# 0 ≤? item.1.rating) ≡ true
    pub high : (item.1.rating ≤? # 5) ≡ true

  -- The profile that is loaded is in the archive, whose profiles are filed.
  pub record IsStocked (db : PelletDb N) : Type 0 where
    pub loaded : has_key db.pelletid db.archive ≡ true
    pub filed : All IsFiled db.archive

module _ {N : Type 0} ⦃o : Num N⦄ (ord : NumOrder o)
    (literals : (a b : ℕ) → a ≤ b → o.le (o.lit a) (o.lit b) ≡ true) (tools : TextTools) where
  rating_bounds :
      (x : N)
      → ((# 0 ≤? max (# 0) (min (# 5) x)) ≡ true) × ((max (# 0) (min (# 5) x) ≤? # 5) ≡ true)
  rating_bounds x =
      let zero_five = literals 0 5 (omega arith) in
      ground (
        arith,
        zero_five,
        le_refl ord (# 0),
        le_refl ord (# 5),
        ord.lt-le (# 0) (min (# 5) x),
        ord.lt-le x (# 5),
      )

  load-IsStocked :
      (now id : String) (s : PelletStore N)
      → IsStocked s.db
      → IsStocked (load_pellet_profile now id s).1.db
  unfolding load_pellet_profile
  load-IsStocked now id s h =
      elim (has_key id s.db.archive)
          as (λ b.
            has_key id s.db.archive ≡ b
            → IsStocked (if not b then (false, s) else loaded_as now id s).1.db) [
              | true ↦ λ e. record { loaded = e; filed = h.filed }
              | false ↦ λ e. h
            ]
        refl

  store-IsStocked :
      (pid : String) (r : ProfileRequest N) (s : PelletStore N)
      → IsStocked s.db
      → IsStocked (store_profile (entry_of tools pid r) s).db
  unfolding store_profile entry_of
  store-IsStocked pid r s h = record {
    loaded = has_key-set_item pid s.db.pelletid _ s.db.archive h.loaded;
    filed =
        All-set_item IsFiled pid _ s.db.archive
          (λ k e.
            let (low, high) = rating_bounds (o.trunc r.rating) in
            record { same = sym e; low = low; high = high })
          h.filed;
  }

  upsert_as-IsStocked :
      (now pid : String) (r : ProfileRequest N) (load : Bool) (s : PelletStore N)
      → IsStocked s.db
      → IsStocked (upsert_as tools now pid r load s).1.db
  upsert_as-IsStocked now pid r true s h = load-IsStocked now pid _ (store-IsStocked pid r s h)
  upsert_as-IsStocked now pid r false s h = store-IsStocked pid r s h

  upsert-IsStocked :
      (now : String) (candidates : ℕ → String) (r : ProfileRequest N) (load : Bool)
      (s : PelletStore N)
      → IsStocked s.db
      → IsStocked (upsert_pellet_profile tools now candidates r load s).1.db
  unfolding upsert_pellet_profile
  upsert-IsStocked now candidates r load s h =
      elim (given_id r.id)
        as (λ m.
          IsStocked
            (elim m as (λ k. Bool × PelletStore N) [
              | some pid ↦ upsert_as tools now pid r load s
              | none ↦ elim (new_id candidates s.db.archive) as (λ k. Bool × PelletStore N) [
                | none ↦ (false, s)
                | some pid ↦ upsert_as tools now pid r load s
              ]
            ]).1.db) [
              | some pid ↦ upsert_as-IsStocked now pid r load s h
              | none ↦
                  elim (new_id candidates s.db.archive)
                    as (λ m.
                      IsStocked
                        (elim m as (λ k. Bool × PelletStore N) [
                          | none ↦ (false, s)
                          | some pid ↦ upsert_as tools now pid r load s
                        ]).1.db) [ none ↦ h | some pid ↦ upsert_as-IsStocked now pid r load s h ]
            ]

  delete-IsStocked :
      (id : String) (s : PelletStore N)
      → IsStocked s.db
      → IsStocked (delete_pellet_profile id s).1.db
  unfolding delete_pellet_profile
  delete-IsStocked id s h =
      elim (str_eq id s.db.pelletid)
          as (λ b.
            (id ≡ s.db.pelletid → b ≡ true)
            → IsStocked
                (let r : Bool × PelletStore N =
                    if b
                    then (false, s)
                    else (true, record s { db = record s.db { archive = pop id s.db.archive } }) in
                  r.1).db) [
                    | true ↦ λ e. h
                    | false ↦ λ e. record {
                      loaded =
                          has_key-pop id s.db.pelletid s.db.archive
                            (λ q. let impossible = e q in cc) h.loaded;
                      filed = All-pop IsFiled id s.db.archive h.filed;
                    }
                  ]
        ((eq_iff id s.db.pelletid).1)

  pellet_call-IsStocked :
      (x : PelletCall N) (s : PelletStore N)
      → IsStocked s.db
      → IsStocked (pellet_call tools x s).1.db
  unfolding pellet_call set_pellet_lists
  pellet_call-IsStocked (load_profile now id) s h = load-IsStocked now id s h
  pellet_call-IsStocked (upsert_profile now candidates r load) s h =
      upsert-IsStocked now candidates r load s h
  pellet_call-IsStocked (delete_profile id) s h = delete-IsStocked id s h
  pellet_call-IsStocked (set_lists brands woods) s h = record { loaded = h.loaded; filed = h.filed }
  pellet_call-IsStocked (delete_log_entry t) s h = record { loaded = h.loaded; filed = h.filed }
  pellet_call-IsStocked (read_level level) s h = record { loaded = h.loaded; filed = h.filed }
  pellet_call-IsStocked (use_pellets time rate) s h = record { loaded = h.loaded; filed = h.filed }

  kept :
      (xs : List (PelletCall N)) (s : PelletStore N)
      → IsStocked s.db
      → IsStocked (pellet_calls tools xs s).db
  unfolding pellet_calls
  kept [] s h = h
  kept (x ∷ xs) s h = kept xs (pellet_call tools x s).1 (pellet_call-IsStocked x s h)

  default-IsStocked : (now id : String) → IsStocked (default_pellets {N = N} now id)
  unfolding default_pellets has_key
  default-IsStocked now id = record {
    loaded = let same = (eq_iff id id).1 refl in ground arith;
    filed = (
      record { same = refl; low = literals 0 4 (omega arith); high = literals 4 5 (omega arith) },
      tt,
    );
  }

  -- From the default database on, after any commands of the users and writes of the control process, the
  -- profile that is loaded is in the archive, and every profile there is filed under its id and rated
  -- from 0 to 5, where the literals are in order.
  pub pellet_calls-IsStocked :
      (now id : String) (xs : List (PelletCall N)) (r : Redis N)
      → IsStocked (pellet_calls tools xs (record { db = default_pellets now id; redis = r })).db
  pellet_calls-IsStocked now id xs r = kept xs _ (default-IsStocked now id)
