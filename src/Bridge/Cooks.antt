-- ===== src/Bridge/Cooks.antt =====
-- The archive of cooks, bridge/sync.py: `CookTracker`, `_track_cook`, `_start_cook`, `_sample`,
-- `flush_samples` and `_end_cook`. The documents are what Firestore keeps: a `set` replaces one.
-- A write that fails is not modelled: it raises, and the tick ends there.
pub mod Archive
pub mod Stretch
use text.Mathlib.Text.{◌==◌ as str_eq}
use fire_ai.Prelude.{
  ℕ, ◌+◌, String, Bool, true, false, not, ◌&&◌, Option, none, some, List, [], ◌∷◌, ◌++◌, map,
  length, leb, ◌||◌, if◌then◌else◌,
}
use fire_ai.Prelude.Num.{Num, ◌<?◌, ◌≤?◌, ◌=?◌, ◌-!◌, ◌*!◌, #}
use fire_ai.Types.{Mode, stop, error, monitor, manual}

abbrev pub samples_per_chunk : ℕ
samples_per_chunk = 360

abbrev pub sample_flush_s : ℕ
sample_flush_s = 120

pub record Row (N : Type 0) : Type 0 where
  pub t : N
  pub sp : N
  pub mode : Option Mode
  pub p : Option N
  pub f : List (Option N)

-- What the tracker reads of `core_state.snapshot()`.
pub record Snapshot (N : Type 0) : Type 0 where
  pub mode : Option Mode
  pub timestamp : Option N  -- `startup.timestamp`
  pub ts : Option N
  pub setpoint : N
  pub labels : List String  -- of the probes that are not of type 'Aux'
  pub primary : List (String × N)
  pub food : List (String × N)

pub record CookTracker (N : Type 0) : Type 0 where
  pub cook_id : Option String
  pub started_at : N
  pub chunk_index : ℕ
  pub buffer : List (Row N)
  pub last_sample_at : N
  pub last_flush_at : N
  pub probe_labels : List String

pub data CookStatus : Type 0 where
  active done failed : CookStatus

-- grills/{id}/cooks/{cook}
pub record CookDoc (N : Type 0) : Type 0 where
  pub started_at : Option N
  pub ended_at : Option N
  pub status : CookStatus

-- The documents by cook, and the rows of the sample documents by cook and chunk; no document is [].
pub record Tracking (N : Type 0) : Type 0 where
  pub cook : CookTracker N
  pub cooks : String → Option (CookDoc N)
  pub samples : String → ℕ → List (Row N)

-- The clock at its readings in one call, the sample interval of the settings, and the text
-- `f'c_{int(ts)}'`.
pub record Call (N : Type 0) : Type 0 where
  pub clock_started : N
  pub clock_opened : N
  pub clock_sample : N
  pub clock_flush : N
  pub clock_ended : N
  pub sample_interval_s : N
  pub cook_name : N → String

-- The value of a key is replaced.
abbrev pub update : {A : Type 0} → String → A → (String → A) → String → A
update key value f k = if str_eq key k then value else f k

abbrev pub update_at : {A : Type 0} → ℕ → A → (ℕ → A) → ℕ → A
update_at i value f j = if leb i j && leb j i then value else f j

-- `mode not in ('Stop', 'Error', 'Monitor', 'Manual', None)`
abbrev pub is_cooking : Option Mode → Bool
is_cooking none = false
is_cooking (some stop) = false
is_cooking (some error) = false
is_cooking (some monitor) = false
is_cooking (some manual) = false
is_cooking (some _) = true

abbrev is_error : Option Mode → Bool
is_error (some error) = true
is_error _ = false

abbrev pub is_over : Option Mode → Bool
is_over (some stop) = true
is_over (some error) = true
is_over _ = false

abbrev pub is_some : Option String → Bool
is_some (some x) = true
is_some none = false

abbrev first : {N : Type 0} → List (String × N) → Option N
first [] = none
first ((label, value) ∷ rest) = some value

abbrev food_of : {N : Type 0} → List (String × N) → String → Option N
food_of [] label = none
food_of ((l, value) ∷ rest) label = if str_eq l label then some value else food_of rest label

abbrev rest_of : List String → List String
rest_of [] = []
rest_of (x ∷ xs) = xs

module _ {N : Type 0} ⦃o : Num N⦄ where
  -- `CookTracker()`
  abbrev pub no_cook : CookTracker N
  no_cook = record {
    cook_id = none;
    started_at = # 0;
    chunk_index = 0;
    buffer = [];
    last_sample_at = # 0;
    last_flush_at = # 0;
    probe_labels = [];
  }

  -- `value or default`
  abbrev pub or_else : Option N → N → N
  or_else none d = d
  or_else (some x) d = if x =? # 0 then d else x

  abbrev pub cook_name_of : Call N → Snapshot N → String
  cook_name_of c snap = c.cook_name (or_else snap.timestamp c.clock_started)

  unfoldable pub start_cook : Call N → Snapshot N → Tracking N → Tracking N
  start_cook c snap s =
      let ts = or_else snap.timestamp c.clock_started in
      record s {
        cook = record {
          cook_id = some (c.cook_name ts);
          started_at = ts;
          chunk_index = 0;
          buffer = [];
          last_sample_at = # 0;
          last_flush_at = c.clock_opened;
          probe_labels = snap.labels;
        };
        cooks =
            update (c.cook_name ts)
              (some (record {
                started_at = some (o.trunc (ts *! # 1000));
                ended_at = none;
                status = active;
              }))
              s.cooks;
      }

  unfoldable pub flush_into : Call N → String → List (Row N) → Tracking N → Tracking N
  flush_into c id [] s = s
  flush_into c id (row ∷ rows) s =
      let full = leb samples_per_chunk (length (row ∷ rows)) in
      record s {
        cook = record s.cook {
          chunk_index = if full then s.cook.chunk_index + 1 else s.cook.chunk_index;
          buffer = if full then [] else row ∷ rows;
          last_flush_at = c.clock_flush;
        };
        samples = update id (update_at s.cook.chunk_index (row ∷ rows) (s.samples id)) s.samples;
      }

  unfoldable pub flush_samples : Call N → Tracking N → Tracking N
  unfolding flush_into
  flush_samples c s = elim s.cook.cook_id [ none ↦ s | some id ↦ flush_into c id s.cook.buffer s ]

  unfoldable pub row_of : Call N → Snapshot N → List String → Row N
  row_of c snap labels = record {
    t = o.trunc (or_else snap.ts (c.clock_sample *! # 1000));
    sp = snap.setpoint;
    mode = snap.mode;
    p = first snap.primary;
    f = map (food_of snap.food) (rest_of labels);
  }

  unfoldable pub is_due : Call N → N → Bool
  is_due c last = not ((c.clock_sample -! last) <? c.sample_interval_s)

  unfoldable pub sample : Call N → Snapshot N → Tracking N → Tracking N
  unfolding flush_samples
  sample c snap s =
      if is_due c s.cook.last_sample_at
      then (let buffer = s.cook.buffer ++ row_of c snap s.cook.probe_labels ∷ [] in
          let s' = record s {
            cook = record s.cook { last_sample_at = c.clock_sample; buffer = buffer };
          } in
          if leb samples_per_chunk (length buffer)
            || (# sample_flush_s ≤? (c.clock_sample -! s.cook.last_flush_at))
          then flush_samples c s'
          else s')
      else s

  -- `set(…, merge=True)`: the fields that are not named stay.
  abbrev end_doc : Call N → Bool → Option (CookDoc N) → CookDoc N
  end_doc c bad old = record {
    started_at = elim old [ none ↦ none | some d ↦ d.started_at ];
    ended_at = some (o.trunc (c.clock_ended *! # 1000));
    status = if bad then failed else done;
  }

  unfoldable pub end_cook : Call N → Option Mode → Tracking N → Tracking N
  end_cook c mode s =
      let s' = flush_samples c s in
      elim s'.cook.cook_id [
        | none ↦ record s' { cook = no_cook }
        | some id ↦ record s' {
          cook = no_cook;
          cooks = update id (some (end_doc c (is_error mode) (s'.cooks id))) s'.cooks;
        }
      ]

  unfoldable pub track_cook : Call N → Snapshot N → Tracking N → Tracking N
  track_cook c snap s =
      let cooking = is_cooking snap.mode in
      let s' =
        if cooking && not (is_some s.cook.cook_id)
        then start_cook c snap s
        else if not cooking && is_some s.cook.cook_id && is_over snap.mode
        then end_cook c snap.mode s
        else s in
      if is_some s'.cook.cook_id && cooking then sample c snap s' else s'

  -- The ticks of a stretch of time.
  unfoldable pub track_all : List (Call N × Snapshot N) → Tracking N → Tracking N
  unfolding track_cook
  track_all [] s = s
  track_all ((c, snap) ∷ rest) s = track_all rest (track_cook c snap s)
