-- ===== src/Bridge/Cooks/Stretch.antt =====
-- A cook from its start to its end, as the ticks of the bridge see it (bridge/sync.py).
use text.Mathlib.TextPositions.{eq_refl}
use mathlib.Core.List.{append-nil, append_assoc}
use fire_ai.Prelude.{
  ℕ, suc, ◌<◌, ◌≡◌, refl, sym, ap, ◌∙◌, subst, String, Bool, true, false, Option, none, some, List,
  [], ◌∷◌, ◌++◌, length, leb, ◌||◌, if◌then◌else◌, arith, All,
}
use fire_ai.Prelude.Num.{Num, ◌≤?◌, ◌-!◌, #}
use fire_ai.Types.{Mode}
use fire_ai.Bridge.Cooks.{
  samples_per_chunk, sample_flush_s, Row, Snapshot, Tracking, Call, flush_into, flush_samples,
  row_of, is_due, is_over, cook_name_of, start_cook, end_cook, sample, track_cook, track_all,
  is_cooking,
}
use fire_ai.Bridge.Cooks.Archive.{concat_upto, Tracks, flush_into-IsFlushed}

module _ {N : Type 0} ⦃o : Num N⦄ (labels : List String) where
  -- The rows of a stretch of ticks: one at each tick that is an interval after the last row.
  unfoldable pub taken : N → List (Call N × Snapshot N) → List (Row N)
  taken last [] = []
  taken last ((c, snap) ∷ rest) =
      let later = taken c.clock_sample rest in
      let same = taken last rest in if is_due c last then row_of c snap labels ∷ later else same

-- The tracker follows a cook: its rows, a buffer with room, its labels, the time of the last row.
pub record Follows {N : Type 0} (id : String) (probes : List String) (at : N) (rows : List (Row N))
    (s : Tracking N) : Type 0 where
  pub tracks : Tracks id s rows
  pub room : length s.cook.buffer < samples_per_chunk
  pub labels : s.cook.probe_labels ≡ probes
  pub last : s.cook.last_sample_at ≡ at

append-cons-ne-nil : {A : Type 0} (xs : List A) (x : A) → ¬ (xs ++ x ∷ [] ≡ [])
append-cons-ne-nil [] x e = cc
append-cons-ne-nil (y ∷ ys) x e = cc

module _ {N : Type 0} ⦃o : Num N⦄ (id : String) (labels : List String) where
  flush_into-cook :
      (c : Call N) (buffer : List (Row N)) (s : Tracking N)
      → ((flush_into c id buffer s).cook.probe_labels ≡ s.cook.probe_labels)
        × ((flush_into c id buffer s).cook.last_sample_at ≡ s.cook.last_sample_at)
  unfolding flush_into
  flush_into-cook c buffer s = ground arith

  flush_samples-flush_into :
      (c : Call N) (s : Tracking N)
      → s.cook.cook_id ≡ some id
      → flush_samples c s ≡ flush_into c id s.cook.buffer s
  unfolding flush_samples
  flush_samples-flush_into c s h = rw h

  flush_or_not :
      (c : Call N) (b : Bool) (last : N) (rows : List (Row N)) (s : Tracking N)
      → Tracks id s rows
      → (b ≡ false → length s.cook.buffer < samples_per_chunk)
      → s.cook.probe_labels ≡ labels
      → s.cook.last_sample_at ≡ last
      → Follows id labels last rows (if b then flush_samples c s else s)
  flush_or_not c true last rows s t r l a = rw (flush_samples-flush_into c s t.active) (
      let (tracks, room, stored) = flush_into-IsFlushed c id s rows s.cook.buffer refl t in
      let (same_labels, same_last) = flush_into-cook c s.cook.buffer s in
      record { tracks = tracks; room = room; labels = same_labels ∙ l; last = same_last ∙ a })
  flush_or_not c false last rows s t r l a = record {
    tracks = t;
    room = r refl;
    labels = l;
    last = a;
  }

  buffered-Tracks :
      (c : Call N) (row : Row N) (rows : List (Row N)) (s : Tracking N)
      → Tracks id s rows
      → Tracks id
          (record s {
            cook = record s.cook {
              last_sample_at = c.clock_sample;
              buffer = s.cook.buffer ++ row ∷ [];
            };
          })
          (rows ++ row ∷ [])
  buffered-Tracks c row rows s t = record {
    active = t.active;
    holds = record {
      whole =
          sym (append_assoc _ s.cook.buffer (row ∷ []))
          ∙ ap (λ (l : List (Row N)). l ++ row ∷ []) t.holds.whole;
      unopened = λ e. absurd (append-cons-ne-nil s.cook.buffer row e);
      later = t.holds.later;
    };
  }

  sample-Follows :
      (c : Call N) (snap : Snapshot N) (last : N) (rows : List (Row N)) (s : Tracking N)
      → Follows id labels last rows s
      → Follows id labels
          (if is_due c last then c.clock_sample else last)
          (rows ++ (if is_due c last then row_of c snap labels ∷ [] else []))
          (sample c snap s)
  unfolding sample
  sample-Follows c snap last rows s h =
      subst
        (λ (ls : List String).
          Follows id labels (if is_due c last then c.clock_sample else last)
            (rows ++ (if is_due c last then row_of c snap ls ∷ [] else [])) (sample c snap s))
        h.labels
        (subst
          (λ (a : N).
            Follows id labels (if is_due c a then c.clock_sample else last)
              (rows ++ (if is_due c a then row_of c snap s.cook.probe_labels ∷ [] else []))
              (sample c snap s))
          h.last (by_due (is_due c s.cook.last_sample_at)))
    where
      by_due :
          (due : Bool)
          → Follows id labels
              (if due then c.clock_sample else last)
              (rows ++ (if due then row_of c snap s.cook.probe_labels ∷ [] else []))
              (if due
                then (let buffer = s.cook.buffer ++ row_of c snap s.cook.probe_labels ∷ [] in
                    let s' = record s {
                      cook = record s.cook { last_sample_at = c.clock_sample; buffer = buffer };
                    } in
                    if leb samples_per_chunk (length buffer)
                      || (# sample_flush_s ≤? (c.clock_sample -! s.cook.last_flush_at))
                    then flush_samples c s'
                    else s')
                else s)
      by_due true =
          flush_or_not c _ c.clock_sample _ _
            (buffered-Tracks c (row_of c snap s.cook.probe_labels) rows s h.tracks)
            (λ e. ground arith) h.labels refl
      by_due false =
          subst (λ (l : List (Row N)). Follows id labels last l s) (sym (append-nil rows)) h

  track_cook-sample :
      (c : Call N) (snap : Snapshot N) (s : Tracking N)
      → is_cooking snap.mode ≡ true
      → s.cook.cook_id ≡ some id
      → track_cook c snap s ≡ sample c snap s
  unfolding track_cook
  track_cook-sample c snap s k a = ground arith

  track_all-Follows :
      (ticks : List (Call N × Snapshot N)) (last : N) (rows : List (Row N)) (s : Tracking N)
      → All (λ (t : Call N × Snapshot N). is_cooking t.1.mode ≡ true) ticks
      → Follows id labels last rows s
      → (at : N) × Follows id labels at (rows ++ taken labels last ticks) (track_all ticks s)
  unfolding track_all taken
  track_all-Follows [] last rows s k h =
      (last, subst (λ (l : List (Row N)). Follows id labels last l s) (sym (append-nil rows)) h)
  track_all-Follows ((c, snap) ∷ ticks) last rows s k h =
      let after = sample-Follows c snap last rows s h in
      let at = if is_due c last then c.clock_sample else last in
      let row = if is_due c last then row_of c snap labels ∷ [] else [] in
      let (end, ih) = track_all-Follows ticks at (rows ++ row) (sample c snap s) k.1 after in
      (
        end,
        rw (track_cook-sample c snap s k.0 h.tracks.active) (
            subst
              (λ (l : List (Row N)). Follows id labels end l (track_all ticks (sample c snap s)))
              (sym (regroup (is_due c last))) ih),
      )
    where
      regroup :
          (due : Bool)
          → rows
              ++ (if due
                  then row_of c snap labels ∷ taken labels c.clock_sample ticks
                  else taken labels last ticks)
            ≡ (rows ++ (if due then row_of c snap labels ∷ [] else []))
              ++ taken labels (if due then c.clock_sample else last) ticks
      regroup true = sym (append_assoc rows (row_of c snap labels ∷ []) _)
      regroup false =
          ap (λ (l : List (Row N)). l ++ taken labels last ticks) (sym (append-nil rows))

module _ {N : Type 0} ⦃o : Num N⦄ (c : Call N) (snap : Snapshot N) (s : Tracking N) where
  start_cook-Follows :
      ((j : ℕ) → s.samples (cook_name_of c snap) j ≡ [])
      → Follows (cook_name_of c snap) snap.labels (# 0) [] (start_cook c snap s)
  unfolding start_cook
  start_cook-Follows new = record {
    tracks = record {
      active = refl;
      holds = record { whole = refl; unopened = λ e. new 0; later = λ j l. new j };
    };
    room = omega arith;
    labels = refl;
    last = refl;
  }

  track_cook-start :
      is_cooking snap.mode ≡ true
      → s.cook.cook_id ≡ none
      → track_cook c snap s ≡ sample c snap (start_cook c snap s)
  unfolding track_cook start_cook
  track_cook-start k a = ground arith

  is_over-is_cooking : (m : Option Mode) → is_over m ≡ true → is_cooking m ≡ false
  is_over-is_cooking m h = ground arith

  end_cook-samples :
      ((end_cook c snap.mode s).samples ≡ (flush_samples c s).samples)
      × ((end_cook c snap.mode s).cook.cook_id ≡ none)
  unfolding end_cook
  end_cook-samples = ground arith

  track_cook-end :
      {id : String}
      → is_over snap.mode ≡ true
      → s.cook.cook_id ≡ some id
      → track_cook c snap s ≡ end_cook c snap.mode s
  unfolding track_cook
  track_cook-end over a =
      let k = is_over-is_cooking snap.mode over in let none_left = end_cook-samples in ground arith

  end_cook-stored :
      (id : String) (labels : List String) (last : N) (rows : List (Row N))
      → is_over snap.mode ≡ true
      → Follows id labels last rows s
      → (n : ℕ) × (concat_upto n ((track_cook c snap s).samples id) ≡ rows)
        × ((track_cook c snap s).cook.cook_id ≡ none)
  end_cook-stored id labels last rows over h =
      let (tracks, room, stored) = flush_into-IsFlushed c id s rows s.cook.buffer refl h.tracks in
      let flushed = flush_samples-flush_into id labels c s h.tracks.active in
      rw (track_cook-end over h.tracks.active) (
        suc (flush_into c id s.cook.buffer s).cook.chunk_index,
        rw (end_cook-samples.0, flushed) stored,
        end_cook-samples.1,
      )

module _ {N : Type 0} ⦃o : Num N⦄ where
  -- A cook that starts under an id with no documents, goes on for any number of ticks, and ends: all
  -- rows that were due, the first tick's included, stand in its sample documents in order, and the
  -- tracker follows no cook.
  pub track_all-archive :
      (c : Call N) (snap : Snapshot N) (ticks : List (Call N × Snapshot N)) (c' : Call N)
      (snap' : Snapshot N) (s : Tracking N)
      → s.cook.cook_id ≡ none
      → ((j : ℕ) → s.samples (cook_name_of c snap) j ≡ [])
      → All (λ (t : Call N × Snapshot N). is_cooking t.1.mode ≡ true) ((c, snap) ∷ ticks)
      → is_over snap'.mode ≡ true
      → let s' = track_cook c' snap' (track_all ((c, snap) ∷ ticks) s) in
        (n : ℕ) × (concat_upto n (s'.samples (cook_name_of c snap))
          ≡ taken snap.labels (# 0) ((c, snap) ∷ ticks))
        × (s'.cook.cook_id ≡ none)
  unfolding track_all
  track_all-archive c snap ticks c' snap' s idle new cooking over =
      let begun = start_cook-Follows c snap s new in
      let same =
        track_cook-start c snap s cooking.0 idle
        ∙ sym (
            track_cook-sample (cook_name_of c snap) snap.labels c snap (start_cook c snap s)
              cooking.0 begun.tracks.active) in
      let (at, all) =
        track_all-Follows (cook_name_of c snap) snap.labels ((c, snap) ∷ ticks) (# 0) []
          (start_cook c snap s) cooking begun in
      let whole =
        subst
          (λ (u : Tracking N).
            Follows (cook_name_of c snap) snap.labels at
              (taken snap.labels (# 0) ((c, snap) ∷ ticks)) (track_all ticks u))
          (sym same) all in
      end_cook-stored c' snap' (track_all ((c, snap) ∷ ticks) s) (cook_name_of c snap) snap.labels
        at _ over whole

  -- A bridge that starts anew during a cook finds the same id: at the first tick with a due row and
  -- the flush at the end of its run, the first sample document holds that row alone, whatever the
  -- bridge before it had written there.
  pub restart-samples :
      (c c' : Call N) (snap : Snapshot N) (s : Tracking N)
      → s.cook.cook_id ≡ none
      → is_cooking snap.mode ≡ true
      → is_due c (# 0) ≡ true
      → (flush_samples c' (track_cook c snap s)).samples (cook_name_of c snap) 0
        ≡ row_of c snap snap.labels ∷ []
  unfolding start_cook sample flush_samples flush_into
  restart-samples c c' snap s idle cooking due =
      rw (track_cook-start c snap s cooking idle)
        (let same = eq_refl (cook_name_of c snap) in ground arith)
