-- ===== src/Bridge/Cooks/Archive.antt =====
-- The archive of a cook holds every row that was sampled (bridge/sync.py).
use text.Mathlib.TextPositions.{eq_refl}
use mathlib.Core.List.{append-nil}
use fire_ai.Prelude.{
  ℕ, zero, suc, ◌+◌, ◌≤◌, ◌<◌, ◌≡◌, refl, sym, ap, ◌∙◌, subst, String, Bool, true, false, some,
  List, [], ◌∷◌, ◌++◌, length, leb, if◌then◌else◌, arith,
}
use fire_ai.Prelude.Num.{Num}
use fire_ai.Bridge.Cooks.{samples_per_chunk, Row, Tracking, Call, update, update_at, flush_into}

module _ {A : Type 0} where
  -- The chunks below an index, one after the other.
  abbrev pub concat_upto : ℕ → (ℕ → List A) → List A
  concat_upto zero f = []
  concat_upto (suc n) f = concat_upto n f ++ f n

  pub concat_upto-update_at :
      (n i : ℕ) (v : List A) (f : ℕ → List A)
      → n ≤ i
      → concat_upto n (update_at i v f) ≡ concat_upto n f
  concat_upto-update_at zero i v f h = refl
  concat_upto-update_at (suc n) i v f h = ground (arith, concat_upto-update_at n i v f)

  update_at_self : (i : ℕ) (v : List A) (f : ℕ → List A) → update_at i v f i ≡ v
  update_at_self i v f = ground arith

  update_at_later : (i j : ℕ) (v : List A) (f : ℕ → List A) → i < j → update_at i v f j ≡ f j
  update_at_later i j v f h = ground arith

update_self : {A : Type 0} (key : String) (v : A) (f : String → A) → update key v f key ≡ v
update_self key v f = rw eq_refl

-- The documents of a cook and the buffer hold the rows that were sampled. Where the buffer is empty
-- the open chunk has no document, and a later one never has.
pub record Holds {A : Type 0} (index : ℕ) (buffer : List A) (f : ℕ → List A) (rows : List A)
    : Type 0 where
  pub whole : concat_upto index f ++ buffer ≡ rows
  pub unopened : buffer ≡ [] → f index ≡ []
  pub later : (j : ℕ) → index < j → f j ≡ []

module _ {A : Type 0} (index : ℕ) (f : ℕ → List A) (rows : List A) where
  -- All rows stand in the documents up to the open one.
  abbrev pub Stored : ℕ → (ℕ → List A) → Type 0
  Stored i g = concat_upto (suc i) g ≡ rows

  written :
      (buffer : List A)
      → Holds index buffer f rows
      → concat_upto (suc index) (update_at index buffer f) ≡ rows
  written buffer h =
      rw (concat_upto-update_at index index buffer f (omega arith), update_at_self index buffer f)
        h.whole

  untouched :
      (buffer : List A) (j : ℕ)
      → Holds index buffer f rows
      → index < j
      → update_at index buffer f j ≡ []
  untouched buffer j h l = update_at_later index j buffer f l ∙ h.later j l

  closed-Holds :
      (buffer : List A)
      → Holds index buffer f rows
      → let g = update_at index buffer f in Holds (suc index) [] g rows × Stored (suc index) g
  closed-Holds buffer h =
      let next = untouched buffer (suc index) h (omega arith) in
      let all = append-nil _ ∙ written buffer h in
      (
        record {
          whole = all;
          unopened = λ e. next;
          later = λ j l. untouched buffer j h (omega arith);
        },
        ap (λ (end : List A). concat_upto (suc index) (update_at index buffer f) ++ end) next ∙ all,
      )

  open-Holds :
      (x : A) (xs : List A)
      → Holds index (x ∷ xs) f rows
      → let g = update_at index (x ∷ xs) f in Holds index (x ∷ xs) g rows × Stored index g
  open-Holds x xs h = (
    record {
      whole =
          ap (λ (l : List A). l ++ x ∷ xs)
            (concat_upto-update_at index index (x ∷ xs) f (omega arith))
          ∙ h.whole;
      unopened = λ e. cc;
      later = λ j l. untouched (x ∷ xs) j h l;
    },
    written (x ∷ xs) h,
  )

  flushed-Holds :
      (full : Bool) (x : A) (xs : List A)
      → Holds index (x ∷ xs) f rows
      → let g = update_at index (x ∷ xs) f in
        let index' = if full then index + 1 else index in
        Holds index' (if full then [] else x ∷ xs) g rows × Stored index' g
  flushed-Holds true x xs h =
      subst
        (λ (i : ℕ).
          Holds i [] (update_at index (x ∷ xs) f) rows × Stored i (update_at index (x ∷ xs) f))
        (omega arith) (closed-Holds (x ∷ xs) h)
  flushed-Holds false x xs h = open-Holds x xs h

-- The tracker has this cook, and its rows.
pub record Tracks {N : Type 0} (id : String) (s : Tracking N) (rows : List (Row N)) : Type 0 where
  pub active : s.cook.cook_id ≡ some id
  pub holds : Holds s.cook.chunk_index s.cook.buffer (s.samples id) rows

room :
    {A : Type 0} (xs : List A)
    → length (if leb samples_per_chunk (length xs) then [] else xs) < samples_per_chunk
room xs = ground arith

module _ {N : Type 0} ⦃o : Num N⦄ (c : Call N) (id : String) where
  abbrev pub IsFlushed : Tracking N → List (Row N) → Type 0
  IsFlushed s rows =
      Tracks id s rows
      × (length s.cook.buffer < samples_per_chunk)
      × (concat_upto (suc s.cook.chunk_index) (s.samples id) ≡ rows)

  pub flush_into-IsFlushed :
      (s : Tracking N) (rows buffer : List (Row N))
      → s.cook.buffer ≡ buffer
      → Tracks id s rows
      → IsFlushed (flush_into c id buffer s) rows
  unfolding flush_into
  flush_into-IsFlushed s rows [] e h =
      let is_new = h.holds.unopened e in
      (
        h,
        rw e (omega arith),
        ap (λ (l : List (Row N)). concat_upto s.cook.chunk_index (s.samples id) ++ l)
              (is_new ∙ sym e)
            ∙ h.holds.whole,
      )
  flush_into-IsFlushed s rows (x ∷ xs) e h =
      let f = s.samples id in
      let full = leb samples_per_chunk (length (x ∷ xs)) in
      let index' = if full then s.cook.chunk_index + 1 else s.cook.chunk_index in
      let buffer' = if full then [] else x ∷ xs in
      let old = subst (λ (b : List (Row N)). Holds s.cook.chunk_index b f rows) e h.holds in
      let (holds, stored) =
        subst
          (λ (g : ℕ → List (Row N)).
            Holds index' buffer' g rows × (concat_upto (suc index') g ≡ rows))
          (sym (update_self id (update_at s.cook.chunk_index (x ∷ xs) f) s.samples))
          (flushed-Holds s.cook.chunk_index f rows full x xs old) in
      (record { active = h.active; holds = holds }, room (x ∷ xs), stored)
