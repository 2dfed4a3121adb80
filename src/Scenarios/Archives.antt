-- ===== src/Scenarios/Archives.antt =====
-- The theorems on the archive of cooks at concrete data.
use fire_ai.Prelude.{ℕ, ◌≡◌, refl, true, none, some, List, [], ◌∷◌}
use fire_ai.Prelude.Num.{nat_num}
use fire_ai.Types.{smoke, stop}
use fire_ai.Bridge.Cooks.{
  Snapshot, Tracking, Call, no_cook, is_due, row_of, track_cook, track_all, flush_samples,
}
use fire_ai.Bridge.Cooks.Archive.{concat_upto}
use fire_ai.Bridge.Cooks.Stretch.{taken, track_all-archive, restart-samples}

abbrev pub call_at : ℕ → Call ℕ
call_at now = record {
  clock_started = now;
  clock_opened = now;
  clock_sample = now;
  clock_flush = now;
  clock_ended = now;
  sample_interval_s = 10;
  cook_name = λ ts. "g1_c_400";
}

abbrev pub snapshot : Snapshot ℕ
snapshot = record {
  mode = some smoke;
  timestamp = some 400;
  ts = some 400000;
  setpoint = 225;
  labels = "Grill" ∷ "Probe1" ∷ [];
  primary = ("Grill", 180) ∷ [];
  food = ("Probe1", 90) ∷ [];
}

abbrev pub idle : Tracking ℕ
idle = record { cook = no_cook; cooks = λ id. none; samples = λ id j. [] }

-- A second row within the interval is not taken.
abbrev ticks : List (Call ℕ × Snapshot ℕ)
ticks = (call_at 505, snapshot) ∷ (call_at 640, snapshot) ∷ []

abbrev finished : Snapshot ℕ
finished = record snapshot { mode = some stop }

track_all-archive_example :
    let s = track_cook (call_at 650) finished (track_all ((call_at 500, snapshot) ∷ ticks) idle) in
    (n : ℕ) × (concat_upto n (s.samples "g1_c_400")
      ≡ taken snapshot.labels 0 ((call_at 500, snapshot) ∷ ticks))
    × (s.cook.cook_id ≡ none)
track_all-archive_example =
    track_all-archive (call_at 500) snapshot ticks (call_at 650) finished idle refl (λ j. refl)
      (refl, (refl, (refl, tt))) refl

first_is_due : is_due (call_at 510) 0 ≡ true
unfolding is_due
first_is_due = refl

restart-samples_example :
    (flush_samples (call_at 520) (track_cook (call_at 510) snapshot idle)).samples "g1_c_400" 0
    ≡ row_of (call_at 510) snapshot snapshot.labels ∷ []
restart-samples_example =
    restart-samples (call_at 510) (call_at 520) snapshot idle refl refl first_is_due
