-- ===== src/Bridge/Publish.antt =====
-- What the bridge mirrors to the cloud: `publish_state`, `publish_presence`, `mirror_settings`,
-- `record_error`, `tick` and `run` of bridge/sync.py. The snapshot, its hash, the time stamps of files
-- and the fate of each call of Firebase are input: a call that fails raises and leaves the cloud as it
-- was. The errors' own document in the cloud is left out.
pub mod Private
use text.Mathlib.Text.{◌==◌ as str_eq}
use fire_ai.Prelude.{
  ℕ, ◌+◌, ◌-◌, String, Bool, true, false, not, ◌&&◌, ◌||◌, Option, none, some, List, [], ◌∷◌, ◌++◌,
  length, drop, if◌then◌else◌,
}
use fire_ai.Prelude.Num.{Num, ◌<?◌, ◌=?◌, ◌-!◌, ◌*!◌, #}
use fire_ai.Documents.{Json, num, Fields, put, without, redact}
use fire_ai.Bridge.Cooks.{Snapshot, Tracking, Call, track_cook, flush_samples}
use fire_ai.Bridge.Feed.{Feed, forward_notifications}

abbrev pub presence_interval_s : ℕ
presence_interval_s = 15

abbrev pub state_min_interval_s : ℕ
state_min_interval_s = 1

-- A snapshot with its hash and the document that is put under 'state'.
pub record View (N : Type 0) : Type 0 where
  pub snap : Snapshot N
  pub hash : String
  pub compact : Fields N

-- The bridge's variables, and the cloud's documents: 'state', how often presence was told, 'settings'
-- and its schema.
pub record Link (N : Type 0) : Type 0 where
  pub tracking : Tracking N
  pub last_state_hash : Option String
  pub last_state_at : N
  pub last_presence_at : N
  pub settings_mtime : Option N
  pub feed : Feed
  pub errors : List String
  pub state : Option (Fields N)
  pub presence : ℕ
  pub settings : Option (Fields N)
  pub schema : Option (Fields N)

-- What a tick reads: the clocks, the snapshot, the settings and their file's time, the schema that
-- `build_schema` makes, and which calls of Firebase succeed.
pub record TickInput (N : Type 0) : Type 0 where
  pub monitor_enabled : Bool
  pub time_state : N
  pub time_presence : N
  pub time_mirror : N
  pub call : Call N
  pub view : View N
  pub mtime : Option N
  pub document : Fields N
  pub built : Option (Fields N)
  pub state_put : Bool
  pub presence_patched : Bool
  pub settings_set : Bool
  pub schema_set : Bool
  pub good : ℕ
  pub schema_error : String
  pub tick_error : String

-- How a method ends.
pub data Ended : Type 0 where
  returned : Bool → Ended
  raised : Ended

abbrev pub same_text : Option String → String → Bool
same_text none s = false
same_text (some t) s = str_eq t s

module _ {N : Type 0} ⦃o : Num N⦄ where
  abbrev pub same_time : Option N → N → Bool
  same_time none x = false
  same_time (some y) x = x =? y

  -- The last 50 errors are kept.
  unfoldable pub record_error : String → Link N → Link N
  record_error text s =
      let errors = s.errors ++ text ∷ [] in record s { errors = drop (length errors - 50) errors }

  unfoldable pub publish_state : Bool → TickInput N → Link N → Ended × Link N
  publish_state force i s =
      if not force && ((i.time_state -! s.last_state_at) <? # state_min_interval_s)
      then (returned false, s)
      else (let tracked = record s {
        last_state_at = i.time_state;
        tracking = track_cook i.call i.view.snap s.tracking;
      } in
          if not force && same_text s.last_state_hash i.view.hash
          then (returned false, tracked)
          else if i.state_put
          then (
            returned true,
            record tracked { state = some i.view.compact; last_state_hash = some i.view.hash },
          )
          else (raised, tracked))

  unfoldable pub publish_presence : Bool → TickInput N → Link N → Ended × Link N
  publish_presence force i s =
      if not force && ((i.time_presence -! s.last_presence_at) <? # presence_interval_s)
      then (returned false, s)
      else if i.presence_patched
      then (
        returned true,
        record s { presence = s.presence + 1; last_presence_at = i.time_presence },
      )
      else (raised, s)

  -- The schema's failure is an error that is noted.
  unfoldable pub mirror_schema : TickInput N → Link N → Link N
  mirror_schema i s = elim i.built [
    | none ↦ record_error i.schema_error s
    | some schema ↦
        if i.schema_set then record s { schema = some schema } else record_error i.schema_error s
  ]

  abbrev pub then_if : Ended × Link N → (Link N → Ended × Link N) → Ended × Link N
  then_if (returned b, s) f = f s
  then_if (raised, s) f = (raised, s)

  abbrev pub forward : TickInput N → Link N → Ended × Link N
  forward i s =
      let (all, feed) = forward_notifications i.good s.feed in
      (if all then returned true else raised, record s { feed = feed })

  abbrev pub noted : String → Ended × Link N → Link N
  noted text (returned b, s) = s
  noted text (raised, s) = record_error text s

  module _ (matches : String → Bool) where
    -- The document that leaves the grill.
    unfoldable pub mirrored : N → Fields N → Fields N
    unfolding redact without put
    mirrored now document =
        put "mirroredAt" (num (o.trunc (now *! # 1000)))
          (without "server" (redact matches document))

    -- For a file of this time.
    unfoldable pub mirror_at : Bool → TickInput N → N → Link N → Ended × Link N
    mirror_at force i mtime s =
        if not force && same_time s.settings_mtime mtime
        then (returned false, s)
        else if i.settings_set
        then (
          returned true,
          record (mirror_schema i
              (record s { settings = some (mirrored i.time_mirror i.document) })) {
                settings_mtime = some mtime;
              },
        )
        else (raised, s)

    unfoldable pub mirror_settings : Bool → TickInput N → Link N → Ended × Link N
    unfolding mirror_at
    mirror_settings force i s = elim i.mtime [
      | none ↦ (returned false, s)
      | some mtime ↦ mirror_at force i mtime s
    ]

    -- The four methods in their order; the first that raises ends the rest.
    unfoldable pub publish_all : Bool → TickInput N → Link N → Ended × Link N
    publish_all force i s =
        then_if (publish_state force i s)
          λ s1. then_if (publish_presence force i s1) λ s2. mirror_settings force i s2

    unfoldable pub tick : TickInput N → Link N → Ended × Link N
    tick i s =
        if not i.monitor_enabled
        then (returned true, s)
        else then_if (publish_all false i s) (forward i)

    -- A round of the loop of `run`, which notes an exception and goes on.
    unfoldable pub run_tick : TickInput N → Link N → Link N
    run_tick i s = noted i.tick_error (tick i s)

    unfoldable pub run_ticks : List (TickInput N) → Link N → Link N
    run_ticks [] s = s
    run_ticks (i ∷ is) s = run_ticks is (run_tick i s)

    -- `run`: the forced calls, where an exception ends the process, the loop, and the last flush.
    unfoldable pub run : TickInput N → List (TickInput N) → Call N → Link N → Ended × Link N
    unfolding flush_samples
    run first is last s = then_if (publish_all true first s) λ s'.
        let s'' = run_ticks is s' in
        (returned true, record s'' { tracking = flush_samples last s''.tracking })
