-- ===== src/Bridge/Feed.antt =====
-- The notifications on their way to the cloud: core/events.py, and `forward_notifications` of
-- bridge/sync.py. The stream is Redis': an entry gets an id above every id before it, and old entries
-- may be trimmed. An id is a number here, and 0 is '0-0'.
pub mod Order
use fire_ai.Prelude.{
  ℕ, zero, suc, ◌+◌, ◌≡◌, String, Bool, true, false, List, [], ◌∷◌, ◌++◌, length, ltb, take, drop,
  if◌then◌else◌,
}

-- The fields that are forwarded.
pub record Notification : Type 0 where
  pub event : String
  pub title : String
  pub body : String
  pub label : String
  pub target : String
  pub ts : ℕ

pub record Entry : Type 0 where
  pub id : ℕ
  pub fields : Notification

-- The stream and its highest id; the bridge's cursor; what was pushed to the cloud; and, to speak
-- about it, what was published since the bridge started.
pub record Feed : Type 0 where
  pub stream : List Entry
  pub top : ℕ
  pub cursor : ℕ
  pub pushed : List Notification
  pub published : List Notification

abbrev pub batch_size : ℕ
batch_size = 50

-- The entries with an id above `last_id`.
unfoldable pub newer : ℕ → List Entry → List Entry
newer last_id [] = []
newer last_id (e ∷ es) = let rest = newer last_id es in if ltb last_id e.id then e ∷ rest else rest

-- `read_notifications`
unfoldable pub read_notifications : ℕ → ℕ → List Entry → List Entry
unfolding newer
read_notifications last_id count stream = take count (newer last_id stream)

unfoldable pub latest_id : List Entry → ℕ
latest_id [] = 0
latest_id (e ∷ []) = e.id
latest_id (e ∷ e' ∷ es) = latest_id (e' ∷ es)

-- `publish_notification`: the id is above the highest one by more than `gap`.
unfoldable pub publish_notification : ℕ → Notification → Feed → Feed
publish_notification gap n f = record f {
  stream = f.stream ++ record { id = f.top + suc gap; fields = n } ∷ [];
  top = f.top + suc gap;
  published = f.published ++ n ∷ [];
}

-- The loop's body: the cursor follows a push that succeeded.
unfoldable pub push : Entry → Feed → Feed
push e f = record f { pushed = f.pushed ++ e.fields ∷ []; cursor = e.id }

-- The loop, whose push raises after `good` pushes; whether it came to its end.
unfoldable pub push_all : ℕ → List Entry → Feed → Bool × Feed
unfolding push
push_all good [] f = (true, f)
push_all zero (e ∷ es) f = (false, f)
push_all (suc good) (e ∷ es) f = push_all good es (push e f)

unfoldable pub forward_notifications : ℕ → Feed → Bool × Feed
unfolding read_notifications push_all
forward_notifications good f = push_all good (read_notifications f.cursor batch_size f.stream) f

-- The bridge's start: `self._notify_cursor = events.latest_id()`.
unfoldable pub start_feed : ℕ → List Entry → Feed
unfolding latest_id
start_feed top stream = record {
  stream = stream;
  top = top;
  cursor = latest_id stream;
  pushed = [];
  published = [];
}

-- What happens to the feed: the control process publishes, the bridge forwards, Redis trims entries
-- that wait for nobody.
pub data FeedStep : Feed → Feed → Type 0 where
  publishes : {f : Feed} (gap : ℕ) (n : Notification) → FeedStep f (publish_notification gap n f)
  forwards : {f : Feed} (good : ℕ) → FeedStep f (forward_notifications good f).1
  trims :
      {f : Feed} (n : ℕ)
      → newer f.cursor (drop n f.stream) ≡ newer f.cursor f.stream
      → FeedStep f (record f { stream = drop n f.stream })

pub data FeedRun : Feed → Feed → Type 0 where
  none_yet : {f : Feed} → FeedRun f f
  then_step : {f g h : Feed} → FeedRun f g → FeedStep g h → FeedRun f h
