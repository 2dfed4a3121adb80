-- ===== src/Scenarios/Links.antt =====
-- The theorems on the bridge's feed and mirror at concrete data.
use text.Mathlib.Text.{◌==◌ as str_eq}
use fire_ai.Prelude.{
  ℕ, ◌≤◌, String, Bool, true, none, some, List, [], ◌∷◌, ◌||◌, length, drop, arith,
}
use fire_ai.Prelude.Num.{nat_num}
use fire_ai.Documents.{end, field, str}
use fire_ai.Bridge.Feed.{
  Notification, Entry, Feed, newer, latest_id, read_notifications, push, push_all,
  publish_notification, forward_notifications, start_feed,
}
use fire_ai.Bridge.Feed.Order.{waiting}
use fire_ai.Bridge.Publish.{Link, TickInput}
use fire_ai.Scenarios.Archives.{call_at, snapshot, idle}

abbrev note : String → Notification
note event = record { event = event; title = "t"; body = "b"; label = ""; target = "0"; ts = 1 }

abbrev old : List Entry
old = record { id = 3; fields = note "old" } ∷ []

abbrev first_feed : Feed
first_feed = start_feed 3 old

abbrev second_feed : Feed
second_feed = publish_notification 4 (note "n2") (publish_notification 0 (note "n1") first_feed)

-- The second push fails.
abbrev third_feed : Feed
third_feed = (forward_notifications 1 second_feed).1

abbrev last_feed : Feed
last_feed = record third_feed { stream = drop 2 third_feed.stream }

one_waits : length (waiting last_feed) ≤ 7
unfolding newer push_all push forward_notifications read_notifications publish_notification
    start_feed latest_id
one_waits = omega arith

abbrev matches : String → Bool
matches k = str_eq k "token" || str_eq k "password"

abbrev input : TickInput ℕ
input = record {
  monitor_enabled = true;
  time_state = 600;
  time_presence = 600;
  time_mirror = 600;
  call = call_at 600;
  view = record { snap = snapshot; hash = "h"; compact = end };
  mtime = some 590;
  document = field "token" (str "secret") (field "server" (str "s") end);
  built = none;
  state_put = true;
  presence_patched = true;
  settings_set = true;
  schema_set = true;
  good = 5;
  schema_error = "schema";
  tick_error = "tick";
}

abbrev link : Link ℕ
link = record {
  tracking = idle;
  last_state_hash = none;
  last_state_at = 0;
  last_presence_at = 0;
  settings_mtime = none;
  feed = second_feed;
  errors = [];
  state = none;
  presence = 0;
  settings = none;
  schema = none;
}
