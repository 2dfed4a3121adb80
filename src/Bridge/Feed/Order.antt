-- ===== src/Bridge/Feed/Order.antt =====
-- No notification is lost, doubled or moved on its way to the cloud (bridge/sync.py).
use mathlib.Core.List.{append_assoc, append-nil, map-append}
use fire_ai.Prelude.{
  ℕ, zero, suc, ◌+◌, ◌≤◌, ◌<◌, ◌≡◌, refl, sym, ap, ◌∙◌, true, List, [], ◌∷◌, ◌++◌, map, length,
  take, drop, take_append_drop, arith,
}
use fire_ai.Bridge.Feed.{
  Notification, Entry, Feed, batch_size, newer, read_notifications, latest_id, publish_notification,
  push, push_all, forward_notifications, start_feed, FeedStep, publishes, forwards, trims, FeedRun,
  none_yet, then_step,
}

-- Ids ascend from above `low` to at most `top`.
abbrev pub Ascends : ℕ → List Entry → ℕ → Type 0
Ascends low [] top = low ≤ top
Ascends low (e ∷ es) top = (low < e.id) × Ascends e.id es top

abbrev pub waiting : Feed → List Entry
waiting f = newer f.cursor f.stream

abbrev pub fields_of : Entry → Notification
fields_of e = e.fields

newer-all : (c low top : ℕ) (es : List Entry) → c ≤ low → Ascends low es top → newer c es ≡ es
unfolding newer
newer-all c low top [] le a = refl
newer-all c low top (e ∷ es) le (l, a) =
    let ih = newer-all c e.id top es (omega arith) a in ground arith

Ascends-le : (low top : ℕ) (es : List Entry) → Ascends low es top → low ≤ top
Ascends-le low top [] a = a
Ascends-le low top (e ∷ es) (l, a) = omega (arith, Ascends-le e.id top es a)

newer-first :
    (c low top : ℕ) (es : List Entry) (e : Entry) (rest : List Entry)
    → Ascends low es top
    → newer c es ≡ e ∷ rest
    → (low < e.id) × (e.id ≤ top)
unfolding newer
newer-first c low top [] e rest a h = cc
newer-first c low top (x ∷ xs) e rest (l, a) h =
    let ih = λ (q : newer c xs ≡ e ∷ rest). newer-first c x.id top xs e rest a q in
    let le = Ascends-le x.id top xs a in ground arith

-- After the first waiting entry the others wait.
newer-next :
    (c low top : ℕ) (es : List Entry) (e : Entry) (rest : List Entry)
    → Ascends low es top
    → newer c es ≡ e ∷ rest
    → newer e.id es ≡ rest
unfolding newer
newer-next c low top [] e rest a h = cc
newer-next c low top (x ∷ xs) e rest (l, a) h =
    let ih = λ (q : newer c xs ≡ e ∷ rest). newer-next c x.id top xs e rest a q in
    let above = λ (q : newer c xs ≡ e ∷ rest). newer-first c x.id top xs e rest a q in
    let all = λ (q : c ≤ x.id). newer-all c x.id top xs q a in
    let others = newer-all x.id x.id top xs (omega arith) a in ground arith

newer-append :
    (c : ℕ) (es : List Entry) (e : Entry) → c < e.id → newer c (es ++ e ∷ []) ≡ newer c es ++ e ∷ []
unfolding newer
newer-append c [] e l = ground arith
newer-append c (x ∷ xs) e l = let ih = newer-append c xs e l in ground arith

Ascends-append :
    (low top : ℕ) (es : List Entry) (e : Entry)
    → Ascends low es top
    → top < e.id
    → Ascends low (es ++ e ∷ []) e.id
Ascends-append low top [] e a l = omega arith
Ascends-append low top (x ∷ xs) e (h, a) l = (h, Ascends-append x.id top xs e a l)

Ascends-drop :
    (n low top : ℕ) (es : List Entry)
    → Ascends low es top
    → (m : ℕ) × (low ≤ m) × Ascends m (drop n es) top
Ascends-drop zero low top es a = (low, (omega arith), a)
Ascends-drop (suc n) low top [] a = (low, (omega arith), a)
Ascends-drop (suc n) low top (e ∷ es) (l, a) =
    let (m, le, b) = Ascends-drop n e.id top es a in (m, (omega arith), b)

-- What was pushed and what waits make what was published.
pub record IsOrdered (f : Feed) : Type 0 where
  pub low : ℕ
  pub ascends : Ascends low f.stream f.top
  pub behind : f.cursor ≤ f.top
  pub whole : f.pushed ++ map fields_of (waiting f) ≡ f.published

push_all-IsOrdered :
    (good : ℕ) (es rest : List Entry) (f : Feed)
    → waiting f ≡ es ++ rest
    → IsOrdered f
    → IsOrdered (push_all good es f).1
unfolding push_all push
push_all-IsOrdered good [] rest f w o = o
push_all-IsOrdered zero (e ∷ es) rest f w o = o
push_all-IsOrdered (suc good) (e ∷ es) rest f w o =
    let next = newer-next f.cursor o.low f.top f.stream e (es ++ rest) o.ascends w in
    let (above, le) = newer-first f.cursor o.low f.top f.stream e (es ++ rest) o.ascends w in
    push_all-IsOrdered good es rest (push e f) next (record {
      low = o.low;
      ascends = o.ascends;
      behind = le;
      whole =
          append_assoc f.pushed (e.fields ∷ []) _
          ∙ ap (λ (ws : List Entry). f.pushed ++ e.fields ∷ map fields_of ws) next
          ∙ sym (ap (λ (ws : List Entry). f.pushed ++ map fields_of ws) w)
          ∙ o.whole;
    })

step-IsOrdered : {f g : Feed} → FeedStep f g → IsOrdered f → IsOrdered g
unfolding publish_notification forward_notifications read_notifications
step-IsOrdered {f} (publishes gap n) o =
    let e : Entry = record { id = f.top + suc gap; fields = n } in
    let more = newer-append f.cursor f.stream e (omega (arith, o.behind)) in
    record {
      low = o.low;
      ascends = Ascends-append o.low f.top f.stream e o.ascends (omega arith);
      behind = omega (arith, o.behind);
      whole =
          ap (λ (ws : List Entry). f.pushed ++ map fields_of ws) more
          ∙ ap (λ (ns : List Notification). f.pushed ++ ns)
              (map-append fields_of (waiting f) (e ∷ []))
          ∙ sym (append_assoc f.pushed (map fields_of (waiting f)) (n ∷ []))
          ∙ ap (λ (ns : List Notification). ns ++ n ∷ []) o.whole;
    }
step-IsOrdered {f} (forwards good) o =
    push_all-IsOrdered good (take batch_size (waiting f)) (drop batch_size (waiting f)) f
      (sym (take_append_drop batch_size (waiting f))) o
step-IsOrdered {f} (trims n same) o =
    let (m, le, a) = Ascends-drop n o.low f.top f.stream o.ascends in
    record {
      low = m;
      ascends = a;
      behind = o.behind;
      whole = ap (λ (ws : List Entry). f.pushed ++ map fields_of ws) same ∙ o.whole;
    }

run-IsOrdered : {f g : Feed} → FeedRun f g → IsOrdered f → IsOrdered g
run-IsOrdered none_yet o = o
run-IsOrdered (then_step run step) o = step-IsOrdered step (run-IsOrdered run o)

latest_id-bounds :
    (low top : ℕ) (e : Entry) (es : List Entry)
    → Ascends low (e ∷ es) top
    → (e.id ≤ latest_id (e ∷ es)) × (latest_id (e ∷ es) ≤ top)
unfolding latest_id
latest_id-bounds low top e [] a = omega arith
latest_id-bounds low top e (e' ∷ es) (l, a) = omega (arith, latest_id-bounds e.id top e' es a, a.0)

newer-latest : (low top : ℕ) (es : List Entry) → Ascends low es top → newer (latest_id es) es ≡ []
unfolding newer latest_id
newer-latest low top [] a = refl
newer-latest low top (e ∷ []) a = ground arith
newer-latest low top (e ∷ e' ∷ es) (l, a) =
    let ih = newer-latest e.id top (e' ∷ es) a in
    let (le, bound) = latest_id-bounds e.id top e' es a in ground arith

start_feed-IsOrdered :
    (top : ℕ) (stream : List Entry) → Ascends 0 stream top → IsOrdered (start_feed top stream)
unfolding start_feed
start_feed-IsOrdered top stream a = record {
  low = 0;
  ascends = a;
  behind = latest_le stream a;
  whole = ap (map fields_of) (newer-latest 0 top stream a);
}
  where
    latest_le : (es : List Entry) → Ascends 0 es top → latest_id es ≤ top
    latest_le [] b = b
    latest_le (e ∷ es) b = (latest_id-bounds 0 top e es b).1

pub pushed-waiting :
    (top : ℕ) (stream : List Entry) {f : Feed}
    → Ascends 0 stream top
    → FeedRun (start_feed top stream) f
    → f.pushed ++ map fields_of (waiting f) ≡ f.published
pushed-waiting top stream a run = (run-IsOrdered run (start_feed-IsOrdered top stream a)).whole

push_all-end :
    (good : ℕ) (es : List Entry) (f : Feed)
    → length es ≤ good
    → ((push_all good es f).0 ≡ true)
      × ((push_all good es f).1.pushed ≡ f.pushed ++ map fields_of es)
      × ((push_all good es f).1.published ≡ f.published)
unfolding push_all push
push_all-end good [] f le = (refl, sym (append-nil f.pushed), refl)
push_all-end zero (e ∷ es) f le = absurd (omega arith)
push_all-end (suc good) (e ∷ es) f le =
    let (done, pushed, published) = push_all-end good es (push e f) (omega arith) in
    (done, pushed ∙ append_assoc f.pushed (e.fields ∷ []) (map fields_of es), published)

take-all : (n : ℕ) (es : List Entry) → length es ≤ n → take n es ≡ es
take-all zero [] le = refl
take-all (suc n) [] le = refl
take-all zero (e ∷ es) le = absurd (omega arith)
take-all (suc n) (e ∷ es) le = ap (λ (r : List Entry). e ∷ r) (take-all n es (omega arith))

-- A call whose pushes succeed, with at most 50 notifications waiting, leaves the cloud with all that
-- was published since the bridge's start.
pub forward_notifications-catches_up :
    (top : ℕ) (stream : List Entry) (good : ℕ) {f : Feed}
    → Ascends 0 stream top
    → FeedRun (start_feed top stream) f
    → length (waiting f) ≤ 50
    → length (waiting f) ≤ good
    → let (done, f') = forward_notifications good f in (done ≡ true) × (f'.pushed ≡ f'.published)
unfolding forward_notifications read_notifications
forward_notifications-catches_up top stream good {f} a run few enough =
    let all = take-all batch_size (waiting f) few in
    let (done, pushed, published) =
      push_all-end good (take batch_size (waiting f)) f (rw all enough) in
    (
      done,
      pushed
          ∙ ap (λ (ws : List Entry). f.pushed ++ map fields_of ws) all
          ∙ pushed-waiting top stream a run
          ∙ sym published,
    )
