-- ===== src/Notify/Passes.antt =====
-- What a whole call of `check_notify` (notify/notifications.py) changes, entry after entry.
use fire_ai.Prelude.{
  ◌+◌, String, ◌≡◌, refl, ◌∙◌, ap, sym, and_then-eq-some, ◌⊎◌, inl, true, some, List, [], ◌∷◌, ◌++◌,
  map, arith, subst,
}
use mathlib.Core.List.{append_assoc}
use mathlib.Core.Option.{some-injective}
use fire_ai.Prelude.Num.{Num}
use fire_ai.Types.{NotifyKind, Notify, Control}
use fire_ai.Settings.{Settings}
use fire_ai.Notify.{
  Event, grill_error_03, Readings, Turn, Notified, cooking, check_item, after_turn, check_items,
  check_notify,
}
use fire_ai.Notify.Turns.{TurnKeeps, reignitions, check_item-TurnKeeps}

pub reignitions-append :
    (xs ys : List Event) → reignitions (xs ++ ys) ≡ reignitions xs + reignitions ys
reignitions-append [] ys = omega arith
reignitions-append (grill_error_03 ∷ xs) ys = omega (arith, reignitions-append xs ys)
reignitions-append (_ ∷ xs) ys = reignitions-append xs ys

abbrev pub entry_of : {N : Type 0} → Notify N → String × NotifyKind
entry_of item = (item.label, item.kind)

-- The entries stay the entries of the same probes and kinds, in the same order; no attempt to
-- ignite again is told of or counted; a mode that changes was a cooking mode and is announced.
pub record PassKeeps {N : Type 0} (c : Control N) (items : List (Notify N)) (n : Notified N)
    : Type 0 where
  pub entries : map entry_of n.control.notify_data ≡ map entry_of items
  pub retries : n.control.safety.reigniteretries ≡ c.safety.reigniteretries
  pub startuptemp : n.control.safety.startuptemp ≡ c.safety.startuptemp
  pub quiet : reignitions n.sent ≡ 0
  pub stored : n.stored.safety.reigniteretries ≡ c.safety.reigniteretries
  pub mode : (n.control.mode ≡ c.mode) ⊎ ((n.control.updated ≡ true) × (cooking c.mode ≡ true))
  pub updated : c.updated ≡ true → n.control.updated ≡ true

same_entries :
    {N : Type 0} (a b : Notify N) (xs rest : List (Notify N))
    → entry_of a ≡ entry_of b
    → map entry_of ((xs ++ a ∷ []) ++ rest) ≡ map entry_of (xs ++ b ∷ rest)
same_entries a b [] rest h = ap (λ e. e ∷ map entry_of rest) h
same_entries a b (x ∷ xs) rest h = ap (λ es. entry_of x ∷ es) (same_entries a b xs rest h)

module _ {N : Type 0} (before rest : List (Notify N)) where
  after_turn-stored :
      (item : Notify N) (n : Notified N) (t : Turn N)
      → TurnKeeps item n.control t
      → n.stored.safety.reigniteretries ≡ n.control.safety.reigniteretries
      → (after_turn before rest t n).stored.safety.reigniteretries
        ≡ (after_turn before rest t n).control.safety.reigniteretries
  unfolding after_turn
  after_turn-stored item n t k w = ground arith

  -- One more entry had its turn.
  after_turn-PassKeeps :
      (item : Notify N) (n m : Notified N) (t : Turn N)
      → TurnKeeps item n.control t
      → reignitions n.sent ≡ 0
      → PassKeeps (after_turn before rest t n).control ((before ++ t.item ∷ []) ++ rest) m
      → PassKeeps n.control (before ++ item ∷ rest) m
  unfolding after_turn
  after_turn-PassKeeps item n m t k q p = record {
    entries = p.entries ∙ same_entries t.item item before rest (cc (k.label, k.kind));
    retries = p.retries ∙ k.retries;
    startuptemp = p.startuptemp ∙ k.startuptemp;
    quiet = p.quiet;
    stored = p.stored ∙ k.retries;
    mode = ground (arith, p.mode, k.mode, p.updated);
    updated = λ u. p.updated (k.updated u);
  }

module _ {N : Type 0} ⦃o : Num N⦄ (s : Settings N) (r : Readings N) where
  check_items-Keeps :
      (before items : List (Notify N)) (n : Notified N) {m : Notified N}
      → n.control.notify_data ≡ before ++ items
      → reignitions n.sent ≡ 0
      → n.stored.safety.reigniteretries ≡ n.control.safety.reigniteretries
      → check_items s r before items n ≡ some m
      → PassKeeps n.control (before ++ items) m
  unfolding check_items after_turn
  check_items-Keeps before [] n d q w h =
      subst (PassKeeps n.control (before ++ [])) (some-injective _ _ h) (record {
        entries = ap (map entry_of) d;
        retries = refl;
        startuptemp = refl;
        quiet = q;
        stored = w;
        mode = inl refl;
        updated = λ u. u;
      })
  check_items-Keeps before (item ∷ rest) n {m} d q w h =
      let (t, e, go) = and_then-eq-some (check_item s r item n.control) _ h in
      let k = check_item-TurnKeeps s r item n.control e in
      after_turn-PassKeeps before rest item n m t k q (
        check_items-Keeps (before ++ t.item ∷ []) rest (after_turn before rest t n)
          (sym (append_assoc before (t.item ∷ []) rest))
          (omega (arith, reignitions-append n.sent t.sent, k.quiet))
          (after_turn-stored before rest item n t k w) go)

  pub check_notify-PassKeeps :
      (c stored : Control N) {m : Notified N}
      → stored.safety.reigniteretries ≡ c.safety.reigniteretries
      → check_notify s r c stored ≡ some m
      → PassKeeps c c.notify_data m
  unfolding check_notify
  check_notify-PassKeeps c stored w h = check_items-Keeps [] c.notify_data _ refl refl w h
