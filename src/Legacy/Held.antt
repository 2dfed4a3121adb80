-- ===== src/Legacy/Held.antt =====
-- How a command of `process_command` (common/common.py) may end: what an error leaves behind, and
-- what of the control structure no command writes.
use mathlib.Core.List.{append-nil}
use fire_ai.Prelude.{
  ℕ, ◌≡◌, refl, sym, ap, ◌∙◌, ◌⊎◌, inl, inr, Bool, true, false, Option, none, some, List, [], ◌∷◌,
  ◌++◌, All, if◌then◌else◌,
}
use fire_ai.Types.{Status, Safety, SmartStart, Control}
use fire_ai.Legacy.{Reply, accepted, refused, raised, Store, write_control, accept}

-- The state in the control structure that belongs to the control process.
pub record State (N : Type 0) : Type 0 where
  pub safety : Safety N
  pub status : Status
  pub smartstart : SmartStart N
  pub startup_timestamp : N
  pub critical_error : Bool
  pub step : ℕ

abbrev pub state_of : {N : Type 0} → Control N → State N
state_of c = record {
  safety = c.safety;
  status = c.status;
  smartstart = c.smartstart;
  startup_timestamp = c.startup_timestamp;
  critical_error = c.critical_error;
  step = c.recipe.step;
}

-- As it was, but that a copy of the control structure may wait in the queue.
abbrev pub IsUntouched : {N : Type 0} → Store N → Store N → Type 0
IsUntouched s s' = (s' ≡ s) ⊎ (s' ≡ write_control false s.general s)

abbrev HeldBack : {N : Type 0} → Store N → Reply N → Store N → Type 0
HeldBack s (accepted d) s' = Unit
HeldBack s refused s' = IsUntouched s s'
HeldBack s raised s' = IsUntouched s s'

abbrev pub Keeps : {N : Type 0} → Control N → Control N → Type 0
Keeps c c' = state_of c' ≡ state_of c

-- What is stored and what is queued keeps the state of the control structure that was read.
pub record IsKept {N : Type 0} (s : Store N) (s' : Store N) : Type 0 where
  pub stored : Keeps s.general s'.general
  pub writes : List (Control N)
  pub queued : s'.queue ≡ s.queue ++ writes
  pub kept : All (Keeps s.general) writes

-- Accepted, or untouched; and the state kept.
pub record IsHeld {N : Type 0} (s : Store N) (r : Reply N × Store N) : Type 0 where
  pub held : HeldBack s r.0 r.1
  pub kept : IsKept s r.1

module _ {N : Type 0} where
  pub if-IsHeld :
      (s : Store N) (b : Bool) (x y : Reply N × Store N)
      → IsHeld s x
      → IsHeld s y
      → IsHeld s (if b then x else y)
  if-IsHeld s true x y hx hy = hx
  if-IsHeld s false x y hx hy = hy

  pub elim-IsHeld {ℓ} :
      {A : Type ℓ} (s : Store N) (m : Option A) (x : Reply N × Store N) (f : A → Reply N × Store N)
      → IsHeld s x
      → ((a : A) → IsHeld s (f a))
      → IsHeld s (elim m [ none ↦ x | some a ↦ f a ])
  elim-IsHeld s none x f hx hf = hx
  elim-IsHeld s (some a) x f hx hf = hf a

  pub write-IsKept :
      (direct : Bool) (c : Control N) (s s' : Store N)
      → Keeps s.general c
      → s'.general ≡ s.general
      → s'.queue ≡ s.queue
      → IsKept s (write_control direct c s')
  unfolding write_control
  write-IsKept true c s s' k g q = record {
    stored = k;
    writes = [];
    queued = q ∙ sym (append-nil s.queue);
    kept = tt;
  }
  write-IsKept false c s s' k g q = record {
    stored = ap state_of g;
    writes = c ∷ [];
    queued = ap (λ (cs : List (Control N)). cs ++ c ∷ []) q;
    kept = (k, tt);
  }

  pub accept-IsHeld :
      (direct : Bool) (c : Control N) (s : Store N)
      → Keeps s.general c
      → IsHeld s (accept direct c s)
  accept-IsHeld direct c s k = record { held = tt; kept = write-IsKept direct c s s k refl refl }

  pub unwritten : (s s' : Store N) → s'.general ≡ s.general → s'.queue ≡ s.queue → IsKept s s'
  unwritten s s' g q = record {
    stored = ap state_of g;
    writes = [];
    queued = q ∙ sym (append-nil s.queue);
    kept = tt;
  }

  pub same : (r : Reply N) (s : Store N) → IsHeld s (r, s)
  same (accepted d) s = record { held = tt; kept = unwritten s s refl refl }
  same refused s = record { held = inl refl; kept = unwritten s s refl refl }
  same raised s = record { held = inl refl; kept = unwritten s s refl refl }

  pub queued-IsHeld : (s : Store N) → IsHeld s (refused, write_control false s.general s)
  queued-IsHeld s = record {
    held = inr refl;
    kept = write-IsKept false s.general s s refl refl refl;
  }

  -- Written back as it is.
  pub copy-IsHeld :
      (b direct : Bool) (s : Store N)
      → IsHeld s (refused, if b then write_control direct s.general s else s)
  unfolding write_control
  copy-IsHeld false direct s = same refused s
  copy-IsHeld true true s = same refused s
  copy-IsHeld true false s = queued-IsHeld s
