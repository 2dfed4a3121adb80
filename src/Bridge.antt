-- ===== src/Bridge.antt =====
-- The cloud bridge's commands, bridge/sync.py: `_remember_nonce`, `handle_command`,
-- `_set_status` and `drain_pending_commands`. The registry of commands is an interface; what it
-- runs changes a state `W`. A write of a status that fails is recorded and changes no more.
pub mod Nonces
pub mod Checks
pub mod Cooks
pub mod Feed
pub mod Publish
use text.Mathlib.Text.{◌==◌ as str_eq}
use fire_ai.Prelude.{
  ℕ, ◌+◌, String, Bool, true, false, not, ◌&&◌, ◌||◌, Option, none, some, List, [], ◌∷◌, ◌++◌,
  length, ltb, if◌then◌else◌,
}
use fire_ai.Prelude.Num.{Num, ◌<?◌, ◌-!◌, ◌*!◌, #}

abbrev pub command_max_age_s : ℕ
command_max_age_s = 30

abbrev pub nonce_memory : ℕ
nonce_memory = 500

pub data CommandStatus : Type 0 where
  acked done failed rejected ignored : CommandStatus

-- A document under grills/{id}/commands. `created` is there if `createdAt` is a number, and
-- `nonce` if it is not empty.
pub record CommandDoc (N : Type 0) : Type 0 where
  pub pending : Bool
  pub name : String
  pub created : Option N
  pub nonce : Option String

-- `core.commands`: whether a name is registered and allowed from the cloud, and `execute`, which
-- returns whether the result is 'OK'.
pub record Registry (N W : Type 0) : Type 0 where
  pub cloud_allowed : String → Option Bool
  pub execute : CommandDoc N → W → Bool × W

-- The nonces seen, oldest first, and the statuses written, latest last.
pub record Bridge (N W : Type 0) : Type 0 where
  pub seen_nonces : List (String × N)
  pub statuses : List (String × CommandStatus)
  pub world : W

-- What a call reads: the clock, and `control_enabled` of the cloud settings.
pub record Moment (N : Type 0) : Type 0 where
  pub now : N
  pub control_enabled : Bool

module _ {N : Type 0} where
  unfoldable pub has_nonce : String → List (String × N) → Bool
  has_nonce nonce [] = false
  has_nonce nonce ((seen, at) ∷ rest) = str_eq seen nonce || has_nonce nonce rest

  -- `while len(…) > NONCE_MEMORY: popitem(last=False)`
  unfoldable pub trim : List (String × N) → List (String × N)
  trim [] = []
  trim (entry ∷ rest) = if ltb nonce_memory (length (entry ∷ rest)) then trim rest else entry ∷ rest

  -- True if the nonce is new.
  unfoldable pub remember_nonce : N → String → List (String × N) → List (String × N) × Bool
  remember_nonce now nonce seen =
      if has_nonce nonce seen then (seen, false) else (trim (seen ++ (nonce, now) ∷ []), true)

abbrev pub is_allowed : Option Bool → Bool
is_allowed (some true) = true
is_allowed _ = false

module _ {N : Type 0} ⦃o : Num N⦄ where
  -- `abs(now_ms - created) > COMMAND_MAX_AGE_S * 1000`
  unfoldable pub is_stale : N → N → Bool
  is_stale now created =
      let now_ms = now *! # 1000 in
      let age = if now_ms <? created then created -! now_ms else now_ms -! created in
      # command_max_age_s *! # 1000 <? age

module _ {N W : Type 0} ⦃o : Num N⦄ where
  abbrev pub set_status : String → CommandStatus → Bridge N W → Bridge N W
  set_status id status b = record b { statuses = b.statuses ++ (id, status) ∷ [] }

  unfoldable pub new_nonce : N → Option String → Bridge N W → Bridge N W × Bool
  unfolding remember_nonce
  new_nonce now none b = (b, false)
  new_nonce now (some nonce) b =
      let (seen, fresh) = remember_nonce now nonce b.seen_nonces in
      (record b { seen_nonces = seen }, fresh)

  unfoldable pub run_command :
      Registry N W → String → CommandDoc N → Bridge N W → Bridge N W × CommandStatus
  run_command reg id cmd b =
      let acknowledged = set_status id acked b in
      let (fine, world) = reg.execute cmd b.world in
      let after = record acknowledged { world = world } in
      if fine then (set_status id done after, done) else (set_status id failed after, failed)

  -- The checks, in their order: age, nonce, the local switch, the registry.
  unfoldable pub check_command :
      Registry N W
      → Moment N
      → String
      → CommandDoc N
      → Option N
      → Bridge N W
      → Bridge N W × CommandStatus
  unfolding is_stale new_nonce run_command
  check_command reg m id cmd none b = (set_status id rejected b, rejected)
  check_command reg m id cmd (some created) b =
      if is_stale m.now created
      then (set_status id rejected b, rejected)
      else let (b', fresh) = new_nonce m.now cmd.nonce b in
        if fresh && m.control_enabled && is_allowed (reg.cloud_allowed cmd.name)
        then run_command reg id cmd b'
        else (set_status id rejected b', rejected)

  unfoldable pub handle_command :
      Registry N W → Moment N → String → CommandDoc N → Bridge N W → Bridge N W × CommandStatus
  unfolding check_command
  handle_command reg m id cmd b =
      if cmd.pending then check_command reg m id cmd cmd.created b else (b, ignored)

  -- The commands that wait, in the order of their ids; how many were handled.
  unfoldable pub drain_pending_commands :
      Registry N W → List (Moment N × String × CommandDoc N) → Bridge N W → Bridge N W × ℕ
  unfolding handle_command
  drain_pending_commands reg [] b = (b, 0)
  drain_pending_commands reg ((m, id, cmd) ∷ rest) b =
      let (b', n) =
        drain_pending_commands reg rest
          (if cmd.pending then (handle_command reg m id cmd b).0 else b) in
      (b', if cmd.pending then n + 1 else n)
