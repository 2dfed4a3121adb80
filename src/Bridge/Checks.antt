-- ===== src/Bridge/Checks.antt =====
-- Which commands of the cloud the bridge runs, bridge/sync.py.
use fire_ai.Prelude.{
  ◌≡◌, refl, ◌⊎◌, inl, inr, String, Bool, true, false, Bool-cases, not, ◌&&◌, Option, none, some,
  arith, if◌then◌else◌,
}
use fire_ai.Prelude.Num.{Num}
use fire_ai.Bridge.{
  done, failed, rejected, ignored, CommandDoc, Registry, Bridge, Moment, has_nonce, is_stale,
  handle_command,
}

-- The four conditions on a command that runs: it is fresh, its nonce is new, the local switch is
-- on, and the registry allows it.
pub record IsPassed {N W : Type 0} ⦃o : Num N⦄ (reg : Registry N W) (m : Moment N)
    (cmd : CommandDoc N) (b : Bridge N W) : Type 0 where
  pub created : N
  pub nonce : String
  pub pending : cmd.pending ≡ true
  pub dated : cmd.created ≡ some created
  pub fresh : is_stale m.now created ≡ false
  pub marked : cmd.nonce ≡ some nonce
  pub new : has_nonce nonce b.seen_nonces ≡ false
  pub enabled : m.control_enabled ≡ true
  pub allowed : reg.cloud_allowed cmd.name ≡ some true

module _ {N W : Type 0} ⦃o : Num N⦄ (reg : Registry N W) (m : Moment N) (id : String) where
  abbrev pub LeavesWorld : CommandDoc N → Bridge N W → Type 0
  LeavesWorld cmd b =
      ((handle_command reg m id cmd b).0.world ≡ b.world)
      × (((handle_command reg m id cmd b).1 ≡ rejected)
          ⊎ ((handle_command reg m id cmd b).1 ≡ ignored))

  cases_by_parts :
      (cmd : CommandDoc N) (b : Bridge N W) (c : Option N) (n : Option String) (a : Option Bool)
      → cmd.created ≡ c
      → cmd.nonce ≡ n
      → reg.cloud_allowed cmd.name ≡ a
      → IsPassed reg m cmd b ⊎ LeavesWorld cmd b
  unfolding handle_command
  cases_by_parts cmd b (some t) (some n) (some true) ec en ea =
      elim (Bool-cases (
        cmd.pending
        && not (is_stale m.now t)
        && not (has_nonce n b.seen_nonces)
        && m.control_enabled)) [
          | inl passes ↦ inl (record {
            created = t;
            nonce = n;
            pending = ground arith;
            dated = ec;
            fresh = ground arith;
            marked = en;
            new = ground arith;
            enabled = ground arith;
            allowed = ea;
          })
          | inr fails ↦ inr (ground arith, ground arith)
        ]
  cases_by_parts cmd b none n a ec en ea = inr (ground arith, ground arith)
  cases_by_parts cmd b (some t) none a ec en ea = inr (ground arith, ground arith)
  cases_by_parts cmd b (some t) (some n) none ec en ea = inr (ground arith, ground arith)
  cases_by_parts cmd b (some t) (some n) (some false) ec en ea = inr (ground arith, ground arith)

  -- A command is run only if it passes the four checks; any other leaves the controlled state as
  -- it was, and ends rejected, or ignored if it is not pending.
  pub handle_command_cases :
      (cmd : CommandDoc N) (b : Bridge N W) → IsPassed reg m cmd b ⊎ LeavesWorld cmd b
  handle_command_cases cmd b =
      cases_by_parts cmd b cmd.created cmd.nonce (reg.cloud_allowed cmd.name) refl refl refl

  pub handle_command_runs :
      (cmd : CommandDoc N) (b : Bridge N W)
      → IsPassed reg m cmd b
      → ((handle_command reg m id cmd b).0.world ≡ (reg.execute cmd b.world).1)
        × ((handle_command reg m id cmd b).1
            ≡ (if (reg.execute cmd b.world).0 then done else failed))
  unfolding handle_command
  handle_command_runs cmd b h = ground arith
