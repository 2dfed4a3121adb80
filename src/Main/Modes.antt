-- ===== src/Main/Modes.antt =====
-- What the main loop of control.py does for each mode, once a change of the control structure is
-- announced: `_next_mode`, and the branches on `control['mode']`. Metrics, history, cook files and
-- the display are output alone. A cycle reads the structure in Redis, and `main` keeps its own.
use fire_ai.Prelude.{Bool, true, false, ◌&&◌, ◌||◌, List, if◌then◌else◌}
use fire_ai.Prelude.Num.{Num, ◌<?◌, #}
use fire_ai.Types.{
  Mode, stop, error, startup, reignite, smoke, hold, shutdown, monitor, manual, prime, recipe,
  Status, inactive, monitoring, Control,
}
use fire_ai.Settings.{Settings}
use fire_ai.GrillPlatform.{GrillPlatform, auger_off, igniter_off, fan_off, power_on, power_off}
use fire_ai.ControlWrites.{Patch}
use fire_ai.Notify.{is_stop}
use fire_ai.Control.{Controller, Flow, on, ◌>>=◌}
use fire_ai.Control.Requests.{is_hold}
use fire_ai.Main.{Process, Iteration, write_control, take_writes, run_cycle}
use fire_ai.Main.Defaults.{default_control}
use fire_ai.Main.RecipeMode.{recipe_mode}

abbrev pub is_monitoring : Status → Bool
is_monitoring monitoring = true
is_monitoring _ = false

abbrev pub is_error : Mode → Bool
is_error error = true
is_error _ = false

abbrev pub is_startup : Mode → Bool
is_startup startup = true
is_startup _ = false

-- the modes ['Prime', 'Startup']
abbrev pub prime_or_startup : Mode → Bool
prime_or_startup prime = true
prime_or_startup startup = true
prime_or_startup _ = false

module _ {N : Type 0} ⦃o : Num N⦄ where
  -- If no other request came, the next mode is announced.
  unfoldable pub next_mode : Mode → N → List (Patch N) → Process N → Process N
  next_mode next setpoint writes p =
      let p' = take_writes writes p in
      if p'.stored.updated
      then p'
      else write_control
          (record p'.stored {
            mode = next;
            primary_setpoint = if is_hold next then setpoint else # 0;
            updated = true;
          })
          p'

  -- The outputs of Stop and Error. On a grill that is only monitored, an error leaves the power on.
  unfoldable pub stop_outputs : Bool → GrillPlatform N → GrillPlatform N
  stop_outputs keeps_power g =
      let off = fan_off (igniter_off (auger_off g)) in
      if keeps_power then power_on off else power_off off

  abbrev reset_safety : Settings N → Control N → Control N
  reset_safety s c = record c {
    tuning_mode = false;
    updated = false;
    next_mode = stop;
    safety = record c.safety { reigniteretries = s.safety.reigniteretries };
  }

  -- 'Stop': the defaults of settings.json replace the structure. 'Error' keeps its mode.
  unfoldable pub enter_stop : Settings N → Control N → Process N → Process N
  unfolding stop_outputs default_control
  enter_stop file c p =
      let off = record p {
        platform = stop_outputs (is_monitoring c.status && is_error c.mode) p.platform;
      } in
      let fresh = reset_safety p.settings (default_control file) in
      let c' =
        if is_stop c.mode
        then record fresh { startup_timestamp = # 0 }
        else record fresh { mode = error; status = inactive } in
      write_control c' (record off { control = c' })

module _ {N K : Type 0} ⦃o : Num N⦄ (ctl : Controller N K) (i : Iteration N) where
  -- A cycle of a mode, and `_next_mode` after it. `main` keeps the structure that it had.
  unfoldable pub cycle_then : Mode → Mode → N → Process N → Flow (Process N)
  cycle_then mode next setpoint p =
      run_cycle ctl mode i.run p >>= λ p'. on (next_mode next setpoint i.next_writes p')

  abbrev start_setpoint : N
  start_setpoint = i.file_after.startup.primary_setpoint

  -- Startup, once nothing stands in its way.
  unfoldable pub startup_cycle : Control N → Process N → Flow (Process N)
  startup_cycle c p =
      if is_startup c.mode
      then (let c' = record c { next_mode = p.settings.startup.after_startup_mode } in
          cycle_then startup c'.next_mode start_setpoint
            (write_control c' (record p { control = c' }))
          >>= λ p'. on (record p' { settings = i.file_after }))
      else on (record p { control = c })

  -- 'Prime on Startup': a cycle of Prime, after which only a mode that someone asked for counts.
  unfoldable pub enter_startup : Control N → Process N → Flow (Process N)
  enter_startup c p =
      let p0 = record p { settings = i.file } in
      let amount = i.file.startup.prime_on_startup in
      if # 0 <? amount
      then (let c' = record c { prime_amount = amount; mode = prime } in
          run_cycle ctl prime i.prime_run (write_control c' p0) >>= λ p'.
          startup_cycle
            (if prime_or_startup p'.stored.mode
              then record p'.stored { updated = false; mode = startup }
              else p'.stored)
            p')
      else startup_cycle c p0

  -- The computer is shut down as well, if the settings say so.
  unfoldable pub enter_shutdown : Control N → Process N → Flow (Process N)
  enter_shutdown c p =
      let c' = record c { next_mode = stop } in
      cycle_then shutdown stop (# 0) (write_control c' (record p { control = c' })) >>= λ p'.
      on (record p' { halted = p'.halted || p'.settings.auto_power_off })

  unfoldable pub enter_monitor : Control N → Process N → Flow (Process N)
  enter_monitor c p =
      let c' = record c { status = monitoring } in
      run_cycle ctl monitor i.run (write_control c' (record p { control = c' }))

  unfoldable pub enter_reignite : Control N → Process N → Flow (Process N)
  enter_reignite c p =
      let c' = record c { next_mode = c.safety.reignitelaststate } in
      cycle_then reignite c'.next_mode c'.primary_setpoint
        (write_control c' (record p { control = c' }))

  unfoldable pub enter_prime : Control N → Process N → Flow (Process N)
  enter_prime c p = run_cycle ctl prime i.run (record p { control = c }) >>= λ p'.
      on
        (next_mode c.next_mode start_setpoint i.next_writes (record p' { settings = i.file_after }))

  unfoldable pub enter_mode : Mode → Control N → Process N → Flow (Process N)
  enter_mode stop c p = on (enter_stop i.file c p)
  enter_mode error c p = on (enter_stop i.file c p)
  enter_mode prime c p = enter_prime c p
  enter_mode startup c p = enter_startup c p
  enter_mode smoke c p = cycle_then smoke c.next_mode (# 0) (record p { control = c })
  enter_mode hold c p = cycle_then hold c.next_mode (# 0) (record p { control = c })
  enter_mode shutdown c p = enter_shutdown c p
  enter_mode monitor c p = enter_monitor c p
  enter_mode manual c p = run_cycle ctl manual i.run (record p { control = c })
  enter_mode recipe c p =
      recipe_mode ctl i.file i.recipe_file i.recipe_runs c.recipe.start_step
        (record p { control = c })
  enter_mode reignite c p = enter_reignite c p
