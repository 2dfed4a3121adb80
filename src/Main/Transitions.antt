-- ===== src/Main/Transitions.antt =====
-- From a mode to the next: what the main loop of control.py announces after a cycle, and what it
-- leaves after Stop and Error.
use fire_ai.Prelude.{◌≡◌, subst, Bool, true, false, ◌&&◌, ◌||◌, Option, none, some, List, arith}
use mathlib.Core.Option.{some-injective}
use fire_ai.Prelude.Num.{Num, #}
use fire_ai.Types.{
  Mode, stop, error, startup, reignite, smoke, hold, shutdown, monitor, manual, prime, recipe,
  blank, inactive, Control,
}
use fire_ai.Settings.{Settings}
use fire_ai.ControlWrites.{Patch, merge_writes}
use fire_ai.Notify.{is_stop}
use fire_ai.Control.{Controller, on, on-injective, >>=-eq-on}
use fire_ai.Main.{Process, Iteration, run_cycle}
use fire_ai.Main.Defaults.{default_control}
use fire_ai.Main.Modes.{
  is_error, is_monitoring, next_mode, enter_stop, cycle_then, enter_shutdown, enter_reignite,
  enter_prime, enter_mode,
}

-- The mode that is planned after the cycle of a mode; none where the cycle's end announces nothing.
abbrev pub planned : {N : Type 0} → Mode → Control N → Option Mode
planned smoke c = some c.next_mode
planned hold c = some c.next_mode
planned prime c = some c.next_mode
planned shutdown c = some stop
planned reignite c = some c.safety.reignitelaststate
planned _ c = none

-- A cycle that ended with this structure in Redis hands over to the mode: a request that came in
-- stands as it is; else the planned mode is announced, and all but the setpoint stays.
pub record Handover {N : Type 0} (next : Mode) (ended after : Control N) : Type 0 where
  pub requested : ended.updated ≡ true → after ≡ ended
  pub planned : ended.updated ≡ false → after.mode ≡ next
  pub announced : after.updated ≡ true
  pub safety : after.safety ≡ ended.safety
  pub notify_data : after.notify_data ≡ ended.notify_data

module _ {N : Type 0} ⦃o : Num N⦄ where
  next_mode-Handover :
      (next : Mode) (x : N) (writes : List (Patch N)) (p : Process N)
      → Handover next (merge_writes p.stored writes) (next_mode next x writes p).stored
  unfolding next_mode
  next_mode-Handover next x writes p = ground arith

  -- The structure and the outputs after Stop, and after Error.
  pub record IsStopped (s : Settings N) (c : Control N) (p : Process N) : Type 0 where
    pub auger : p.platform.auger ≡ false
    pub igniter : p.platform.igniter ≡ false
    pub fan : p.platform.fan ≡ false
    pub power : p.platform.power ≡ (is_monitoring c.status && is_error c.mode)
    pub written : p.stored ≡ p.control
    pub mode : p.control.mode ≡ c.mode
    pub quiet : p.control.updated ≡ false
    pub next_mode : p.control.next_mode ≡ stop
    pub retries : p.control.safety.reigniteretries ≡ s.safety.reigniteretries
    pub critical_error : p.control.critical_error ≡ false

  -- Stop and Error turn the outputs off, but for the power of a grill that is monitored and meets
  -- an error; they keep their mode, announce nothing, plan Stop, give the reignitions of the
  -- settings back, and what is in Redis is what the main loop has.
  pub enter_stop-IsStopped :
      (file : Settings N) (c : Control N) (p : Process N)
      → (is_stop c.mode || is_error c.mode) ≡ true
      → IsStopped p.settings c (enter_stop file c p)
  unfolding enter_stop default_control
  enter_stop-IsStopped file c p h = ground arith

  -- After Stop the status is '', as `default_control` has it, though 'inactive' was set before.
  pub enter_stop-status :
      (file : Settings N) (c : Control N) (p : Process N)
      → ((is_stop c.mode ≡ true → (enter_stop file c p).stored.status ≡ blank)
          × (is_stop c.mode ≡ false → (enter_stop file c p).stored.status ≡ inactive))
  unfolding enter_stop default_control
  enter_stop-status file c p = ground arith

module _ {N K : Type 0} ⦃o : Num N⦄ (ctl : Controller N K) (i : Iteration N) where
  -- A cycle of the mode ran to its end, and handed over.
  pub record HandsOver (m next : Mode) (p' : Process N) : Type 0 where
    pub before : Process N
    pub after : Process N
    pub ran : run_cycle ctl m i.run before ≡ on after
    pub handover : Handover next (merge_writes after.stored i.next_writes) p'.stored

  cycle_then-HandsOver :
      (m next : Mode) (x : N) (p : Process N) {p' : Process N}
      → cycle_then ctl i m next x p ≡ on p'
      → HandsOver m next p'
  unfolding cycle_then
  cycle_then-HandsOver m next x p h =
      let (q, ran, e) = >>=-eq-on (run_cycle ctl m i.run p) _ h in
      record {
        before = p;
        after = q;
        ran = ran;
        handover =
            subst (λ (u : Process N). Handover next (merge_writes q.stored i.next_writes) u.stored)
              (on-injective e) (next_mode-Handover next x i.next_writes q);
      }

  halted-HandsOver :
      (m next : Mode) (p : Process N) (b : Bool) {p' : Process N}
      → HandsOver m next p
      → on (record p { halted = b }) ≡ on p'
      → HandsOver m next p'
  halted-HandsOver m next p b h e =
      subst (HandsOver m next) (on-injective e)
        (record { before = h.before; after = h.after; ran = h.ran; handover = h.handover })

  enter_prime-HandsOver :
      (c : Control N) (p : Process N) {p' : Process N}
      → enter_prime ctl i c p ≡ on p'
      → HandsOver prime c.next_mode p'
  unfolding enter_prime
  enter_prime-HandsOver c p h =
      let (q, ran, e) = >>=-eq-on (run_cycle ctl prime i.run (record p { control = c })) _ h in
      subst (HandsOver prime c.next_mode) (on-injective e) (record {
        before = record p { control = c };
        after = q;
        ran = ran;
        handover =
            next_mode-Handover c.next_mode _ i.next_writes (record q { settings = i.file_after });
      })

  enter_shutdown-HandsOver :
      (c : Control N) (p : Process N) {p' : Process N}
      → enter_shutdown ctl i c p ≡ on p'
      → HandsOver shutdown stop p'
  unfolding enter_shutdown
  enter_shutdown-HandsOver c p h =
      let (q, ran, e) = >>=-eq-on (cycle_then ctl i shutdown stop (# 0) _) _ h in
      halted-HandsOver shutdown stop q _ (cycle_then-HandsOver shutdown stop (# 0) _ ran) e

  -- Where the main loop comes back from Smoke, Hold, Prime, Shutdown or Reignite, a cycle of that
  -- mode ran to its end, and after it either a request that came in stands as it is, or the mode
  -- that was planned is announced: the next mode of the structure, Stop after Shutdown, the mode
  -- before the fire went out after Reignite. In both cases a mode is announced, and the safety data
  -- and the notifications stay as the cycle left them.
  pub enter_mode-HandsOver :
      (m : Mode) (c : Control N) (p : Process N) (next : Mode) {p' : Process N}
      → planned m c ≡ some next
      → enter_mode ctl i m c p ≡ on p'
      → HandsOver m next p'
  unfolding enter_mode enter_reignite
  enter_mode-HandsOver smoke c p next {p'} e h =
      subst (λ (n : Mode). HandsOver smoke n p') (some-injective _ _ e)
        (cycle_then-HandsOver smoke c.next_mode _ _ h)
  enter_mode-HandsOver hold c p next {p'} e h =
      subst (λ (n : Mode). HandsOver hold n p') (some-injective _ _ e)
        (cycle_then-HandsOver hold c.next_mode _ _ h)
  enter_mode-HandsOver prime c p next {p'} e h =
      subst (λ (n : Mode). HandsOver prime n p') (some-injective _ _ e)
        (enter_prime-HandsOver c p h)
  enter_mode-HandsOver shutdown c p next {p'} e h =
      subst (λ (n : Mode). HandsOver shutdown n p') (some-injective _ _ e)
        (enter_shutdown-HandsOver c p h)
  enter_mode-HandsOver reignite c p next {p'} e h =
      subst (λ (n : Mode). HandsOver reignite n p') (some-injective _ _ e)
        (cycle_then-HandsOver reignite c.safety.reignitelaststate _ _ h)
  enter_mode-HandsOver stop c p next e h = cc
  enter_mode-HandsOver error c p next e h = cc
  enter_mode-HandsOver startup c p next e h = cc
  enter_mode-HandsOver monitor c p next e h = cc
  enter_mode-HandsOver manual c p next e h = cc
  enter_mode-HandsOver recipe c p next e h = cc
