-- ===== src/Controllers/Smith.antt =====
-- What controller/pid_sp.py puts out.
use fire_ai.Prelude.{◌≡◌, ◌∙◌, Bool, not, ◌&&◌, ◌||◌, if◌then◌else◌, arith}
use fire_ai.Prelude.Num.{Num, ◌<?◌, ◌≤?◌, ◌+!◌, ◌-!◌, ◌*!◌, ◌/!◌, #, min, max}
use fire_ai.Controllers.{Gains, neg, abs}
use fire_ai.Controllers.Adaptive.{
  AdaptivePid, reached, reset_integral, reset_derivative, prepared, reduced, sp_output,
}

module _ {N : Type 0} ⦃o : Num N⦄ where
  -- What the preparations leave alone.
  record IsTuned (c c' : AdaptivePid N) : Type 0 where
    gains : c'.gains ≡ c.gains
    center : c'.center ≡ c.center
    set_point : c'.set_point ≡ c.set_point
    last : c'.last ≡ c.last

  reached-IsTuned : (error : N) (c : AdaptivePid N) → IsTuned c (reached error c)
  reached-IsTuned error c = ground arith

  reset_integral-IsTuned :
      (now error : N) (c : AdaptivePid N) → IsTuned c (reset_integral now error c)
  reset_integral-IsTuned now error c = ground arith

  reset_derivative-IsTuned :
      (current error : N) (c : AdaptivePid N)
      → IsTuned c (reset_derivative current error c)
        × ((reset_derivative current error c).inter ≡ c.inter)
  reset_derivative-IsTuned current error c = ground arith

  IsTuned-trans : (a b c : AdaptivePid N) → IsTuned a b → IsTuned b c → IsTuned a c
  IsTuned-trans a b c f g = record {
    gains = g.gains ∙ f.gains;
    center = g.center ∙ f.center;
    set_point = g.set_point ∙ f.set_point;
    last = g.last ∙ f.last;
  }

  -- Whether the integral starts over: outside the stable window, or late on the way to a set point
  -- that is new and has not been reached.
  abbrev pub starts_over : N → N → AdaptivePid N → Bool
  starts_over now error c =
      (c.stable_window <? abs error)
      || ((c.new_target && not (abs error ≤? # 3))
          && ((c.cycle_time *! # 3) ≤? (now -! c.last_set_time))
          && (abs error ≤? (abs (c.start_change_temp -! c.set_point) /! # 2)))

  inter-reset_integral :
      (now error : N) (c : AdaptivePid N)
      → (reset_integral now error (reached error c)).inter
        ≡ (if starts_over now error c then # 0 else c.inter)
  inter-reset_integral now error c = ground arith

  prepared-IsTuned :
      (now current error : N) (c : AdaptivePid N)
      → IsTuned c (prepared now current error c)
        × ((prepared now current error c).inter
            ≡ (if starts_over now error c then # 0 else c.inter))
  prepared-IsTuned now current error c =
      let c1 = reached error c in
      let c2 = reset_integral now error c1 in
      let (last, same) = reset_derivative-IsTuned current error c2 in
      (
        IsTuned-trans c c1 _ (reached-IsTuned error c)
            (IsTuned-trans c1 c2 _ (reset_integral-IsTuned now error c1) last),
        same ∙ inter-reset_integral now error c,
      )

  reduced-parts :
      (now error : N) (c : AdaptivePid N)
      → ((reduced now error c).p ≡ c.p)
        × ((reduced now error c).i ≡ c.i)
        × ((reduced now error c).d ≡ c.d)
  reduced-parts now error c = ground arith

  -- The three parts and their sum.
  abbrev parts : N → N → Gains N → N → N → N → N → N
  parts dt predicted g center set_point last inter =
      (g.kp *! (predicted -! set_point) +! center)
      +! max (min (g.ki *! (inter +! (predicted -! set_point) *! dt)) center) (neg center)
      +! g.kd *! ((predicted -! last) /! dt)

  sum-reduced :
      (now error : N) (c : AdaptivePid N)
      → (reduced now error c).p +! (reduced now error c).i +! (reduced now error c).d
        ≡ c.p +! c.i +! c.d
  sum-reduced now error c = let (p, i, d) = reduced-parts now error c in λ j. p j +! i j +! d j

  -- Within the band, the output is the sum of the three parts: the proportional part of the predicted
  -- error around the centre, the integral part cut at the centre, and the derivative part. Neither the
  -- reduction of the output to 65 % nor the derivative's reset shows in it.
  pub sp_output-u :
      (now dt current predicted error : N) (c : AdaptivePid N)
      → let predicted_error = predicted -! c.set_point in
        let inter = if starts_over now error c then # 0 else c.inter in
        (sp_output now dt current predicted error c).u
        ≡ (c.gains.kp *! predicted_error +! c.center)
          +! max (min (c.gains.ki *! (inter +! predicted_error *! dt)) c.center) (neg c.center)
          +! c.gains.kd *! ((predicted -! c.last) /! dt)
  unfolding sp_output
  sp_output-u now dt current predicted error c =
      let (t, same) = prepared-IsTuned now current error c in
      sum-reduced now error _
      ∙ (λ j. parts dt predicted (t.gains j) (t.center j) (t.set_point j) (t.last j) (same j))
