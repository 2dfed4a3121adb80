-- ===== src/Controllers/Bounds.antt =====
-- The integral of controller/pid.py and its limit.
use fire_ai.Prelude.{◌≡◌, true, false}
use fire_ai.Prelude.Num.{Num, ◌≤?◌, ◌=?◌, #}
use fire_ai.Controllers.{neg}
use fire_ai.Controllers.Pid.{Pid, PidCall, update, set_target, set_gains, set_config}

-- The calls of a cook, after which the gains are what they were.
abbrev pub KeepsGains : {N : Type 0} → PidCall N → Type 0
KeepsGains (update now later current) = Unit
KeepsGains (set_target now set_point) = Unit
KeepsGains (set_gains pb ti td) = ⊥
KeepsGains (set_config now config) = ⊥

module _ {N : Type 0} ⦃o : Num N⦄ where
  -- The integral is between the limits, which are `limit`'s, and the output is centred.
  pub record IsWithin (limit : N) (c : Pid N) : Type 0 where
    pub centred : (c.center =? # 0) ≡ false
    pub same : c.inter_max ≡ limit
    pub above : (neg limit ≤? c.inter) ≡ true
    pub below : (c.inter ≤? limit) ≡ true
