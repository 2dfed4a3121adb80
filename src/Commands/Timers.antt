-- ===== src/Commands/Timers.antt =====
-- The cook timer of core/commands.py: what its commands do to the timer and to its notification.
use fire_ai.Prelude.Num.{Num}
