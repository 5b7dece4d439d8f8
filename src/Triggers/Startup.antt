-- ===== src/Triggers/Startup.antt =====
-- `StartupTracker` of tg_conductor/triggers/startup.py: whether the startup triggers have fired.
use tg_conductor.Base.{Bool, true, false, if◌then◌else◌}

pub record StartupTracker : Type 0 where
  pub fired : Bool

unfoldable pub consume : StartupTracker → Bool × StartupTracker
consume t = if t.fired then (false, t) else (true, record t { fired = true })
