-- ===== src/Api/Lifespan/Supervisor.antt =====
-- `_supervise_task` of tg_conductor/api/lifespan.py, over the runs that the task has. Times are those
-- of the event loop's clock, which never goes back.
pub mod Bursts
use tg_conductor.Base.{
  ℕ, ◌+◌, ◌-◌, min, Bool, Option, none, some, List, [], ◌∷◌, ◌++◌, ltb, if◌then◌else◌, length,
  filter,
}
use Prim.Native.Nat.{◌^◌}

-- how one `await factory()` ends, and when it crashed; `cancelled` in the run or the sleep before it
pub data TaskRun : Type 0 where
  completed cancelled : TaskRun
  crashed : ℕ → TaskRun

pub data End : Type 0 where
  graceful was_cancelled : End
  gave_up : ℕ → End

abbrev pub backoff : ℕ → ℕ
backoff failures = min (2 ^ failures) 30

module _ (failure_window max_failures : ℕ) where
  abbrev pub recent : ℕ → ℕ → Bool
  recent now t = ltb (now - t) failure_window

  abbrev pub failures_at : ℕ → List ℕ → List ℕ
  failures_at now failures = filter (recent now) failures ++ now ∷ []

  -- how it ends, `none` if it goes on after the runs, and the seconds that it slept
  unfoldable pub supervise : List TaskRun → List ℕ → Option End × List ℕ
  supervise [] failures = (none, [])
  supervise (completed ∷ runs) failures = (some graceful, [])
  supervise (cancelled ∷ runs) failures = (some was_cancelled, [])
  supervise (crashed now ∷ runs) failures =
      let rest = supervise runs (failures_at now failures) in
      let count = length (failures_at now failures) in
      if ltb max_failures count
      then (some (gave_up count), [])
      else (rest.0, backoff count ∷ rest.1)
