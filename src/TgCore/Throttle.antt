-- ===== src/TgCore/Throttle.antt =====
-- tg_conductor/tg_core/throttle.py: the calls of one account. A turn of the loop of `call` holds the
-- lock from its first sleep to its last; between two turns another call may have its own. Time is the
-- loop's clock in microseconds; the calls and the sleep are the outside's.
pub mod Spaced
use tg_conductor.Base.{
  ℕ, zero, suc, ◌+◌, ◌-◌, String, Bool, true, false, Option, none, some, List, [], ◌∷◌, ltb, ◌==◌,
  if◌then◌else◌,
}

-- How `fn` ends: with a result, with `TGFloodWait`, or with another exception.
pub data Answer (A : Type 0) : Type 0 where
  answered : A → Answer A
  flood_wait : ℕ → Answer A
  failed_with : String → Answer A

pub record Clock : Type 0 where
  pub last_called_at : Option ℕ
  pub now : ℕ

-- One call of `fn`: its start and its end, the pause that a flood wait asks for after it, and whether it
-- set `_last_called_at`.
pub record Attempt : Type 0 where
  pub start : ℕ
  pub finish : ℕ
  pub pause : ℕ
  pub recorded : Bool

-- What a turn leaves: the end of the call, or its retries.
pub data Turned (A : Type 0) : Type 0 where
  ended : Answer A → Turned A
  again : ℕ → Turned A

module _ (min_interval : ℕ) (wake : ℕ → ℕ) where
  -- the time that the attempt starts: after the sleep, if there is a `wait`
  unfoldable pub start_of : Option ℕ → ℕ → ℕ
  start_of none now = now
  start_of (some last) now =
      let wait = min_interval - (now - last) in if ltb 0 wait then wake (now + wait) else now

abbrev pub set_retries : ℕ → Option ℕ → (ℕ → Option ℕ) → ℕ → Option ℕ
set_retries id r calls i = if i == id then r else calls i

module _ {A : Type 0} where
  abbrev pub ended_with : ℕ → ℕ → Bool → Answer A → Option ℕ → Attempt × Turned A × Clock
  ended_with start finish recorded answer last = (
    record { start = start; finish = finish; pause = 0; recorded = recorded },
    ended answer,
    record { last_called_at = last; now = finish },
  )

  abbrev pub retries_of : Turned A → Option ℕ
  retries_of (ended answer) = none
  retries_of (again retries) = some retries

module _ {A : Type 0} (min_interval padding : ℕ) (wake : ℕ → ℕ) where
  -- past the attempt, by its end, the retries that are left and its answer
  abbrev pub settled : ℕ → ℕ → ℕ → Option ℕ → Answer A → Attempt × Turned A × Clock
  settled start finish retries last (answered a) =
      ended_with start finish true (answered a) (some finish)
  settled start finish retries last (failed_with e) =
      ended_with start finish false (failed_with e) last
  settled start finish zero last (flood_wait seconds) =
      ended_with start finish true (flood_wait seconds) (some finish)
  settled start finish (suc retries) last (flood_wait seconds) = (
    record { start = start; finish = finish; pause = seconds + padding; recorded = true },
    again retries,
    record { last_called_at = some finish; now = wake (finish + (seconds + padding)) },
  )

  -- one turn of the loop of `AccountThrottle.call`, with `fn` by its start
  unfoldable pub call_turn : (ℕ → Answer A × ℕ) → ℕ → Clock → Attempt × Turned A × Clock
  unfolding start_of
  call_turn fn retries c =
      let start = start_of min_interval wake c.last_called_at c.now in
      settled start (fn start).1 retries c.last_called_at (fn start).0

  module _ (fn : ℕ → ℕ → Answer A × ℕ) where
    abbrev pub with_attempt :
        ℕ × Attempt
        → List (ℕ × Attempt) × (ℕ → Option ℕ) × Clock
        → List (ℕ × Attempt) × (ℕ → Option ℕ) × Clock
    with_attempt a run = (a ∷ run.0, run.1, run.2)

    -- The calls in the order in which they get the lock, each with the time that the account is idle
    -- before; `none` is a call that has ended.
    unfoldable pub run_schedule :
        List (ℕ × ℕ) → (ℕ → Option ℕ) → Clock → List (ℕ × Attempt) × (ℕ → Option ℕ) × Clock
    unfolding call_turn
    run_schedule [] calls c = ([], calls, c)
    run_schedule ((id, idle) ∷ schedule) calls c = elim (calls id) [
      | none ↦ run_schedule schedule calls c
      | some retries ↦
          let done = call_turn (fn id) retries (record c { now = c.now + idle }) in
          with_attempt (id, done.0)
            (run_schedule schedule (set_retries id (retries_of done.1) calls) done.2)
    ]
