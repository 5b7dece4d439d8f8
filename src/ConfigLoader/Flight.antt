-- ===== src/ConfigLoader/Flight.antt =====
-- The slots of the reloader of tg_conductor/config_loader/reload.py. A task is known by its number,
-- in the order of creation; a turn of a task runs it up to its next wait, the lock being free. A turn
-- of a task that is blocked does nothing. How many waits the execution of each task has is the
-- outside's, and any number. Whether an execution succeeds or raises makes no difference
-- to the slots.
pub mod Roles
pub mod Turns
pub mod Single
pub mod Frame
pub mod Once
pub mod Live
pub mod LiveTurns
pub mod Ends
pub mod Callers
use tg_conductor.Base.{
  ℕ, zero, suc, ◌+◌, Bool, true, false, ◌||◌, Option, none, some, List, [], ◌∷◌, ◌==◌,
  if◌then◌else◌,
}

-- where a task is; `executing k` has k more waits before its last stretch, and `closing true` is a cancelled one on its way to the `finally`
pub data Phase : Type 0 where
  unborn : Phase
  starting : Phase
  queued : Phase
  waiting : ℕ → Phase
  executing : ℕ → Phase
  closing : Bool → Phase
  finished : Phase
  cancelled : Phase

pub record Reloader : Type 0 where
  pub running : Option ℕ
  pub pending : Option ℕ
  pub phase : ℕ → Phase
  pub next_task : ℕ
  -- the waits of the execution of each task
  pub awaits : ℕ → ℕ

abbrev pub new_reloader : (ℕ → ℕ) → Reloader
new_reloader awaits = record {
  running = none;
  pending = none;
  phase = λ i. unborn;
  next_task = 0;
  awaits = awaits;
}

unfoldable pub set_phase : ℕ → Phase → (ℕ → Phase) → ℕ → Phase
set_phase id p phases i = if i == id then p else phases i

abbrev pub move : ℕ → Phase → Reloader → Reloader
move id p s = record s { phase = set_phase id p s.phase }

-- `reload` under its lock: the task that the caller awaits, and the slots
unfoldable pub reload : Reloader → ℕ × Reloader
unfolding set_phase
reload s = elim s.running [
  | none ↦ (
    s.next_task,
    record s {
      running = some s.next_task;
      phase = set_phase s.next_task starting s.phase;
      next_task = s.next_task + 1;
    },
  )
  | some r ↦ elim s.pending [
    | none ↦ (
      s.next_task,
      record s {
        pending = some s.next_task;
        phase = set_phase s.next_task queued s.phase;
        next_task = s.next_task + 1;
      },
    )
    | some p ↦ (p, s)
  ]
]

-- the `finally` of both wrappers
abbrev pub promote : ℕ → Bool → Reloader → Reloader
promote id was_cancelled s = record {
  running = s.pending;
  pending = none;
  phase = set_phase id (if was_cancelled then cancelled else finished) s.phase;
  next_task = s.next_task;
  awaits = s.awaits;
}

-- `previous = self._running`
abbrev pub read_previous : ℕ → Option ℕ → Reloader → Reloader
read_previous id none s = move id (executing (s.awaits id)) s
read_previous id (some q) s = move id (waiting q) s

-- `await previous`: an exception is swallowed, a cancellation is not
abbrev pub await_previous : ℕ → Phase → Reloader → Reloader
await_previous id finished s = move id (executing (s.awaits id)) s
await_previous id cancelled s = move id cancelled s
await_previous id unborn s = s
await_previous id starting s = s
await_previous id queued s = s
await_previous id (waiting q) s = s
await_previous id (executing k) s = s
await_previous id (closing c) s = s

-- a task that awaits itself is refused by asyncio, and goes on
abbrev pub wrap_turn : ℕ → Phase → Reloader → Reloader
wrap_turn id starting s = move id (executing (s.awaits id)) s
wrap_turn id queued s = read_previous id s.running s
wrap_turn id (waiting q) s =
    if q == id then move id (executing (s.awaits id)) s else await_previous id (s.phase q) s
wrap_turn id (executing zero) s = move id (closing false) s
wrap_turn id (executing (suc k)) s = move id (executing k) s
wrap_turn id (closing c) s = promote id c s
wrap_turn id unborn s = s
wrap_turn id finished s = s
wrap_turn id cancelled s = s

unfoldable pub resume : ℕ → Reloader → Reloader
unfolding set_phase
resume id s = wrap_turn id (s.phase id) s

-- the phase in which a cancellation leaves a task that awaits nothing but itself
abbrev pub cancel_phase : Phase → Phase
cancel_phase (executing k) = closing true
cancel_phase unborn = unborn
cancel_phase finished = finished
cancel_phase starting = cancelled
cancel_phase queued = cancelled
cancel_phase (waiting q) = cancelled
cancel_phase (closing c) = cancelled
cancel_phase cancelled = cancelled

abbrev pub is_dead : Phase → Bool
is_dead unborn = true
is_dead finished = true
is_dead cancelled = true
is_dead starting = false
is_dead queued = false
is_dead (waiting q) = false
is_dead (executing k) = false
is_dead (closing c) = false

-- a cancellation goes to the task that is awaited
abbrev pub cancel_at : ℕ → Phase → Reloader → Reloader
cancel_at id (waiting q) s =
    if q == id || is_dead (s.phase q)
    then move id cancelled s
    else move q (cancel_phase (s.phase q)) s
cancel_at id unborn s = move id unborn s
cancel_at id starting s = move id cancelled s
cancel_at id queued s = move id cancelled s
cancel_at id (executing k) s = move id (closing true) s
cancel_at id (closing c) s = move id cancelled s
cancel_at id finished s = move id finished s
cancel_at id cancelled s = move id cancelled s

unfoldable pub cancel : ℕ → Reloader → Reloader
unfolding set_phase
cancel id s = cancel_at id (s.phase id) s

pub data Turn : Type 0 where
  call : Turn
  resumed : ℕ → Turn
  stopped : ℕ → Turn

abbrev pub turn : Turn → Reloader → Reloader
turn call s = (reload s).1
turn (resumed id) s = resume id s
turn (stopped id) s = cancel id s

unfoldable pub run_turns : List Turn → Reloader → Reloader
unfolding reload resume cancel
run_turns [] s = s
run_turns (t ∷ turns) s = run_turns turns (turn t s)
