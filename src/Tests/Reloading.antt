-- ===== src/Tests/Reloading.antt =====
-- Reloads that share an execution, at concrete schedules.
use tg_conductor.Base.{ℕ, ◌+◌, ◌≤◌, ◌≡◌, refl, false, some, List, [], ◌∷◌, ◌++◌, arith}
use tg_conductor.ConfigLoader.Flight.{
  executing, finished, cancelled, Reloader, new_reloader, reload, Turn, call, resumed, stopped,
  run_turns,
}
use tg_conductor.ConfigLoader.Flight.Once.{has_begun, call_times, run_turns-single_flight}
use tg_conductor.ConfigLoader.Flight.Callers.{reload-finishes}

-- every execution waits once
abbrev one_wait : ℕ → ℕ
one_wait i = 1

-- a reload in its execution, and one that waits for it
abbrev history : List Turn
history = call ∷ resumed 0 ∷ call ∷ resumed 1 ∷ []

run_turns-single_flight_example :
    ((i j k l : ℕ)
      → (run_turns history (new_reloader one_wait)).phase i ≡ executing k
      → (run_turns history (new_reloader one_wait)).phase j ≡ executing l
      → i ≡ j)
    × (has_begun (
          (reload (run_turns history (new_reloader one_wait))).1.phase
            (reload (run_turns history (new_reloader one_wait))).0)
        ≡ false)
    × ((n : ℕ)
        → (call_times n (run_turns history (new_reloader one_wait))).next_task
          ≤ (run_turns history (new_reloader one_wait)).next_task + 2)
run_turns-single_flight_example = run_turns-single_flight one_wait history

abbrev first_turns : List Turn
first_turns = resumed 0 ∷ resumed 0 ∷ resumed 1 ∷ resumed 0 ∷ call ∷ resumed 0 ∷ resumed 0 ∷ []

abbrev own_turns : List Turn
own_turns = resumed 1 ∷ resumed 1 ∷ resumed 1 ∷ resumed 1 ∷ call ∷ resumed 1 ∷ []

reload-finishes_example :
    (run_turns own_turns
        (run_turns first_turns (reload (run_turns history (new_reloader one_wait))).1)).phase
      (reload (run_turns history (new_reloader one_wait))).0
    ≡ finished
unfolding run_turns
reload-finishes_example =
    reload-finishes one_wait history first_turns own_turns 0 (refl, (refl, (refl, (refl, tt))))
      (refl, (refl, (refl, (refl, (refl, (refl, (refl, tt)))))))
      (refl, (refl, (refl, (refl, (refl, (refl, tt)))))) refl (omega arith) (omega arith)

-- A cancelled execution takes the task that waits for it along, which stays in the first slot; a later
-- call is queued behind it, is cancelled as well, and the call after that is given this task.
abbrev stopped_turns : List Turn
stopped_turns = stopped 0 ∷ resumed 0 ∷ resumed 1 ∷ call ∷ resumed 2 ∷ resumed 2 ∷ call ∷ []

abbrev stuck : Reloader
unfolding run_turns
stuck = run_turns (history ++ stopped_turns) (new_reloader one_wait)

stopped_run :
    (stuck.running ≡ some 1)
    × (stuck.phase 1 ≡ cancelled)
    × (stuck.phase 2 ≡ cancelled)
    × ((reload stuck).0 ≡ 2)
unfolding reload stuck
stopped_run = (refl, refl, refl, refl)
