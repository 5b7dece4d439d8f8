-- ===== src/Runs/Models.antt =====
-- tg_conductor/runs/models.py and the statements of runs/repo.py on `runs`.
use tg_conductor.Base.{
  ℕ, ◌+◌, String, Bool, true, false, ◌&&◌, Option, none, some, List, [], ◌∷◌, ◌++◌, ltb, ◌==◌,
  if◌then◌else◌, length, filter, update, first, take, sort_desc,
}

pub data RunStatus : Type 0 where
  running succeeded failed canceled : RunStatus

abbrev pub is_running : RunStatus → Bool
is_running running = true
is_running _ = false

pub record RunRow : Type 0 where
  pub id : ℕ
  pub owner_id : ℕ
  pub workflow_id : ℕ
  pub account_id : ℕ
  pub job_id : ℕ
  pub status : RunStatus
  pub error : Option String
  pub started_at : ℕ
  pub finished_at : Option ℕ

pub record Runs : Type 0 where
  pub rows : List RunRow
  pub next_id : ℕ

abbrev pub new_run : ℕ → ℕ → ℕ → ℕ → ℕ → ℕ → RunRow
new_run id owner_id workflow_id account_id job_id started_at = record {
  id = id;
  owner_id = owner_id;
  workflow_id = workflow_id;
  account_id = account_id;
  job_id = job_id;
  status = running;
  error = none;
  started_at = started_at;
  finished_at = none;
}

unfoldable pub create_run : ℕ → ℕ → ℕ → ℕ → ℕ → Runs → ℕ × Runs
create_run owner_id workflow_id account_id job_id started_at runs = (
  runs.next_id,
  record {
    rows = runs.rows ++ new_run runs.next_id owner_id workflow_id account_id job_id started_at ∷ [];
    next_id = runs.next_id + 1;
  },
)

abbrev pub finish_row : RunStatus → Option String → ℕ → RunRow → RunRow
finish_row status error now r = record r { status = status; error = error; finished_at = some now }

abbrev pub is_open : ℕ → ℕ → RunRow → Bool
is_open run_id owner_id r = r.id == run_id && r.owner_id == owner_id && is_running r.status

-- `none` is the `ValueError` on a status that is not terminal
unfoldable pub mark_finished : ℕ → ℕ → RunStatus → Option String → ℕ → Runs → Option (Bool × Runs)
mark_finished run_id owner_id status error now runs =
    if is_running status
    then none
    else some (
      ltb 0 (length (filter (is_open run_id owner_id) runs.rows)),
      record runs {
        rows = update (is_open run_id owner_id) (finish_row status error now) runs.rows;
      },
    )

unfoldable pub get_by_id : ℕ → ℕ → Runs → Option RunRow
get_by_id run_id owner_id runs =
    first (filter (λ r. r.id == run_id && r.owner_id == owner_id) runs.rows)

abbrev pub run_status_eq : RunStatus → RunStatus → Bool
run_status_eq running running = true
run_status_eq succeeded succeeded = true
run_status_eq failed failed = true
run_status_eq canceled canceled = true
run_status_eq _ _ = false

abbrev pub if_given {ℓ} : {A : Type ℓ} → Option A → (A → Bool) → Bool
if_given none p = true
if_given (some a) p = p a

unfoldable pub list_for_owner : ℕ → Option ℕ → Option RunStatus → ℕ → Runs → List RunRow
list_for_owner owner_id workflow_id status limit runs = take limit (
    sort_desc (λ (r : RunRow). r.started_at)
      (filter
        (λ r.
          r.owner_id == owner_id
          && if_given workflow_id (λ w. r.workflow_id == w)
          && if_given status (run_status_eq r.status))
        runs.rows))
