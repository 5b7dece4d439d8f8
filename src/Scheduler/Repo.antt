-- ===== src/Scheduler/Repo.antt =====
-- tg_conductor/scheduler/repo.py. A statement maps the rows of the table: WHERE is a test, ORDER BY
-- a stable sort, LIMIT `take`, RETURNING the new rows. `utcnow` is the clock that `_utcnow` reads.
pub mod Lifecycle
pub mod Claim
pub mod Claims
pub mod Waiting
pub mod Exclusive
pub mod History
pub mod Keyed
use tg_conductor.Base.{
  ℕ, suc, ◌+◌, String, Bool, true, false, ◌&&◌, Option, none, some, List, [], ◌∷◌, ◌++◌, ltb, ◌==◌,
  if◌then◌else◌, length, take, elem, filter, update, sort_by,
}
use tg_conductor.Scheduler.Models.{
  JobStatus, pending, running, succeeded, failed, skipped, canceled, is_pending, JobRow, Jobs,
}
use tg_conductor.TgCore.Protocol.{MessagePayload}

-- what `create_pending` and `dispatch_immediate` give of a new row
pub record NewJob : Type 0 where
  pub owner_id : ℕ
  pub workflow_id : ℕ
  pub account_id : ℕ
  pub fire_at : ℕ
  pub status : JobStatus
  pub started_at : Option ℕ
  pub resolved_payload : Option MessagePayload
  pub expansion_date : Option ℕ

abbrev pub row_of : ℕ → ℕ → NewJob → JobRow
row_of id utcnow n = record {
  id = id;
  owner_id = n.owner_id;
  workflow_id = n.workflow_id;
  account_id = n.account_id;
  fire_at = n.fire_at;
  status = n.status;
  variant_id = none;
  resolved_payload = n.resolved_payload;
  run_id = none;
  skip_reason = none;
  started_at = n.started_at;
  finished_at = none;
  created_at = utcnow;
  expansion_date = n.expansion_date;
}

-- `session.add(row); await session.flush()`
unfoldable pub add_row : ℕ → NewJob → Jobs → JobRow × Jobs
add_row utcnow n jobs =
    let row : JobRow = row_of jobs.next_id utcnow n in
    (row, record jobs { rows = jobs.rows ++ row ∷ []; next_id = jobs.next_id + 1 })

module _ (owner_id workflow_id account_id fire_at utcnow : ℕ) where
  unfoldable pub create_pending : Option ℕ → Jobs → JobRow × Jobs
  unfolding add_row
  create_pending expansion_date jobs =
      add_row utcnow
        (record {
          owner_id = owner_id;
          workflow_id = workflow_id;
          account_id = account_id;
          fire_at = fire_at;
          status = pending;
          started_at = none;
          resolved_payload = none;
          expansion_date = expansion_date;
        })
        jobs

abbrev pub head? {ℓ} : {A : Type ℓ} → List A → Option A
head? [] = none
head? (x ∷ xs) = some x

unfoldable pub get_by_id : ℕ → ℕ → Jobs → Option JobRow
get_by_id job_id owner_id jobs =
    head? (filter (λ r. r.id == job_id && r.owner_id == owner_id) jobs.rows)

abbrev pub status_eq : JobStatus → JobStatus → Bool
status_eq pending pending = true
status_eq running running = true
status_eq succeeded succeeded = true
status_eq failed failed = true
status_eq skipped skipped = true
status_eq canceled canceled = true
status_eq _ _ = false

-- an optional WHERE condition
abbrev pub unless_given {ℓ} : {A : Type ℓ} → Option A → (A → Bool) → Bool
unless_given none p = true
unless_given (some a) p = p a

unfoldable pub list_for_owner : ℕ → Option ℕ → Option JobStatus → ℕ → Jobs → List JobRow
list_for_owner owner_id workflow_id status limit jobs = take limit (
    sort_by (λ (r : JobRow). r.fire_at)
      (filter
        (λ r.
          r.owner_id == owner_id
          && unless_given workflow_id (λ w. r.workflow_id == w)
          && unless_given status (λ s. status_eq r.status s))
        jobs.rows))

abbrev pub date_is : Option ℕ → ℕ → Bool
date_is none d = false
date_is (some e) d = e == d

unfoldable pub count_for_expansion : ℕ → ℕ → Jobs → ℕ
count_for_expansion workflow_id expansion_date jobs = length (
    filter (λ r. r.workflow_id == workflow_id && date_is r.expansion_date expansion_date) jobs.rows)

-- An UPDATE and its `rowcount`.
abbrev pub update_rows : (JobRow → Bool) → (JobRow → JobRow) → Jobs → ℕ × Jobs
update_rows p f jobs = (length (filter p jobs.rows), record jobs { rows = update p f jobs.rows })

abbrev pub cancel_row : ℕ → JobRow → JobRow
cancel_row utcnow r = record r { status = canceled; finished_at = some utcnow }

unfoldable pub cancel_pending : ℕ → ℕ → ℕ → Jobs → Bool × Jobs
cancel_pending job_id owner_id utcnow jobs =
    let (n, jobs') =
      update_rows (λ r. r.id == job_id && r.owner_id == owner_id && is_pending r.status)
        (cancel_row utcnow) jobs in
    (ltb 0 n, jobs')

unfoldable pub cancel_pending_for_workflows : List ℕ → ℕ → ℕ → Jobs → ℕ × Jobs
cancel_pending_for_workflows [] owner_id utcnow jobs = (0, jobs)
cancel_pending_for_workflows (w ∷ ws) owner_id utcnow jobs =
    update_rows (λ r. r.owner_id == owner_id && elem r.workflow_id (w ∷ ws) && is_pending r.status)
      (cancel_row utcnow) jobs

abbrev pub given_or {ℓ} : {A : Type ℓ} → Option A → Option A → Option A
given_or none old = old
given_or (some a) old = some a

abbrev pub fail_row : String → Option ℕ → ℕ → JobRow → JobRow
fail_row reason run_id utcnow r = record r {
  status = failed;
  skip_reason = some reason;
  finished_at = some utcnow;
  run_id = given_or run_id r.run_id;
}

abbrev pub succeed_row : Option ℕ → ℕ → JobRow → JobRow
succeed_row run_id utcnow r = record r {
  status = succeeded;
  finished_at = some utcnow;
  run_id = given_or run_id r.run_id;
}

abbrev pub owns : ℕ → ℕ → JobRow → Bool
owns job_id owner_id r = r.id == job_id && r.owner_id == owner_id

unfoldable pub mark_failed : ℕ → ℕ → String → Option ℕ → ℕ → Jobs → Bool × Jobs
mark_failed job_id owner_id reason run_id utcnow jobs =
    let (n, jobs') = update_rows (owns job_id owner_id) (fail_row reason run_id utcnow) jobs in
    (ltb 0 n, jobs')

unfoldable pub mark_succeeded : ℕ → ℕ → Option ℕ → ℕ → Jobs → Bool × Jobs
mark_succeeded job_id owner_id run_id utcnow jobs =
    let (n, jobs') = update_rows (owns job_id owner_id) (succeed_row run_id utcnow) jobs in
    (ltb 0 n, jobs')
