-- ===== src/Scheduler/AccountWorker/Marks.antt =====
-- The two halves of `_mark_terminal` in tg_conductor/scheduler/account_worker.py, on their tables.
use tg_conductor.Base.{
  ℕ, ◌+◌, ◌<◌, String, ◌≡◌, refl, ap, inl, inr, Bool, true, false, not, Option, some, List, [], ◌∷◌,
  ◌++◌, arith, if◌then◌else◌, Bool-cases, All, filter, update, update-All,
}
use tg_conductor.Scheduler.Models.{JobStatus, JobRow, Jobs}
use tg_conductor.Scheduler.Repo.{fail_row, succeed_row, owns, mark_failed, mark_succeeded}
use tg_conductor.Scheduler.Repo.Lifecycle.{every}
use tg_conductor.Runs.Models.{RunStatus, RunRow, Runs, finish_row, is_open, mark_finished}
use tg_conductor.Actions.Executor.{ExecutionResult}
use tg_conductor.Scheduler.AccountWorker.{
  error_text, or_unknown, run_status, runs_or, close_run, close_job,
}

abbrev pub job_status : Bool → JobStatus
job_status true = JobStatus.succeeded
job_status false = JobStatus.failed

module _ (job_id owner_id : ℕ) where
  filter-update_owned :
      (f : JobRow → JobRow)
      → ((r : JobRow) → owns job_id owner_id (f r) ≡ owns job_id owner_id r)
      → (rows : List JobRow)
      → filter (λ r. not (owns job_id owner_id r)) (update (owns job_id owner_id) f rows)
        ≡ filter (λ r. not (owns job_id owner_id r)) rows
  filter-update_owned f same [] = refl
  filter-update_owned f same (r ∷ rows) = elim (Bool-cases (owns job_id owner_id r)) [
    | inl e ↦ rw e (rw (same r) (rw e (filter-update_owned f same rows)))
    | inr e ↦ rw e (rw e (ap (λ (t : List JobRow). r ∷ t) (filter-update_owned f same rows)))
  ]

  update_owned-status :
      (f : JobRow → JobRow) (x : JobStatus)
      → ((r : JobRow) → (f r).status ≡ x)
      → (rows : List JobRow)
      → All
          (λ (r : JobRow). owns job_id owner_id r ≡ true → r.status ≡ x)
          (update (owns job_id owner_id) f rows)
  update_owned-status f x h rows =
      update-All (owns job_id owner_id) f
        (λ (r : JobRow). owns job_id owner_id r ≡ true → r.status ≡ x) rows (every one rows)
    where
      one :
          (r : JobRow)
          → owns job_id owner_id (if owns job_id owner_id r then f r else r) ≡ true
          → (if owns job_id owner_id r then f r else r).status ≡ x
      one r = elim (Bool-cases (owns job_id owner_id r)) [
        | inl e ↦ rw e (λ k. h r)
        | inr e ↦ rw e (λ k. absurd (ground (arith, e, k)))
      ]

-- Only the job itself is written, and it is marked with what the result says.
pub record IsMarked (job_id owner_id : ℕ) (success : Bool) (jobs jobs' : Jobs) : Type 0 where
  pub job_ended :
      All (λ (r : JobRow). owns job_id owner_id r ≡ true → r.status ≡ job_status success) jobs'.rows
  pub others :
      filter (λ r. not (owns job_id owner_id r)) jobs'.rows
      ≡ filter (λ r. not (owns job_id owner_id r)) jobs.rows

pub failed-IsMarked :
    (job_id owner_id utcnow : ℕ) (reason : String) (run_id : Option ℕ) (jobs : Jobs)
    → IsMarked job_id owner_id false jobs (mark_failed job_id owner_id reason run_id utcnow jobs).1
unfolding mark_failed
failed-IsMarked j o u reason run_id jobs = record {
  job_ended =
      update_owned-status j o (fail_row reason run_id u) JobStatus.failed (λ r. refl) jobs.rows;
  others = filter-update_owned j o (fail_row reason run_id u) (λ r. refl) jobs.rows;
}

succeeded-IsMarked :
    (job_id owner_id utcnow : ℕ) (run_id : Option ℕ) (jobs : Jobs)
    → IsMarked job_id owner_id true jobs (mark_succeeded job_id owner_id run_id utcnow jobs).1
unfolding mark_succeeded
succeeded-IsMarked j o u run_id jobs = record {
  job_ended =
      update_owned-status j o (succeed_row run_id u) JobStatus.succeeded (λ r. refl) jobs.rows;
  others = filter-update_owned j o (succeed_row run_id u) (λ r. refl) jobs.rows;
}

pub close_job-IsMarked :
    (owner_id utcnow job_id run_id : ℕ) (r : ExecutionResult) (jobs : Jobs)
    → IsMarked job_id owner_id r.success jobs
        (close_job owner_id utcnow job_id (some run_id) r jobs).1
close_job-IsMarked o u j run_id r jobs = by_success r.success (or_unknown r.error)
  where
    by_success :
        (success : Bool) (reason : String)
        → IsMarked j o success jobs
            (if success
              then mark_succeeded j o (some run_id) u jobs
              else mark_failed j o reason (some run_id) u jobs).1
    by_success true reason = succeeded-IsMarked j o u (some run_id) jobs
    by_success false reason = failed-IsMarked j o u reason (some run_id) jobs

update-fresh :
    (run_id owner_id : ℕ) (f : RunRow → RunRow) (rows : List RunRow) (r : RunRow)
    → All (λ (x : RunRow). x.id < run_id) rows
    → is_open run_id owner_id r ≡ true
    → update (is_open run_id owner_id) f (rows ++ r ∷ []) ≡ rows ++ f r ∷ []
update-fresh run_id owner_id f [] r below h = rw h refl
update-fresh run_id owner_id f (x ∷ rows) r below h =
    let old : is_open run_id owner_id x ≡ false = ground (arith, below.0) in
    rw old (ap (λ (t : List RunRow). x ∷ t) (update-fresh run_id owner_id f rows r below.1 h))

-- A terminal status closes the run that was opened last, and no other.
pub close_run-rows :
    (owner_id utcnow : ℕ) (r : ExecutionResult) (runs : Runs) (x : RunRow)
    → All (λ (y : RunRow). y.id < runs.next_id) runs.rows
    → is_open runs.next_id owner_id x ≡ true
    → (close_run owner_id utcnow
        (some runs.next_id)
        r
        (record { rows = runs.rows ++ x ∷ []; next_id = runs.next_id + 1 })).rows
      ≡ runs.rows ++ finish_row (run_status r.success) (error_text r.error) utcnow x ∷ []
unfolding mark_finished
close_run-rows o u r runs x below h = by_success r.success
  where
    by_success :
        (success : Bool)
        → (runs_or
            (record { rows = runs.rows ++ x ∷ []; next_id = runs.next_id + 1 })
            (mark_finished runs.next_id o
              (run_status success)
              (error_text r.error)
              u
              (record { rows = runs.rows ++ x ∷ []; next_id = runs.next_id + 1 }))).rows
          ≡ runs.rows ++ finish_row (run_status success) (error_text r.error) u x ∷ []
    by_success true =
        update-fresh runs.next_id o (finish_row RunStatus.succeeded (error_text r.error) u)
          runs.rows x below h
    by_success false =
        update-fresh runs.next_id o (finish_row RunStatus.failed (error_text r.error) u) runs.rows x
          below h
