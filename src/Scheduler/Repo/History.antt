-- ===== src/Scheduler/Repo/History.antt =====
-- The table of jobs through any sequence of the operations of tg_conductor/scheduler/repo.py.
use tg_conductor.Base.{
  ℕ, String, ◌≡◌, true, ◌&&◌, Option, List, [], ◌∷◌, arith, ◌==◌, All, All-map_weaken, elem, update,
}
use tg_conductor.Scheduler.Models.{running, is_pending, is_terminal, JobRow, Jobs}
use tg_conductor.Scheduler.Repo.{
  NewJob, row_of, add_row, cancel_row, fail_row, succeed_row, owns, cancel_pending,
  cancel_pending_for_workflows, mark_failed, mark_succeeded,
}
use tg_conductor.Scheduler.Repo.Claim.{start_row, skip_row, is_claimable, is_stale, claim_due_jobs}
use tg_conductor.Scheduler.Repo.Claims.{fresh_rows, chosen, claim_due_jobs_eq}
use tg_conductor.Scheduler.Repo.Lifecycle.{
  IsMove, Rowwise, Rowwise-refl, Rowwise-append, Rowwise-update, Rowwise-trans, every,
}

-- The job that is marked, if it is there, is running: a worker marks a job that it took from its
-- queue, and the dispatcher queues running jobs only.
abbrev pub MarksRunning : ℕ → ℕ → Jobs → Type 0
MarksRunning job_id owner_id s =
    All (λ r. owns job_id owner_id r ≡ true → r.status ≡ running) s.rows

-- One operation of the repository, by anybody.
pub data Step (s t : Jobs) : Type 0 where
  create : (utcnow : ℕ) (n : NewJob) → t ≡ (add_row utcnow n s).1 → Step s t
  claim_due :
      (owner_id now batch_size window : ℕ)
      → t ≡ record s { rows = (claim_due_jobs owner_id now batch_size window s.rows).1 }
      → Step s t
  cancel : (job_id owner_id utcnow : ℕ) → t ≡ (cancel_pending job_id owner_id utcnow s).1 → Step s t
  cancel_deleted :
      (workflow_ids : List ℕ) (owner_id utcnow : ℕ)
      → t ≡ (cancel_pending_for_workflows workflow_ids owner_id utcnow s).1
      → Step s t
  fail :
      (job_id owner_id : ℕ) (reason : String) (run_id : Option ℕ) (utcnow : ℕ)
      → MarksRunning job_id owner_id s
      → t ≡ (mark_failed job_id owner_id reason run_id utcnow s).1
      → Step s t
  succeed :
      (job_id owner_id : ℕ) (run_id : Option ℕ) (utcnow : ℕ)
      → MarksRunning job_id owner_id s
      → t ≡ (mark_succeeded job_id owner_id run_id utcnow s).1
      → Step s t

pub data Reach (s : Jobs) : Jobs → Type 0 where
  here : Reach s s
  next : {t u : Jobs} → Reach s t → Step t u → Reach s u

cancel-IsMove :
    (utcnow : ℕ) (r : JobRow) → is_pending r.status ≡ true → IsMove r (cancel_row utcnow r)
unfolding is_terminal
cancel-IsMove utcnow r h = ground arith

skip-IsMove : (now : ℕ) (r : JobRow) → is_pending r.status ≡ true → IsMove r (skip_row now r)
unfolding is_terminal
skip-IsMove now r h = ground arith

start-IsMove : (now : ℕ) (r : JobRow) → is_pending r.status ≡ true → IsMove r (start_row now r)
unfolding is_terminal
start-IsMove now r h = ground arith

fail-IsMove :
    (reason : String) (run_id : Option ℕ) (utcnow : ℕ) (r : JobRow)
    → r.status ≡ running
    → IsMove r (fail_row reason run_id utcnow r)
unfolding is_terminal
fail-IsMove reason run_id utcnow r h = ground arith

succeed-IsMove :
    (run_id : Option ℕ) (utcnow : ℕ) (r : JobRow)
    → r.status ≡ running
    → IsMove r (succeed_row run_id utcnow r)
unfolding is_terminal
succeed-IsMove run_id utcnow r h = ground arith

stale-IsMove :
    (owner_id now window : ℕ) (r : JobRow)
    → is_stale owner_id now window r ≡ true
    → IsMove r (skip_row now r)
stale-IsMove owner_id now window r h = skip-IsMove now r (ground arith)

claimable-IsMove :
    (ids : List ℕ) (now : ℕ) (r : JobRow) → is_claimable ids r ≡ true → IsMove r (start_row now r)
claimable-IsMove ids now r h = start-IsMove now r (ground arith)

claim-Rowwise :
    (owner_id now batch_size window : ℕ) (rows : List JobRow)
    → Rowwise IsMove rows (claim_due_jobs owner_id now batch_size window rows).1
claim-Rowwise owner_id now batch_size window rows =
    let ids = chosen owner_id now batch_size window rows in
    let table = fresh_rows owner_id now batch_size window rows in
    rw (claim_due_jobs_eq owner_id now batch_size window rows) (
      Rowwise-trans rows table (update (is_claimable ids) (start_row now) table)
        (Rowwise-update (is_stale owner_id now window) (skip_row now) rows
          (every (stale-IsMove owner_id now window) rows))
        (Rowwise-update (is_claimable ids) (start_row now) table
          (every (claimable-IsMove ids now) table)))

Step-Rowwise : {s t : Jobs} → Step s t → Rowwise IsMove s.rows t.rows
unfolding add_row cancel_pending cancel_pending_for_workflows mark_failed mark_succeeded
Step-Rowwise {s} (create utcnow n e) = rw e (Rowwise-append s.rows (row_of s.next_id utcnow n ∷ []))
Step-Rowwise {s} (claim_due o now b w e) = rw e (claim-Rowwise o now b w s.rows)
Step-Rowwise {s} (cancel i o u e) = rw e (
    Rowwise-update (λ r. r.id == i && r.owner_id == o && is_pending r.status) (cancel_row u) s.rows
      (every (λ r h. cancel-IsMove u r (ground arith)) s.rows))
Step-Rowwise {s} (cancel_deleted [] o u e) = rw e (Rowwise-refl s.rows)
Step-Rowwise {s} (cancel_deleted (w ∷ ws) o u e) = rw e (
    Rowwise-update (λ r. r.owner_id == o && elem r.workflow_id (w ∷ ws) && is_pending r.status)
      (cancel_row u) s.rows (every (λ r h. cancel-IsMove u r (ground arith)) s.rows))
Step-Rowwise {s} (fail i o reason run_id u m e) = rw e (
    Rowwise-update (owns i o) (fail_row reason run_id u) s.rows (
      All-map_weaken (λ r. owns i o r ≡ true → r.status ≡ running)
        (λ r. owns i o r ≡ true → IsMove r (fail_row reason run_id u r))
        (λ r k h. fail-IsMove reason run_id u r (k h)) s.rows m))
Step-Rowwise {s} (succeed i o run_id u m e) = rw e (
    Rowwise-update (owns i o) (succeed_row run_id u) s.rows (
      All-map_weaken (λ r. owns i o r ≡ true → r.status ≡ running)
        (λ r. owns i o r ≡ true → IsMove r (succeed_row run_id u r))
        (λ r k h. succeed-IsMove run_id u r (k h)) s.rows m))

-- Through any sequence of creations, claims, cancellations and of marks on running jobs, every row
-- stays in its place with its id, owner, workflow and time, its status moves along the arrows of the
-- lifecycle only, and a row that has ended never changes again.
pub jobs_lifecycle : {s t : Jobs} → Reach s t → Rowwise IsMove s.rows t.rows
jobs_lifecycle {s} here = Rowwise-refl s.rows
jobs_lifecycle {s} (next {t} {u} r st) =
    Rowwise-trans s.rows t.rows u.rows (jobs_lifecycle r) (Step-Rowwise st)
