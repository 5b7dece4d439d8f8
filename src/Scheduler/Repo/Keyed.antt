-- ===== src/Scheduler/Repo/Keyed.antt =====
-- Primary keys of the jobs table through the operations of tg_conductor/scheduler/repo.py.
use tg_conductor.Base.{
  ℕ, ◌+◌, ◌<◌, ◌≡◌, refl, ◌≢◌, Bool, true, false, ◌&&◌, List, [], ◌∷◌, ◌++◌, arith, ◌==◌,
  if◌then◌else◌, All, All-append, All-map_weaken, elem, update, Fresh, Distinct, Distinct-update,
}
use tg_conductor.Scheduler.Models.{is_pending, JobRow, Jobs}
use tg_conductor.Scheduler.Repo.{
  NewJob, row_of, add_row, cancel_row, fail_row, succeed_row, owns, cancel_pending,
  cancel_pending_for_workflows, mark_failed, mark_succeeded,
}
use tg_conductor.Scheduler.Repo.Claim.{start_row, skip_row, is_claimable, is_stale, claim_due_jobs}
use tg_conductor.Scheduler.Repo.Claims.{job_id, fresh_rows, chosen, claim_due_jobs_eq}
use tg_conductor.Scheduler.Repo.History.{
  Step, create, claim_due, cancel, cancel_deleted, fail, succeed, Reach, here, next,
}

-- Ids are distinct and below the next one.
pub record IsKeyed (s : Jobs) : Type 0 where
  pub distinct : Distinct job_id s.rows
  pub below : All (λ (r : JobRow). r.id < s.next_id) s.rows

Fresh-below :
    (i : ℕ) (rows : List JobRow) → All (λ (r : JobRow). r.id < i) rows → Fresh job_id i rows
Fresh-below i [] h = tt
Fresh-below i (r ∷ rows) h = (omega arith, Fresh-below i rows h.1)

Fresh-append :
    (i : ℕ) (rows : List JobRow) (r : JobRow)
    → Fresh job_id i rows
    → r.id ≢ i
    → Fresh job_id i (rows ++ r ∷ [])
Fresh-append i [] r f ne = (ne, tt)
Fresh-append i (x ∷ xs) r f ne = (f.0, Fresh-append i xs r f.1 ne)

Distinct-append :
    (rows : List JobRow) (r : JobRow)
    → Distinct job_id rows
    → All (λ (x : JobRow). x.id < r.id) rows
    → Distinct job_id (rows ++ r ∷ [])
Distinct-append [] r d b = (tt, tt)
Distinct-append (x ∷ xs) r d b =
    (Fresh-append x.id xs r d.0 (omega arith), Distinct-append xs r d.1 b.1)

below-update :
    (n : ℕ) (p : JobRow → Bool) (f : JobRow → JobRow)
    → ((r : JobRow) → (f r).id ≡ r.id)
    → (rows : List JobRow) → All (λ (r : JobRow). r.id < n) rows
    → All (λ (r : JobRow). r.id < n) (update p f rows)
below-update n p f same [] h = tt
below-update n p f same (x ∷ xs) h = (one (p x), below-update n p f same xs h.1)
  where
    one : (b : Bool) → (if b then f x else x).id < n
    one true = rw (same x) h.0
    one false = h.0

update-IsKeyed :
    (s : Jobs) (p : JobRow → Bool) (f : JobRow → JobRow)
    → ((r : JobRow) → (f r).id ≡ r.id)
    → IsKeyed s
    → IsKeyed (record s { rows = update p f s.rows })
update-IsKeyed s p f same k = record {
  distinct = Distinct-update job_id p f same s.rows k.distinct;
  below = below-update s.next_id p f same s.rows k.below;
}

pub create-IsKeyed :
    (s : Jobs) (utcnow : ℕ) (n : NewJob) → IsKeyed s → IsKeyed (add_row utcnow n s).1
unfolding add_row
create-IsKeyed s utcnow n k = record {
  distinct = Distinct-append s.rows (row_of s.next_id utcnow n) k.distinct k.below;
  below =
      All-append (λ (r : JobRow). r.id < s.next_id + 1) s.rows (row_of s.next_id utcnow n ∷ [])
        (All-map_weaken (λ (r : JobRow). r.id < s.next_id) (λ (r : JobRow). r.id < s.next_id + 1)
          (λ r h. omega arith) s.rows k.below)
        (omega arith, tt);
}

pub claim-IsKeyed :
    (owner_id now batch_size window : ℕ) (s : Jobs)
    → IsKeyed s
    → IsKeyed (record s { rows = (claim_due_jobs owner_id now batch_size window s.rows).1 })
claim-IsKeyed owner_id now batch_size window s k =
    let table : Jobs = record s { rows = fresh_rows owner_id now batch_size window s.rows } in
    rw (claim_due_jobs_eq owner_id now batch_size window s.rows) (
      update-IsKeyed table (is_claimable (chosen owner_id now batch_size window s.rows))
        (start_row now) (λ r. refl)
        (update-IsKeyed s (is_stale owner_id now window) (skip_row now) (λ r. refl) k))

-- Every operation, with or without its precondition, keeps ids distinct and below the next id.
pub Step-IsKeyed : {s t : Jobs} → Step s t → IsKeyed s → IsKeyed t
unfolding cancel_pending cancel_pending_for_workflows mark_failed mark_succeeded
Step-IsKeyed {s} (create utcnow n e) k = rw e (create-IsKeyed s utcnow n k)
Step-IsKeyed {s} (claim_due o now b w e) k = rw e (claim-IsKeyed o now b w s k)
Step-IsKeyed {s} (cancel i o u e) k = rw e (
    update-IsKeyed s (λ r. r.id == i && r.owner_id == o && is_pending r.status) (cancel_row u)
      (λ r. refl) k)
Step-IsKeyed {s} (cancel_deleted [] o u e) k = rw e k
Step-IsKeyed {s} (cancel_deleted (w ∷ ws) o u e) k = rw e (
    update-IsKeyed s (λ r. r.owner_id == o && elem r.workflow_id (w ∷ ws) && is_pending r.status)
      (cancel_row u) (λ r. refl) k)
Step-IsKeyed {s} (fail i o reason run_id u m e) k =
    rw e (update-IsKeyed s (owns i o) (fail_row reason run_id u) (λ r. refl) k)
Step-IsKeyed {s} (succeed i o run_id u m e) k =
    rw e (update-IsKeyed s (owns i o) (succeed_row run_id u) (λ r. refl) k)

-- Ids stay distinct and below the next id through any sequence of operations.
pub Reach-IsKeyed : {s t : Jobs} → IsKeyed s → Reach s t → IsKeyed t
Reach-IsKeyed k here = k
Reach-IsKeyed k (next r st) = Step-IsKeyed st (Reach-IsKeyed k r)
