-- ===== src/Tests/JobTable.antt =====
-- The table of jobs, at five jobs of two owners.
use tg_conductor.Base.{
  ◌≤◌, ◌<◌, ◌≡◌, refl, true, false, [], ◌∷◌, arith, length, All, elem, filter, Distinct,
}
use tg_conductor.Tests.Data.{new_job, job, five_jobs, no_jobs}
use tg_conductor.Scheduler.Models.{JobRow, Jobs}
use tg_conductor.Scheduler.Repo.{add_row, cancel_pending}
use tg_conductor.Scheduler.Repo.Claim.{is_due, ids_of, claim, claim_due_jobs}
use tg_conductor.Scheduler.Repo.Claims.{job_id, IsClaimed, claimed_due}
use tg_conductor.Scheduler.Repo.Waiting.{claim-no_starvation}
use tg_conductor.Scheduler.Repo.Exclusive.{is_foreign, claims_exclusive, claim-tenant_isolation}
use tg_conductor.Scheduler.Repo.Lifecycle.{IsMove, Rowwise}
use tg_conductor.Scheduler.Repo.History.{Step, Reach, jobs_lifecycle}

five-Distinct : Distinct job_id five_jobs.rows
five-Distinct = (
  (
    (λ h. omega (arith, h)),
    ((λ h. omega (arith, h)), ((λ h. omega (arith, h)), ((λ h. omega (arith, h)), tt))),
  ),
  (
    ((λ h. omega (arith, h)), ((λ h. omega (arith, h)), ((λ h. omega (arith, h)), tt))),
    (
      ((λ h. omega (arith, h)), ((λ h. omega (arith, h)), tt)),
      (((λ h. omega (arith, h)), tt), (tt, tt)),
    ),
  ),
)

claim_at_100 : ids_of (claim_due_jobs 1 100 1 50 five_jobs.rows).0.claimed ≡ 3 ∷ []
unfolding claim_due_jobs
claim_at_100 = refl

skipped_at_100 : ids_of (claim_due_jobs 1 100 1 50 five_jobs.rows).0.skipped ≡ 1 ∷ []
unfolding claim_due_jobs
skipped_at_100 = refl

claimed_due_example :
    (length (claim_due_jobs 1 100 1 50 five_jobs.rows).0.claimed ≤ 1)
    × All (IsClaimed 1 100 1 50) (claim_due_jobs 1 100 1 50 five_jobs.rows).0.claimed
claimed_due_example = claimed_due 1 100 1 50 five_jobs.rows five-Distinct

claim-no_starvation_example :
    All
      (λ r.
        is_due 1 100 50 r ≡ true
        → (1 < length (filter (is_due 1 100 50) five_jobs.rows))
          × All
              (λ (c : JobRow). c.fire_at ≤ r.fire_at)
              (claim_due_jobs 1 100 1 50 five_jobs.rows).0.claimed)
      (claim_due_jobs 1 100 1 50 five_jobs.rows).1
claim-no_starvation_example = claim-no_starvation 1 100 1 50 five_jobs.rows five-Distinct

claims_exclusive_example :
    All
      (λ (r : JobRow). elem r.id (ids_of (claim 100 (2 ∷ 3 ∷ []) five_jobs.rows).0) ≡ false)
      (claim 101 (3 ∷ 5 ∷ []) (claim 100 (2 ∷ 3 ∷ []) five_jobs.rows).1).0
claims_exclusive_example =
    claims_exclusive 100 101 (2 ∷ 3 ∷ []) (3 ∷ 5 ∷ []) five_jobs.rows five-Distinct

claim-tenant_isolation_example :
    filter (is_foreign 1 100 1 50) (claim_due_jobs 1 100 1 50 five_jobs.rows).1
    ≡ filter (is_foreign 1 100 1 50) five_jobs.rows
claim-tenant_isolation_example = claim-tenant_isolation 1 100 1 50 five_jobs.rows five-Distinct

abbrev one_job : Jobs
one_job = record { rows = job 1 1 20 ∷ []; next_id = 2 }

abbrev canceled_job : Jobs
canceled_job = (cancel_pending 1 1 30 one_job).1

created-Step : Step no_jobs one_job
unfolding add_row
created-Step = Step.create 0 (new_job 1 20) refl

history : Reach no_jobs canceled_job
history = Reach.next (Reach.next Reach.here created-Step) (Step.cancel 1 1 30 refl)

from_one : Reach one_job canceled_job
from_one = Reach.next Reach.here (Step.cancel 1 1 30 refl)

jobs_lifecycle_example : Rowwise IsMove one_job.rows canceled_job.rows
jobs_lifecycle_example = jobs_lifecycle from_one
