-- ===== src/Scheduler/Control.antt =====
-- tg_conductor/scheduler/control.py: the jobs of startup workflows, and `trigger_now`.
use tg_conductor.Base.{
  ℕ, ◌≡◌, refl, inl, inr, Bool, true, false, Option, none, some, List, [], ◌∷◌, if◌then◌else◌,
  Bool-cases,
}
use tg_conductor.Scheduler.Models.{JobRow, Jobs}
use tg_conductor.Scheduler.Repo.{create_pending}
use tg_conductor.Triggers.Startup.{StartupTracker, consume}
use tg_conductor.Workflows.Schema.{Trigger, startup}
use tg_conductor.Workflows.Repo.{WorkflowRow, Workflows, list_for_owner, get_by_id}

pub record StartupSpawnReport : Type 0 where
  pub created_job_ids : List ℕ
  pub already_fired : Bool

abbrev pub is_startup : Trigger → Bool
is_startup startup = true
is_startup _ = false

module _ (owner_id now utcnow : ℕ) where
  unfoldable pub spawn_all : List WorkflowRow → Jobs → List ℕ × Jobs
  unfolding create_pending
  spawn_all [] jobs = ([], jobs)
  spawn_all (wf ∷ wfs) jobs =
      let created = create_pending owner_id wf.id wf.account_id now utcnow none jobs in
      let rest = spawn_all wfs (if is_startup wf.trigger then created.1 else jobs) in
      if is_startup wf.trigger then (created.0.id ∷ rest.0, rest.1) else rest

  unfoldable pub spawn_startup_jobs :
      StartupTracker → Workflows → Jobs → StartupSpawnReport × StartupTracker × Jobs
  unfolding spawn_all consume list_for_owner
  spawn_startup_jobs tracker workflows jobs =
      let (first, tracker') = consume tracker in
      let spawned = spawn_all (list_for_owner owner_id true none workflows) jobs in
      if first
      then (record { created_job_ids = spawned.0; already_fired = false }, tracker', spawned.1)
      else (record { created_job_ids = []; already_fired = true }, tracker', jobs)

-- `wf is None or not wf.enabled`
abbrev pub usable : Option WorkflowRow → Option WorkflowRow
usable none = none
usable (some wf) = if wf.enabled then some wf else none

abbrev pub created_id : JobRow × Jobs → Option ℕ × Jobs
created_id (row, jobs) = (some row.id, jobs)

unfoldable pub trigger_now : ℕ → ℕ → ℕ → Workflows → Jobs → Option ℕ × Jobs
unfolding create_pending get_by_id
trigger_now workflow_id owner_id utcnow workflows jobs =
    elim (usable (get_by_id workflow_id owner_id workflows)) [
      | none ↦ (none, jobs)
      | some wf ↦ created_id (create_pending owner_id wf.id wf.account_id utcnow utcnow none jobs)
    ]

-- The startup workflows fire once in a process: whatever is called, on any tables and at any time,
-- after a call of `spawn_startup_jobs`, a second call creates no job and says that they have fired.
pub spawn_startup_jobs_once :
    (owner_id now utcnow now' utcnow' owner_id' : ℕ) (tracker : StartupTracker)
    (workflows workflows' : Workflows) (jobs jobs' : Jobs)
    → let tracker' = (spawn_startup_jobs owner_id now utcnow tracker workflows jobs).1 in
      let again = spawn_startup_jobs owner_id' now' utcnow' tracker' workflows' jobs' in
      (again.0.already_fired ≡ true) × (again.0.created_job_ids ≡ []) × (again.2 ≡ jobs')
unfolding spawn_startup_jobs
spawn_startup_jobs_once o n u n' u' o' tracker w w' jobs jobs' = elim (Bool-cases tracker.fired) [
  | inl e ↦ rw e (refl, refl, refl)
  | inr e ↦ rw e (refl, refl, refl)
]
