-- ===== src/Scheduler/CronTick.antt =====
-- tg_conductor/scheduler/cron_tick.py and triggers/cron.py. `next_fire_at expression after` is what
-- `croniter` finds in the tick's time zone; its documentation says that it lies after `after`.
-- An expression that never matches, for which `croniter` raises, is left out.
pub mod CatchUp
pub mod Again
use tg_conductor.Base.{
  ℕ, zero, suc, ◌+◌, ◌-◌, String, true, Option, none, some, List, [], ◌∷◌, ◌++◌, ltb, ◌==◌,
  if◌then◌else◌, filter,
}
use tg_conductor.Scheduler.Models.{JobRow, Jobs}
use tg_conductor.Scheduler.Repo.{create_pending}
use tg_conductor.Workflows.Schema.{Trigger, cron, time_window, message_match, startup}
use tg_conductor.Workflows.Repo.{WorkflowRow, Workflows, list_for_owner}

-- `_last_fire_at`: the maximum over the workflow's jobs of any status
unfoldable pub max_fire_at : List JobRow → Option ℕ
max_fire_at [] = none
max_fire_at (r ∷ rs) = elim (max_fire_at rs) [
  | none ↦ some r.fire_at
  | some m ↦ some (if ltb m r.fire_at then r.fire_at else m)
]

unfoldable pub last_fire_at : ℕ → Jobs → Option ℕ
unfolding max_fire_at
last_fire_at workflow_id jobs = max_fire_at (filter (λ r. r.workflow_id == workflow_id) jobs.rows)

abbrev pub anchor_of : Option ℕ → ℕ → ℕ → ℕ
anchor_of none now lookback = now - lookback
anchor_of (some last) now lookback = last

module _ (next_fire_at : String → ℕ → ℕ) (owner_id now utcnow : ℕ) where
  -- the `while` loop of one workflow, with the passes that `max_catchup_per_workflow` leaves
  unfoldable pub catch_up : ℕ → String → ℕ → ℕ → ℕ → Jobs → List ℕ × Jobs
  unfolding create_pending
  catch_up zero expression workflow_id account_id cursor jobs = ([], jobs)
  catch_up (suc left) expression workflow_id account_id cursor jobs =
      let next = next_fire_at expression cursor in
      let created = create_pending owner_id workflow_id account_id next utcnow none jobs in
      let rest = catch_up left expression workflow_id account_id next created.1 in
      if ltb now next then ([], jobs) else (created.0.id ∷ rest.0, rest.1)

  -- one turn of the `for` loop
  unfoldable pub tick_workflow : ℕ → ℕ → WorkflowRow → Trigger → Jobs → List ℕ × Jobs
  unfolding catch_up last_fire_at
  tick_workflow lookback max_catchup wf (cron expression) jobs =
      catch_up max_catchup expression wf.id wf.account_id
        (anchor_of (last_fire_at wf.id jobs) now lookback) jobs
  tick_workflow lookback max_catchup wf _ jobs = ([], jobs)

  unfoldable pub tick_all : ℕ → ℕ → List WorkflowRow → Jobs → List ℕ × Jobs
  unfolding tick_workflow
  tick_all lookback max_catchup [] jobs = ([], jobs)
  tick_all lookback max_catchup (wf ∷ wfs) jobs =
      let (ids, jobs') = tick_workflow lookback max_catchup wf wf.trigger jobs in
      let (more, jobs'') = tick_all lookback max_catchup wfs jobs' in (ids ++ more, jobs'')

  -- `tick`, whose report is the ids created
  unfoldable pub tick : ℕ → ℕ → Workflows → Jobs → List ℕ × Jobs
  unfolding tick_all list_for_owner
  tick lookback max_catchup workflows jobs =
      tick_all lookback max_catchup (list_for_owner owner_id true none workflows) jobs
