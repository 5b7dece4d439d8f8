-- ===== src/Scheduler/Expander.antt =====
-- tg_conductor/scheduler/expander.py, and `expand_for` and one pass of `_loop` of daily_expander.py.
-- Within a day, datetimes of the expander's zone are compared, added and subtracted as wall clock times,
-- in microseconds from the day 0 on; `to_instant` is the instant of such a time. Randomness is the two
-- draws of Triggers/TimeWindow.
pub mod Once
use tg_conductor.Base.{
  ℕ, ◌+◌, ◌*◌, map, Bool, true, false, not, ◌&&◌, Option, none, some, List, [], ◌∷◌, ◌++◌, ltb, leb,
  ◌==◌, if◌then◌else◌,
}
use tg_conductor.Scheduler.Models.{JobRow, Jobs}
use tg_conductor.Scheduler.Repo.{create_pending, count_for_expansion}
use tg_conductor.Workflows.Schema.{
  Trigger, cron, time_window, message_match, startup, TimeWindowTrigger, seconds,
}
use tg_conductor.Workflows.Schema.Window.{codes, Window, parse_window}
use tg_conductor.Workflows.Repo.{WorkflowRow, Workflows, list_for_owner}
use tg_conductor.Triggers.Duration.{parse_duration}
use tg_conductor.Triggers.TimeWindow.{expand}

pub record ExpansionReport : Type 0 where
  pub created_job_ids : List ℕ
  pub skipped_workflows : List ℕ
  pub expanded_workflows : List ℕ

abbrev pub nothing_yet : ExpansionReport
nothing_yet = record { created_job_ids = []; skipped_workflows = []; expanded_workflows = [] }

-- `datetime(year, month, day, h, m, tzinfo=tz)`
abbrev pub wall_time : ℕ → ℕ → ℕ → ℕ
wall_time date h m = seconds (date * 86400 + h * 3600 + m * 60)

module _ (to_instant : ℕ → ℕ) (randint uniform : ℕ → ℕ → ℕ) where
  -- `expand(trigger, target_date, now=now)`, with the wall clock at `now`; a trigger that does not parse raises
  unfoldable pub fire_times : TimeWindowTrigger → ℕ → ℕ → Option (List ℕ)
  unfolding expand parse_window parse_duration
  fire_times trigger date now = elim (parse_window (codes trigger.window)) [
    | none ↦ none
    | some w ↦ elim (parse_duration (codes trigger.min_gap)) [
      | none ↦ none
      | some gap ↦ some (
          map to_instant (
            expand randint uniform trigger.count (seconds gap) (wall_time date w.start_h w.start_m)
              (wall_time date w.end_h w.end_m) (some now)))
    ]
  ]

module _ (owner_id utcnow : ℕ) where
  -- the rows for the times of one workflow
  unfoldable pub create_all : ℕ → ℕ → ℕ → List ℕ → Jobs → List ℕ × Jobs
  unfolding create_pending
  create_all workflow_id account_id date [] jobs = ([], jobs)
  create_all workflow_id account_id date (t ∷ ts) jobs =
      let (row, jobs') = create_pending owner_id workflow_id account_id t utcnow (some date) jobs in
      let (ids, jobs'') = create_all workflow_id account_id date ts jobs' in (row.id ∷ ids, jobs'')

module _ (times : TimeWindowTrigger → ℕ → ℕ → Option (List ℕ)) (owner_id utcnow date now : ℕ) where
  abbrev created : WorkflowRow → ExpansionReport → List ℕ × Jobs → ExpansionReport × Jobs
  created wf report (ids, jobs) = (
    record report {
      created_job_ids = report.created_job_ids ++ ids;
      expanded_workflows = report.expanded_workflows ++ wf.id ∷ [];
    },
    jobs,
  )

  abbrev with_times :
      WorkflowRow → Option (List ℕ) → ExpansionReport → Jobs → Option (ExpansionReport × Jobs)
  with_times wf none report jobs = none
  with_times wf (some ts) report jobs =
      some (created wf report (create_all owner_id utcnow wf.id wf.account_id date ts jobs))

  -- one turn of the `for` loop; a workflow with no times is reported as expanded, and writes nothing
  unfoldable pub expand_workflow :
      WorkflowRow → Trigger → ExpansionReport → Jobs → Option (ExpansionReport × Jobs)
  expand_workflow wf (time_window trigger) report jobs =
      if ltb 0 (count_for_expansion wf.id date jobs)
      then some (record report { skipped_workflows = report.skipped_workflows ++ wf.id ∷ [] }, jobs)
      else with_times wf (times trigger date now) report jobs
  expand_workflow wf _ report jobs = some (report, jobs)

  unfoldable pub expand_all :
      List WorkflowRow → ExpansionReport → Jobs → Option (ExpansionReport × Jobs)
  unfolding expand_workflow
  expand_all [] report jobs = some (report, jobs)
  expand_all (wf ∷ wfs) report jobs = elim (expand_workflow wf wf.trigger report jobs) [
    | none ↦ none
    | some (report', jobs') ↦ expand_all wfs report' jobs'
  ]

  -- `expand_daily`; `none` is an exception, and the caller's transaction rolls back
  unfoldable pub expand_daily : Workflows → Jobs → Option (ExpansionReport × Jobs)
  unfolding expand_all list_for_owner
  expand_daily workflows jobs =
      expand_all (list_for_owner owner_id true none workflows) nothing_yet jobs

-- One pass of the loop of `DailyExpander`: the state is the last day expanded. A day is marked done
-- only when its expansion committed.
abbrev pub expanded_on : Option ℕ → ℕ → Bool
expanded_on none today = false
expanded_on (some d) today = d == today

unfoldable pub poll :
    ℕ → ℕ → ℕ → (Jobs → Option (ExpansionReport × Jobs)) → Option ℕ → Jobs → Option ℕ × Jobs
poll expand_at time_of_day today expand_for last jobs =
    if leb expand_at time_of_day && not (expanded_on last today)
    then (elim (expand_for jobs) [
      | none ↦ (last, jobs)
      | some (report, jobs') ↦ (some today, jobs')
    ])
    else (last, jobs)
