-- ===== src/Scheduler/Expander/Once.antt =====
-- Repeated daily expansions of tg_conductor/scheduler/expander.py.
use tg_conductor.Base.{
  ℕ, ◌+◌, ◌<◌, ◌≡◌, refl, true, ◌&&◌, Option, some, List, [], ◌∷◌, ◌++◌, arith, ltb, ◌==◌, lt→ltb,
  if-true, length, length-append, filter, filter-append,
}
use tg_conductor.Scheduler.Models.{JobRow, Jobs}
use tg_conductor.Scheduler.Repo.{create_pending, count_for_expansion, date_is}
use tg_conductor.Workflows.Schema.{time_window, TimeWindowTrigger}
use tg_conductor.Workflows.Repo.{WorkflowRow}
use tg_conductor.Scheduler.Expander.{ExpansionReport, create_all, expand_workflow}

module _ (owner_id utcnow : ℕ) where
  count_one :
      (w a d t : ℕ) (jobs : Jobs)
      → count_for_expansion w d (create_pending owner_id w a t utcnow (some d) jobs).1
        ≡ count_for_expansion w d jobs + 1
  unfolding create_pending count_for_expansion
  count_one w a d t jobs =
      let counts = λ (r : JobRow). r.workflow_id == w && date_is r.expansion_date d in
      let row = (create_pending owner_id w a t utcnow (some d) jobs).0 in
      let hit : counts row ≡ true = ground arith in
      rw (filter-append counts jobs.rows (row ∷ []))
        (rw (length-append (filter counts jobs.rows) (filter counts (row ∷ []))) (rw hit refl))

  -- Each time adds a row that counts for its workflow and day.
  count-create_all :
      (workflow_id account_id date : ℕ) (ts : List ℕ) (jobs : Jobs)
      → count_for_expansion workflow_id date
          (create_all owner_id utcnow workflow_id account_id date ts jobs).1
        ≡ count_for_expansion workflow_id date jobs + length ts
  unfolding create_all
  count-create_all w a d [] jobs = omega arith
  count-create_all w a d (t ∷ ts) jobs = omega (
    arith,
    count-create_all w a d ts (create_pending owner_id w a t utcnow (some d) jobs).1,
    count_one w a d t jobs,
  )

  abbrev Times : Type 0
  Times = TimeWindowTrigger → ℕ → ℕ → Option (List ℕ)

  expanded_rows :
      (times : Times) (date now : ℕ) (wf : WorkflowRow) (trigger : TimeWindowTrigger)
      (report report' : ExpansionReport) (jobs jobs' : Jobs) (t : ℕ) (ts : List ℕ)
      → times trigger date now ≡ some (t ∷ ts)
      → expand_workflow times owner_id utcnow date now wf (time_window trigger) report jobs
        ≡ some (report', jobs')
      → 0 < count_for_expansion wf.id date jobs'
  unfolding expand_workflow
  expanded_rows times date now wf trigger report report' jobs jobs' t ts e h =
      ground (arith, count-create_all wf.id wf.account_id date (t ∷ ts) jobs)

  -- Once a time window workflow has been expanded for a day and was given a time, another expansion for
  -- that day, at any later instant and with any draws, reports it as skipped and creates nothing.
  pub expand_once :
      (times times' : Times) (date now now' utcnow' : ℕ) (wf : WorkflowRow)
      (trigger : TimeWindowTrigger) (report report' other : ExpansionReport) (jobs jobs' : Jobs)
      (t : ℕ) (ts : List ℕ)
      → times trigger date now ≡ some (t ∷ ts)
      → expand_workflow times owner_id utcnow date now wf (time_window trigger) report jobs
        ≡ some (report', jobs')
      → expand_workflow times' owner_id utcnow' date now' wf (time_window trigger) other jobs'
        ≡ some (record other { skipped_workflows = other.skipped_workflows ++ wf.id ∷ [] }, jobs')
  unfolding expand_workflow
  expand_once times times' date now now' utcnow' wf trigger report report' other jobs jobs' t ts e
        h =
      if-true (ltb 0 (count_for_expansion wf.id date jobs')) _ _ (
        lt→ltb 0 (count_for_expansion wf.id date jobs')
          (expanded_rows times date now wf trigger report report' jobs jobs' t ts e h))
