-- ===== src/Scheduler/AccountWorker.antt =====
-- tg_conductor/scheduler/account_worker.py: what becomes of a job that was taken from its queue. Reading
-- a row does not fail here; every write is a transaction, which may. A write that fails outside the
-- `try` leaves the worker's handler at that point.
pub mod Marks
pub mod Ends
use tg_conductor.Base.{
  ℕ, suc, ◌+◌, String, Bool, true, false, Option, none, some, List, [], ◌∷◌, ◌++◌, if◌then◌else◌,
}
use tg_conductor.TgCore.Protocol.{Message, MessagePayload, message_from_payload}
use tg_conductor.Scheduler.Models.{JobRow, Jobs}
use tg_conductor.Scheduler.Repo.{mark_failed, mark_succeeded}
use tg_conductor.Workflows.Repo.{WorkflowRow, Workflows, get_by_id}
use tg_conductor.Runs.Models.{RunStatus, Runs, create_run, mark_finished}
use tg_conductor.Actions.World.{
  Outcome, EventBody, run_started, run_finished, EventLevel, info, error, RunEvent, Ctx, World,
  Backend, emit,
}
use tg_conductor.Actions.Executor.{
  ResultError, job_timeout, workflow_not_found, escaped, ExecutionResult, describe, execute,
}

-- the tables, the events of the runs, and the outside
pub record Server (T : Type 0) : Type 0 where
  pub jobs : Jobs
  pub runs : Runs
  pub workflows : Workflows
  pub logs : List (ℕ × List RunEvent)
  pub outside : T

abbrev pub failure : ResultError → ExecutionResult
failure e = record { success = false; error = some e; step_errors = [] }

-- the `except` clauses around `execute`; `cancelled` is the deadline of the job
abbrev pub judged : Outcome ExecutionResult → ExecutionResult
judged (Outcome.done r) = r
judged Outcome.timed_out = failure job_timeout
judged (Outcome.raised e) = failure (escaped e)
judged Outcome.cancelled = failure job_timeout

abbrev pub trigger_message : Option MessagePayload → Option Message
trigger_message none = none
trigger_message (some p) = some (message_from_payload p)

abbrev pub error_text : Option ResultError → Option String
error_text none = none
error_text (some e) = some (describe e)

abbrev pub or_unknown : Option ResultError → String
or_unknown none = "unknown"
or_unknown (some e) = describe e

abbrev pub run_status : Bool → RunStatus
run_status true = RunStatus.succeeded
run_status false = RunStatus.failed

abbrev pub level_of : Bool → EventLevel
level_of true = info
level_of false = error

abbrev pub runs_or : Runs → Option (Bool × Runs) → Runs
runs_or runs none = runs
runs_or runs (some (found, runs')) = runs'

module _ (owner_id utcnow : ℕ) where
  -- the run's half of `_mark_terminal`; a terminal status never raises
  abbrev pub close_run : Option ℕ → ExecutionResult → Runs → Runs
  close_run none r runs = runs
  close_run (some run_id) r runs =
      runs_or runs
        (mark_finished run_id owner_id (run_status r.success) (error_text r.error) utcnow runs)

  -- and the job's half; without a run the status is `None`, which is a failure
  abbrev pub close_job : ℕ → Option ℕ → ExecutionResult → Jobs → Bool × Jobs
  close_job job_id none r jobs = mark_failed job_id owner_id (or_unknown r.error) none utcnow jobs
  close_job job_id (some run_id) r jobs =
      if r.success
      then mark_succeeded job_id owner_id (some run_id) utcnow jobs
      else mark_failed job_id owner_id (or_unknown r.error) (some run_id) utcnow jobs

module _ {T : Type 0} where
  abbrev pub absorb : ℕ → World T → Server T → Server T
  absorb run_id w s = record s {
    workflows = w.workflows;
    logs = s.logs ++ (run_id, w.events) ∷ [];
    outside = w.outside;
  }

module _ {T : Type 0} (b : Backend T) (owner_id account_id now utcnow : ℕ) where
  abbrev ended :
      ℕ
      → Option ℕ
      → ExecutionResult
      → Outcome (Unit {0})
      → Server T
      → Outcome ExecutionResult × Server T
  ended job_id run_id r (Outcome.done u) s = (
    Outcome.done r,
    record s {
      runs = close_run owner_id utcnow run_id r s.runs;
      jobs = (close_job owner_id utcnow job_id run_id r s.jobs).1;
    },
  )
  ended job_id run_id r Outcome.timed_out s = (Outcome.timed_out, s)
  ended job_id run_id r (Outcome.raised e) s = (Outcome.raised e, s)
  ended job_id run_id r Outcome.cancelled s = (Outcome.cancelled, s)

  -- `_mark_terminal`, and the return after it
  unfoldable pub mark_terminal :
      ℕ → Option ℕ → ExecutionResult → Server T → Outcome ExecutionResult × Server T
  mark_terminal job_id run_id r s =
      let (o, t) = b.commit s.outside in ended job_id run_id r o (record s { outside = t })

  -- after `run.finished`
  abbrev closing :
      ℕ
      → ℕ
      → ExecutionResult
      → Server T
      → Outcome (Unit {0})
      → World T
      → Outcome ExecutionResult × Server T
  closing job_id run_id r s (Outcome.done u) w =
      mark_terminal job_id (some run_id) r (absorb run_id w s)
  closing job_id run_id r s Outcome.timed_out w = (Outcome.timed_out, absorb run_id w s)
  closing job_id run_id r s (Outcome.raised e) w = (Outcome.raised e, absorb run_id w s)
  closing job_id run_id r s Outcome.cancelled w = (Outcome.cancelled, absorb run_id w s)

  -- after `run.started`
  abbrev carry_out :
      ℕ
      → ℕ
      → WorkflowRow
      → Server T
      → Outcome (Unit {0})
      → World T
      → Outcome ExecutionResult × Server T
  carry_out job_id run_id wf s (Outcome.done u) w =
      let (o, w') = execute b utcnow wf.action_plan w in
      let r = judged o in
      let (o', w'') = emit b (level_of r.success) (run_finished r.success) w' in
      closing job_id run_id r s o' w''
  carry_out job_id run_id wf s Outcome.timed_out w = (Outcome.timed_out, absorb run_id w s)
  carry_out job_id run_id wf s (Outcome.raised e) w = (Outcome.raised e, absorb run_id w s)
  carry_out job_id run_id wf s Outcome.cancelled w = (Outcome.cancelled, absorb run_id w s)

  -- the world of a new run: the context, seeded with the message that fired the job
  abbrev pub new_world : JobRow → ℕ → Server T → World T
  new_world job run_id s = record {
    ctx = record {
      owner_id = owner_id;
      workflow_id = job.workflow_id;
      run_id = run_id;
      last_matched_message = trigger_message job.resolved_payload;
      step_index = 0;
      next_seq = 0;
      extras = [];
    };
    workflows = s.workflows;
    events = [];
    published = [];
    outside = s.outside;
  }

  -- after the transaction that opens the run
  abbrev opened :
      JobRow
      → WorkflowRow
      → ℕ × Runs
      → Outcome (Unit {0})
      → Server T
      → Outcome ExecutionResult × Server T
  opened job wf (run_id, runs) (Outcome.done u) s =
      let s' : Server T = record s { runs = runs } in
      let (o, w) = emit b info run_started (new_world job run_id s') in
      carry_out job.id run_id wf s' o w
  opened job wf r Outcome.timed_out s = (Outcome.timed_out, s)
  opened job wf r (Outcome.raised e) s = (Outcome.raised e, s)
  opened job wf r Outcome.cancelled s = (Outcome.cancelled, s)

  unfoldable pub handle_found :
      Option WorkflowRow → JobRow → Server T → Outcome ExecutionResult × Server T
  unfolding mark_terminal
  handle_found none job s = mark_terminal job.id none (failure workflow_not_found) s
  handle_found (some wf) job s =
      let (o, t) = b.commit s.outside in
      opened job wf (create_run owner_id job.workflow_id account_id job.id now s.runs) o
        (record s { outside = t })

  unfoldable pub handle_job : JobRow → Server T → Outcome ExecutionResult × Server T
  unfolding handle_found get_by_id
  handle_job job s = handle_found (get_by_id job.workflow_id owner_id s.workflows) job s
