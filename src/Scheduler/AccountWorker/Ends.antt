-- ===== src/Scheduler/AccountWorker/Ends.antt =====
-- How a job ends under tg_conductor/scheduler/account_worker.py.
use tg_conductor.Base.{
  ℕ, ◌<◌, ◌≡◌, refl, sym, ap, ◌∙◌, true, not, Option, none, some, List, [], ◌∷◌, ◌++◌, arith, All,
  filter,
}
use tg_conductor.Scheduler.Models.{JobRow}
use tg_conductor.Scheduler.Repo.{owns}
use tg_conductor.Workflows.Repo.{WorkflowRow, get_by_id}
use tg_conductor.Runs.Models.{RunRow, Runs, new_run, create_run, finish_row}
use tg_conductor.Actions.World.{
  Outcome, EventBody, run_started, run_finished, EventLevel, info, World, Backend, write_event,
  emit,
}
use tg_conductor.Actions.Executor.{workflow_not_found, ExecutionResult, execute}
use tg_conductor.Scheduler.AccountWorker.{
  Server, failure, judged, error_text, or_unknown, run_status, level_of, close_run, close_job,
  absorb, mark_terminal, new_world, handle_found, handle_job,
}
use tg_conductor.Scheduler.AccountWorker.Marks.{
  job_status, failed-IsMarked, close_job-IsMarked, close_run-rows,
}

-- The rows of runs after a job: one more, closed, if there was a workflow.
abbrev pub runs_after :
    Option WorkflowRow → ℕ → ℕ → ℕ → ℕ → JobRow → ExecutionResult → Runs → List RunRow
runs_after none owner_id account_id now utcnow job r runs = runs.rows
runs_after (some wf) owner_id account_id now utcnow job r runs =
    runs.rows
    ++ finish_row (run_status r.success) (error_text r.error) utcnow
        (new_run runs.next_id owner_id job.workflow_id account_id job.id now)
      ∷ []

-- What holds when a job was handled with this result.
pub record IsEnded {T : Type 0} (owner_id account_id now utcnow : ℕ) (job : JobRow)
    (s s' : Server T) (r : ExecutionResult) : Type 0 where
  pub job_ended :
      All
        (λ (x : JobRow). owns job.id owner_id x ≡ true → x.status ≡ job_status r.success)
        s'.jobs.rows
  pub others :
      filter (λ x. not (owns job.id owner_id x)) s'.jobs.rows
      ≡ filter (λ x. not (owns job.id owner_id x)) s.jobs.rows
  pub run_ended :
      s'.runs.rows
      ≡ runs_after
          (get_by_id job.workflow_id owner_id s.workflows)
          owner_id
          account_id
          now
          utcnow
          job
          r
          s.runs

module _ {T : Type 0} (b : Backend T) (commits : (t : T) → (b.commit t).0 ≡ Outcome.done tt) where
  emit-done :
      (level : EventLevel) (body : EventBody) (w : World T)
      → (emit b level body w).0 ≡ Outcome.done tt
  unfolding emit write_event
  emit-done level body w = rw (commits w.outside) refl

module _ {T : Type 0} (b : Backend T) (owner_id account_id now utcnow : ℕ)
    (commits : (t : T) → (b.commit t).0 ≡ Outcome.done tt) where
  mark_terminal_eq :
      (job_id : ℕ) (run_id : Option ℕ) (r : ExecutionResult) (s : Server T)
      → mark_terminal b owner_id account_id now utcnow job_id run_id r s ≡ (
        Outcome.done r,
        record s {
          outside = (b.commit s.outside).1;
          runs = close_run owner_id utcnow run_id r s.runs;
          jobs = (close_job owner_id utcnow job_id run_id r s.jobs).1;
        },
      )
  unfolding mark_terminal
  mark_terminal_eq job_id run_id r s = rw (commits s.outside) refl

  -- the server, the world and the result once the plan was carried out
  abbrev with_run : JobRow → Server T → Server T
  with_run job s = record s {
    outside = (b.commit s.outside).1;
    runs = (create_run owner_id job.workflow_id account_id job.id now s.runs).1;
  }

  abbrev first_world : JobRow → Server T → World T
  first_world job s =
      (emit b info run_started
        (new_world b owner_id account_id now utcnow job s.runs.next_id (with_run job s))).1

  abbrev the_result : JobRow → WorkflowRow → Server T → ExecutionResult
  the_result job wf s = judged (execute b utcnow wf.action_plan (first_world job s)).0

  abbrev last_world : JobRow → WorkflowRow → Server T → World T
  last_world job wf s =
      let success = (the_result job wf s).success in
      (emit b (level_of success) (run_finished success)
        (execute b utcnow wf.action_plan (first_world job s)).1).1

  handle_found_eq :
      (wf : WorkflowRow) (job : JobRow) (s : Server T)
      → handle_found b owner_id account_id now utcnow (some wf) job s
        ≡ mark_terminal b owner_id account_id now utcnow job.id
            (some s.runs.next_id)
            (the_result job wf s)
            (absorb s.runs.next_id (last_world job wf s) (with_run job s))
  unfolding handle_found create_run
  handle_found_eq wf job s =
      rw (commits s.outside)
        (rw (emit-done b commits info run_started _) (rw (emit-done b commits _ _ _) refl))

  opened_run-rows :
      (job : JobRow) (r : ExecutionResult) (s : Server T)
      → All (λ (x : RunRow). x.id < s.runs.next_id) s.runs.rows
      → (close_run owner_id utcnow
          (some s.runs.next_id)
          r
          (create_run owner_id job.workflow_id account_id job.id now s.runs).1).rows
        ≡ s.runs.rows
          ++ finish_row
              (run_status r.success)
              (error_text r.error)
              utcnow
              (new_run s.runs.next_id owner_id job.workflow_id account_id job.id now)
            ∷ []
  unfolding create_run
  opened_run-rows job r s below =
      close_run-rows owner_id utcnow r s.runs
        (new_run s.runs.next_id owner_id job.workflow_id account_id job.id now) below (ground arith)

  found-IsEnded :
      (o : Option WorkflowRow) (job : JobRow) (s : Server T)
      → get_by_id job.workflow_id owner_id s.workflows ≡ o
      → All (λ (x : RunRow). x.id < s.runs.next_id) s.runs.rows
      → (r : ExecutionResult) × ((handle_found b owner_id account_id now utcnow o job s).0
          ≡ Outcome.done r)
        × IsEnded owner_id account_id now utcnow job s
            (handle_found b owner_id account_id now utcnow o job s).1
            r
  unfolding handle_found
  found-IsEnded none job s e below =
      let marked =
        failed-IsMarked job.id owner_id utcnow (or_unknown (some workflow_not_found)) none s.jobs in
      rw (mark_terminal_eq job.id none (failure workflow_not_found) s) (
        failure workflow_not_found,
        refl,
        record {
          job_ended = marked.job_ended;
          others = marked.others;
          run_ended =
              ap
                (λ (o : Option WorkflowRow).
                  runs_after o owner_id account_id now utcnow job (failure workflow_not_found)
                    s.runs)
                (sym e);
        },
      )
  found-IsEnded (some wf) job s e below =
      let r : ExecutionResult = the_result job wf s in
      let marked = close_job-IsMarked owner_id utcnow job.id s.runs.next_id r s.jobs in
      rw (handle_found_eq wf job s) (
        rw
          (mark_terminal_eq job.id (some s.runs.next_id) r
            (absorb s.runs.next_id (last_world job wf s) (with_run job s)))
          (
            r,
            refl,
            record {
              job_ended = marked.job_ended;
              others = marked.others;
              run_ended =
                  opened_run-rows job r s below
                  ∙ ap
                      (λ (o : Option WorkflowRow).
                        runs_after o owner_id account_id now utcnow job r s.runs)
                      (sym e);
            },
          ))

  -- If every transaction commits and every run id is below the next, then whatever the Telegram client, the AI client, the sleeps and
  -- the deadlines do, the handler ends with a result: the job ends as `succeeded` or `failed` as the
  -- result says, no other job is written, and there is one more run, closed with the same verdict, or
  -- none more if the workflow is gone.
  pub handle_job_ends :
      (job : JobRow) (s : Server T)
      → All (λ (x : RunRow). x.id < s.runs.next_id) s.runs.rows
      → (r : ExecutionResult) × ((handle_job b owner_id account_id now utcnow job s).0
          ≡ Outcome.done r)
        × IsEnded owner_id account_id now utcnow job s
            (handle_job b owner_id account_id now utcnow job s).1
            r
  unfolding handle_job
  handle_job_ends job s below =
      found-IsEnded (get_by_id job.workflow_id owner_id s.workflows) job s refl below
