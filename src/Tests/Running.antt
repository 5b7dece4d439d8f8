-- ===== src/Tests/Running.antt =====
-- A run of a plan whose first step fails and is forgiven, and the job around it.
use tg_conductor.Base.{ℕ, ◌+◌, ◌≡◌, refl, true, List, [], ◌∷◌, none, some, str_eq}
use tg_conductor.Tests.Data.{greet, answer, plan, five_jobs, four_workflows, workflow, job, hello}
use tg_conductor.Workflows.Schema.{ActionPlan, Variant, cron}
use tg_conductor.Workflows.Repo.{get_by_id}
use tg_conductor.Actions.Executor.RoundRobin.{IsTurn, after, round_robin_turns}
use tg_conductor.Actions.World.{Outcome, exception, World, Backend, ◌>>=◌, emit}
use tg_conductor.Actions.Executor.{ExecutionResult, execute}
use tg_conductor.Actions.Executor.Log.{Grows, execute-Grows}
use tg_conductor.Actions.Executor.Report.Whole.{HasReport, execute-IsReport}
use tg_conductor.Scheduler.AccountWorker.{Server, handle_job}
use tg_conductor.Scheduler.AccountWorker.Ends.{IsEnded, handle_job_ends}

-- Nothing that is sent arrives, `hello` is always received, and every write commits; the outside
-- counts the writes.
abbrev refusing : Backend ℕ
refusing = record {
  send_text = λ chat text t. (Outcome.raised "FloodWait", t);
  send_dice = λ chat emoji t. (Outcome.raised "FloodWait", t);
  forward = λ from id to t. (Outcome.timed_out, t);
  click_button = λ chat id text t. (Outcome.timed_out, t);
  wait_for = λ chat wanted timeout t. (Outcome.done hello, t);
  chat = λ prompt model max t. (Outcome.timed_out, t);
  commit = λ t. (Outcome.done tt, t + 1);
  sleep = λ d t. (Outcome.done tt, t);
  uniform = λ a b t. (a, t);
  randint = λ a b t. (a, t);
  randrange = λ n t. (0, t);
  sample = λ n k t. ([], t);
  shuffle = λ l t. (l, t);
  search = λ p t. str_eq p t;
  format = λ template text extras. Outcome.done template;
}

abbrev forgiving_plan : ActionPlan
forgiving_plan = record plan { steps = record greet { continue_on_error = true } ∷ answer ∷ [] }

abbrev before : World ℕ
before = record {
  ctx = record {
    owner_id = 1;
    workflow_id = 1;
    run_id = 1;
    last_matched_message = none;
    step_index = 0;
    next_seq = 0;
    extras = [];
  };
  workflows = four_workflows;
  events = [];
  published = [];
  outside = 0;
}

abbrev result : ExecutionResult
result = record { success = true; error = none; step_errors = (0, exception "FloodWait") ∷ [] }

forgiven_run : (execute refusing 9 forgiving_plan before).0 ≡ Outcome.done result
unfolding execute ◌>>=◌ emit
forgiven_run = refl

execute-Grows_example : Grows before (execute refusing 9 forgiving_plan before).1
execute-Grows_example = execute-Grows refusing 9 forgiving_plan before

execute-IsReport_example :
    HasReport refusing 9 forgiving_plan before (execute refusing 9 forgiving_plan before).1 result
execute-IsReport_example = execute-IsReport refusing 9 forgiving_plan before result forgiven_run

abbrev server : Server ℕ
server = record {
  jobs = five_jobs;
  runs = record { rows = []; next_id = 1 };
  workflows = four_workflows;
  logs = [];
  outside = 0;
}

handle_job_ends_example :
    (r : ExecutionResult) × ((handle_job refusing 1 5 100 101 (job 2 1 90) server).0
      ≡ Outcome.done r)
    × IsEnded 1 5 100 101
        (job 2 1 90)
        server
        (handle_job refusing 1 5 100 101 (job 2 1 90) server).1
        r
handle_job_ends_example = handle_job_ends refusing 1 5 100 101 (λ t. refl) (job 2 1 90) server tt

abbrev first_variant : Variant
first_variant = record { id = some "a"; name = none; steps = greet ∷ [] }

abbrev other_variants : List Variant
other_variants = record { id = some "b"; name = none; steps = answer ∷ [] } ∷ []

first_row : get_by_id 1 1 four_workflows ≡ some (workflow 1 (cron "* * * * *"))
unfolding get_by_id
first_row = refl

round_robin_turns_example :
    IsTurn refusing 9 [] first_variant other_variants
      (0 + 3)
      (after refusing 9 [] first_variant other_variants 3 before)
round_robin_turns_example =
    round_robin_turns refusing 9 [] first_variant other_variants (λ t. refl) 3 before
      (workflow 1 (cron "* * * * *")) first_row
