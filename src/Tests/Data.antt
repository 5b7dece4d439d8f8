-- ===== src/Tests/Data.antt =====
-- Data that the tests share.
use tg_conductor.Base.{ℕ, String, true, false, none, some, [], ◌∷◌, ◌+◌}
use tg_conductor.Base.Int.{pos}
use tg_conductor.TgCore.Protocol.{Message}
use tg_conductor.Scheduler.Models.{JobRow, Jobs, pending}
use tg_conductor.Scheduler.Repo.{NewJob, row_of}
use tg_conductor.Workflows.Schema.{
  Trigger, cron, exactly, time_window, MessageMatchTrigger, TimeWindowTrigger, message_match,
  startup, SendTextStep, ActionStep, send_text, wait_for, ActionPlan, numeric,
}
use tg_conductor.Workflows.Repo.{api, WorkflowRow, Workflows}

abbrev pub new_job : ℕ → ℕ → NewJob
new_job owner_id fire_at = record {
  owner_id = owner_id;
  workflow_id = 1;
  account_id = 5;
  fire_at = fire_at;
  status = pending;
  started_at = none;
  resolved_payload = none;
  expansion_date = none;
}

abbrev pub job : ℕ → ℕ → ℕ → JobRow
job id owner_id fire_at = row_of id 0 (new_job owner_id fire_at)

-- stale, due, due, another owner's, and in the future at 100 with a window of 50
abbrev pub five_jobs : Jobs
five_jobs = record {
  rows = job 1 1 20 ∷ job 2 1 90 ∷ job 3 1 60 ∷ job 4 2 80 ∷ job 5 1 200 ∷ [];
  next_id = 6;
}

abbrev pub no_jobs : Jobs
no_jobs = record { rows = []; next_id = 1 }

abbrev pub greeting : SendTextStep
greeting = record {
  chat_id = numeric (pos 7);
  text = some "hello";
  text_pool = none;
  pick_n = none;
  shuffle = true;
  message_thread_id = none;
  delete_after = none;
}

abbrev pub greet : ActionStep
greet = record {
  timeout = none;
  continue_on_error = false;
  delay_before = none;
  action = send_text greeting;
}

abbrev pub answer : ActionStep
answer = record {
  timeout = some 5000000;
  continue_on_error = true;
  delay_before = none;
  action = wait_for (record {
    chat_id = numeric (pos 7);
    text_pattern = some "ok";
    from_user_id = none;
    topic_id = none;
  });
}

abbrev pub plan : ActionPlan
plan = record {
  steps = greet ∷ answer ∷ [];
  variants = [];
  pick_variant = none;
  inter_step_delay = none;
  job_timeout = none;
}

abbrev pub workflow : ℕ → Trigger → WorkflowRow
workflow id trigger = record {
  id = id;
  owner_id = 1;
  account_id = 5;
  name = "w";
  enabled = true;
  source = api;
  trigger = trigger;
  action_plan = plan;
  rr_counter = 0;
  created_at = 0;
  updated_at = 0;
}

abbrev pub on_hello : MessageMatchTrigger
on_hello = record {
  chat_id = pos 7;
  topic_id = none;
  text_pattern = some "hello";
  from_user_id = some (pos 3);
}

abbrev pub morning : TimeWindowTrigger
morning = record { window = "09:00-10:00"; count = exactly 2; min_gap = "10m" }

abbrev pub four_workflows : Workflows
four_workflows = record {
  rows =
      workflow 1 (cron "* * * * *")
      ∷ workflow 2 (message_match on_hello)
      ∷ workflow 3 startup
      ∷ workflow 4 (time_window morning)
      ∷ [];
  next_id = 5;
}

abbrev pub hello : Message
hello = record {
  id = 11;
  chat_id = pos 7;
  date = 0;
  text = some "hello";
  from_user_id = some (pos 3);
  topic_id = none;
  buttons = none;
}

-- a search that finds a text in itself only
abbrev pub next_minute : String → ℕ → ℕ
next_minute e t = t + 60
