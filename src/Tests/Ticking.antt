-- ===== src/Tests/Ticking.antt =====
-- The tick, the expander, the startup jobs and the dispatcher, at four workflows.
use tg_conductor.Base.{
  ℕ, ◌<◌, ◌≡◌, refl, true, false, Option, List, [], ◌∷◌, ◌++◌, none, some, String, arith, length,
  str_eq,
}
use tg_conductor.Tests.Data.{
  five_jobs, no_jobs, workflow, morning, four_workflows, hello, next_minute,
}
use tg_conductor.Scheduler.Models.{Jobs}
use tg_conductor.Scheduler.Repo.{count_for_expansion}
use tg_conductor.Scheduler.CronTick.{catch_up, tick_workflow}
use tg_conductor.Scheduler.CronTick.CatchUp.{rows_at, IsCatchUp, catch_up_lem}
use tg_conductor.Scheduler.CronTick.Again.{one_tick, tick_again}
use tg_conductor.Scheduler.Expander.{ExpansionReport, nothing_yet, expand_workflow}
use tg_conductor.Scheduler.Expander.Once.{expand_once}
use tg_conductor.Scheduler.Control.{spawn_startup_jobs, spawn_startup_jobs_once}
use tg_conductor.Triggers.Startup.{StartupTracker}
use tg_conductor.Scheduler.Dispatcher.{State, tick_once, on_message}
use tg_conductor.Scheduler.Dispatcher.Queues.{Inv, tick_once-Inv, on_message-Inv}
use tg_conductor.Triggers.MessageMatch.{matches}
use tg_conductor.Workflows.Schema.{cron, time_window, TimeWindowTrigger}

minute_later : (e : String) (t : ℕ) → t < next_minute e t
minute_later e t = omega arith

catch_up_lem_example :
    (ts : List ℕ) × ((catch_up next_minute 1 300 301 10 "* * * * *" 1 5 100 no_jobs).1.rows
      ≡ no_jobs.rows ++ rows_at next_minute 1 300 301 "* * * * *" 1 5 no_jobs.next_id ts)
    × IsCatchUp next_minute 1 300 301 "* * * * *" 1 5 10 100 ts
catch_up_lem_example =
    catch_up_lem next_minute 1 300 301 "* * * * *" 1 5 minute_later 10 100 no_jobs

abbrev ticked : List ℕ × Jobs
ticked = one_tick next_minute 1 300 301 120 10 (workflow 1 (cron "* * * * *")) "* * * * *" no_jobs

ticked_two : ticked.0 ≡ 1 ∷ 2 ∷ []
unfolding tick_workflow
ticked_two = refl

ticked_few : length ticked.0 < 10
unfolding tick_workflow
ticked_few = omega arith

tick_again_example :
    one_tick next_minute 1 300 301 120 10 (workflow 1 (cron "* * * * *")) "* * * * *" ticked.1
    ≡ ([], ticked.1)
tick_again_example =
    tick_again next_minute 1 300 301 120 10 (workflow 1 (cron "* * * * *")) "* * * * *" minute_later
      no_jobs ticked_few

abbrev no_tracker : StartupTracker
no_tracker = record { fired = false }

spawn_startup_jobs_once_example :
    let tracker = (spawn_startup_jobs 1 10 10 no_tracker four_workflows no_jobs).1 in
    let again = spawn_startup_jobs 1 20 20 tracker four_workflows five_jobs in
    (again.0.already_fired ≡ true) × (again.0.created_job_ids ≡ []) × (again.2 ≡ five_jobs)
spawn_startup_jobs_once_example =
    spawn_startup_jobs_once 1 10 10 20 20 1 no_tracker four_workflows four_workflows no_jobs
      five_jobs

abbrev two_times : TimeWindowTrigger → ℕ → ℕ → Option (List ℕ)
two_times trigger date now = some (40 ∷ 70 ∷ [])

abbrev no_times : TimeWindowTrigger → ℕ → ℕ → Option (List ℕ)
no_times trigger date now = none

abbrev expansion : ExpansionReport × Jobs
expansion =
    elim (expand_workflow two_times 1 9 738000 30 (workflow 4 (time_window morning))
      (time_window morning) nothing_yet no_jobs) [ none ↦ (nothing_yet, no_jobs) | some r ↦ r ]

expanded :
    expand_workflow two_times 1 9 738000 30
      (workflow 4 (time_window morning))
      (time_window morning)
      nothing_yet
      no_jobs
    ≡ some (expansion.0, expansion.1)
unfolding expand_workflow count_for_expansion
expanded = refl

expand_once_example :
    expand_workflow no_times 1 60 738000 55
      (workflow 4 (time_window morning))
      (time_window morning)
      nothing_yet
      expansion.1
    ≡ some (record nothing_yet { skipped_workflows = 4 ∷ [] }, expansion.1)
expand_once_example =
    expand_once 1 9 two_times no_times 738000 30 55 60 (workflow 4 (time_window morning)) morning
      nothing_yet expansion.0 nothing_yet no_jobs expansion.1 40 (70 ∷ []) refl expanded

abbrev idle : State
idle = record { jobs = no_jobs; queues = [] }

idle-Inv : Inv idle
idle-Inv = record { keyed = record { distinct = tt; below = tt }; queued = tt }

tick_once-Inv_example : Inv (tick_once next_minute 1 10 3600 300 four_workflows idle).1
tick_once-Inv_example = tick_once-Inv next_minute 1 10 3600 300 four_workflows idle idle-Inv

on_message-Inv_example : Inv (on_message 1 300 four_workflows (λ p t. str_eq p t) 5 hello idle).1
on_message-Inv_example =
    on_message-Inv 1 300 four_workflows (λ p t. str_eq p t) 5 hello idle idle-Inv

hello_fires : (on_message 1 300 four_workflows (λ p t. str_eq p t) 5 hello idle).0 ≡ 1 ∷ []
unfolding on_message matches
hello_fires = refl
