-- ===== src/Lib.antt =====
-- A scheduler that drives Telegram accounts: workflows (a trigger and a plan of actions) become jobs,
-- jobs become runs, and a run carries out the plan of its workflow step by step.
--
-- Parts, and where they are modelled:
--   Workflows/Schema        tg_conductor/workflows/schema.py: triggers, steps, plans, their validators
--   Workflows/Repo          tg_conductor/workflows/repo.py: the table of workflows
--   Accounts/Repo           tg_conductor/accounts/repo.py: the table of accounts, and their sessions
--   Accounts/Manager        tg_conductor/accounts/manager.py: connecting and watching the accounts
--   Db/Crypto               tg_conductor/db/crypto.py: encryption at rest
--   ConfigLoader            tg_conductor/config_loader: the files, the sync of the table, the reload
--   ConfigLoader/Flight     tg_conductor/config_loader/reload.py: reloads that share an execution
--   Workflows/UpdateMode    tg_conductor/workflows/update_mode.py: who subscribes to updates
--   Triggers                tg_conductor/triggers: durations, time windows, message filters, startup
--   Scheduler/Repo          tg_conductor/scheduler/repo.py: the table of jobs; Claim is claim_due_jobs
--   Scheduler/CronTick      tg_conductor/scheduler/cron_tick.py: the jobs that a tick creates
--   Scheduler/Expander      tg_conductor/scheduler/expander.py and daily_expander.py
--   Scheduler/Control       tg_conductor/scheduler/control.py: startup jobs and manual ones
--   Scheduler/Dispatcher    tg_conductor/scheduler/dispatcher.py and message_router.py
--   Scheduler/AccountWorker tg_conductor/scheduler/account_worker.py: a job from the queue to its end
--   Runs/Models             tg_conductor/runs/models.py and repo.py: the table of runs
--   Runs/EventBus           tg_conductor/runs/event_bus.py: the bounded queues of the subscribers
--   Runs/Events             list_events, and the catch-up of tg_conductor/api/routes/runs.py
--   TgCore/Protocol         tg_conductor/tg_core/protocol.py: messages
--   TgCore/Throttle         tg_conductor/tg_core/throttle.py: the spacing of an account's calls
--   Actions/World           tg_conductor/actions/context.py and runs/event_writer.py
--   Actions/Steps           tg_conductor/actions/send_text.py and the five other actions
--   Actions/Executor        tg_conductor/actions/executor.py: the steps of a plan, and the result
--   Ai                      tg_conductor/ai: the metered client, the prices, the reports on usage
--   Api/Lifespan            tg_conductor/api/lifespan.py: supervisor, update modes, shutdown
--   TgCore/Login            tg_conductor/tg_core/login.py: the interactive login
--   Runs/Cleanup            tg_conductor/runs/cleanup.py: events past their time to live are deleted
-- The cron tick, the expander, the control and the router write pending or running rows to the table of
-- jobs; the dispatcher claims what is due and queues it for its account. The worker of the account opens
-- a run, lets the executor carry out the plan, and marks the run and the job.
--
-- A table is the list of its rows with the next key: WHERE is a test, an UPDATE a map over the rows,
-- and ORDER BY a stable insertion sort. Times are whole microseconds on the native numbers, and
-- calendar days are their ordinals. A write inside a transaction that fails leaves the state of
-- before. Code that awaits is a function of a state; what it calls outside the program is a record
-- of functions, and may time out, raise, or be cancelled. Loops are structural recursion; the catch-
-- up loop has the bound of the source itself, and the paging of a log a fuel that exceeds the number
-- of rows; a reload waits as often as its parameter says. AES-GCM, base64, UTF-8, reading a file,
-- YAML and the construction of a workflow from a mapping, croniter, regular expressions, random
-- draws, the instant of a wall clock time, the floating-point price of a number of
-- tokens, what the AI provider answers, and what Telegram and the prompts give at a login are
-- parameters.
--
-- Not modelled: the routes of the HTTP interface and the startup of the process, which wire what is
-- modelled here; the command line, settings and logging; the database engine and its migrations; the
-- adapter of the Telegram library and the SDK behind the AI client; the cancellation of asyncio tasks
-- other than reloads; a cron expression for which croniter finds no time and raises.
pub mod Base
pub mod Db
pub mod Accounts
pub mod ConfigLoader
pub mod Workflows
pub mod TgCore
pub mod Scheduler
pub mod Triggers
pub mod Runs
pub mod Ai
pub mod Api
pub mod Actions
mod Tests
