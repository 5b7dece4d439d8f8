-- ===== src/Scheduler/Dispatcher.antt =====
-- tg_conductor/scheduler/dispatcher.py and message_router.py: the queues, one for each account, the
-- periodic tick and the immediate path.
pub mod Queues
use tg_conductor.Base.{
  ℕ, ◌+◌, String, Bool, true, false, ◌&&◌, Option, none, some, List, [], ◌∷◌, ◌++◌, map, ◌==◌,
  if◌then◌else◌,
}
use tg_conductor.Base.Int.{ℤ}
use tg_conductor.TgCore.Protocol.{Message, MessagePayload, message_to_payload}
use tg_conductor.Triggers.MessageMatch.{matches}
use tg_conductor.Scheduler.Models.{running, JobRow, Jobs}
use tg_conductor.Scheduler.Repo.{NewJob, add_row}
use tg_conductor.Scheduler.Repo.Claim.{ClaimResult, claim_due_jobs}
use tg_conductor.Scheduler.CronTick.{tick}
use tg_conductor.Scheduler.Control.{usable}
use tg_conductor.Workflows.Schema.{Trigger, cron, time_window, message_match, startup}
use tg_conductor.Workflows.Repo.{WorkflowRow, Workflows, list_for_owner, get_by_id}

abbrev pub QueueMap : Type 0
QueueMap = List (ℕ × List JobRow)

-- `self.queue_for(account_id).put_nowait(job)`
unfoldable pub put_job : ℕ → JobRow → QueueMap → QueueMap
put_job account_id job [] = (account_id, job ∷ []) ∷ []
put_job account_id job ((a, queue) ∷ queues) =
    if a == account_id
    then (a, queue ++ job ∷ []) ∷ queues
    else (a, queue) ∷ put_job account_id job queues

unfoldable pub put_all : List JobRow → QueueMap → QueueMap
unfolding put_job
put_all [] queues = queues
put_all (job ∷ rest) queues = put_all rest (put_job job.account_id job queues)

pub record DispatchReport : Type 0 where
  pub cron_created_ids : List ℕ
  pub claimed_ids : List ℕ
  pub skipped_ids : List ℕ

pub record State : Type 0 where
  pub jobs : Jobs
  pub queues : QueueMap

module _ (next_fire_at : String → ℕ → ℕ) (owner_id batch_size window : ℕ) where
  -- `tick_once` at an instant, with the defaults of `cron_tick.tick`
  unfoldable pub tick_once : ℕ → Workflows → State → DispatchReport × State
  unfolding tick claim_due_jobs put_all
  tick_once now workflows s =
      let (created, jobs') = tick next_fire_at owner_id now now 120000000 60 workflows s.jobs in
      let (result, rows) = claim_due_jobs owner_id now batch_size window jobs'.rows in
      (
        record {
          cron_created_ids = created;
          claimed_ids = map (λ (r : JobRow). r.id) result.claimed;
          skipped_ids = map (λ (r : JobRow). r.id) result.skipped;
        },
        record { jobs = record jobs' { rows = rows }; queues = put_all result.claimed s.queues },
      )

abbrev payload_of : Option Message → Option MessagePayload
payload_of none = none
payload_of (some m) = some (message_to_payload m)

abbrev enqueued : ℕ → QueueMap → JobRow × Jobs → Option ℕ × State
enqueued account_id queues (row, jobs) =
    (some row.id, record { jobs = jobs; queues = put_job account_id row queues })

module _ (owner_id now : ℕ) (workflows : Workflows) where
  -- past the lookup of the workflow
  unfoldable pub dispatch_found :
      Option WorkflowRow → ℕ → ℕ → Option Message → State → Option ℕ × State
  unfolding add_row put_job
  dispatch_found none workflow_id account_id trigger_message s = (none, s)
  dispatch_found (some wf) workflow_id account_id trigger_message s = enqueued account_id s.queues (
      add_row now
        (record {
          owner_id = owner_id;
          workflow_id = workflow_id;
          account_id = account_id;
          fire_at = now;
          status = running;
          started_at = some now;
          resolved_payload = payload_of trigger_message;
          expansion_date = none;
        })
        s.jobs)

  unfoldable pub dispatch_immediate : ℕ → ℕ → Option Message → State → Option ℕ × State
  unfolding get_by_id dispatch_found
  dispatch_immediate workflow_id account_id trigger_message s =
      dispatch_found (usable (get_by_id workflow_id owner_id workflows)) workflow_id account_id
        trigger_message s

  abbrev pub selects : (String → String → Bool) → ℕ → Message → WorkflowRow → Trigger → Bool
  selects search account_id msg wf (message_match t) =
      wf.account_id == account_id && matches search t msg
  selects search account_id msg wf _ = false

  abbrev collected : Option ℕ → List ℕ → List ℕ
  collected none ids = ids
  collected (some id) ids = id ∷ ids

  -- the loop of `MessageRouter.on_message`, over the rows that it read before
  unfoldable pub route :
      (String → String → Bool) → ℕ → Message → List WorkflowRow → State → List ℕ × State
  unfolding dispatch_immediate
  route search account_id msg [] s = ([], s)
  route search account_id msg (wf ∷ wfs) s =
      let sent = dispatch_immediate wf.id account_id (some msg) s in
      let hit = selects search account_id msg wf wf.trigger in
      let rest = route search account_id msg wfs (if hit then sent.1 else s) in
      if hit then (collected sent.0 rest.0, rest.1) else rest

  unfoldable pub on_message : (String → String → Bool) → ℕ → Message → State → List ℕ × State
  unfolding route list_for_owner
  on_message search account_id msg s =
      route search account_id msg (list_for_owner owner_id true none workflows) s
