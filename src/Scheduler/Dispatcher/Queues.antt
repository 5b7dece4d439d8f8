-- ===== src/Scheduler/Dispatcher/Queues.antt =====
-- What stands in the queues of tg_conductor/scheduler/dispatcher.py.
use tg_conductor.Base.{
  ℕ, zero, suc, String, ◌≡◌, refl, inl, inr, Bool, true, Option, none, some, List, [], ◌∷◌, ltb,
  ◌==◌, ==_iff, Bool-cases, All, All-append, All-map_weaken,
}
use tg_conductor.TgCore.Protocol.{Message}
use tg_conductor.Scheduler.Models.{running, JobRow, Jobs}
use tg_conductor.Scheduler.Repo.{row_of, create_pending}
use tg_conductor.Scheduler.Repo.Claim.{claim_due_jobs}
use tg_conductor.Scheduler.Repo.Claims.{IsClaimed, claimed_due}
use tg_conductor.Scheduler.Repo.Keyed.{IsKeyed, create-IsKeyed, claim-IsKeyed}
use tg_conductor.Scheduler.CronTick.{
  anchor_of, last_fire_at, catch_up, tick_workflow, tick_all, tick,
}
use tg_conductor.Scheduler.Control.{usable}
use tg_conductor.Workflows.Schema.{Trigger, cron}
use tg_conductor.Workflows.Repo.{WorkflowRow, Workflows, list_for_owner, get_by_id}
use tg_conductor.Scheduler.Dispatcher.{
  QueueMap, put_job, put_all, State, tick_once, dispatch_immediate, dispatch_found, route,
  on_message, selects,
}

-- A job in a queue is running, and in the queue of its own account.
abbrev pub IsQueued : ℕ → JobRow → Type 0
IsQueued account_id job = (job.account_id ≡ account_id) × (job.status ≡ running)

abbrev pub QueuesHold : QueueMap → Type 0
QueuesHold [] = Unit
QueuesHold ((a, queue) ∷ queues) = All (IsQueued a) queue × QueuesHold queues

pub record Inv (s : State) : Type 0 where
  pub keyed : IsKeyed s.jobs
  pub queued : QueuesHold s.queues

put_job-QueuesHold :
    (account_id : ℕ) (job : JobRow) (queues : QueueMap)
    → IsQueued account_id job
    → QueuesHold queues
    → QueuesHold (put_job account_id job queues)
unfolding put_job
put_job-QueuesHold account_id job [] j h = ((j, tt), tt)
put_job-QueuesHold account_id job ((a, queue) ∷ queues) j h = elim (Bool-cases (a == account_id)) [
  | inl e ↦
      let same : a ≡ account_id = (==_iff a account_id).0 e in
      rw e (All-append (IsQueued a) queue (job ∷ []) h.0 (rw same (j, tt)), h.1)
  | inr e ↦ rw e (h.0, put_job-QueuesHold account_id job queues j h.1)
]

put_all-QueuesHold :
    (claimed : List JobRow) (queues : QueueMap)
    → All (λ (r : JobRow). r.status ≡ running) claimed
    → QueuesHold queues
    → QueuesHold (put_all claimed queues)
unfolding put_all
put_all-QueuesHold [] queues r h = h
put_all-QueuesHold (job ∷ rest) queues r h =
    put_all-QueuesHold rest (put_job job.account_id job queues) r.1
      (put_job-QueuesHold job.account_id job queues (refl, r.0) h)

module _ (next_fire_at : String → ℕ → ℕ) (owner_id now utcnow : ℕ) where
  pending-IsKeyed :
      (w a t : ℕ) (d : Option ℕ) (jobs : Jobs)
      → IsKeyed jobs
      → IsKeyed (create_pending owner_id w a t utcnow d jobs).1
  unfolding create_pending
  pending-IsKeyed w a t d jobs k = create-IsKeyed jobs utcnow _ k

  catch_up-IsKeyed :
      (left : ℕ) (e : String) (w a cursor : ℕ) (jobs : Jobs)
      → IsKeyed jobs
      → IsKeyed (catch_up next_fire_at owner_id now utcnow left e w a cursor jobs).1
  unfolding catch_up
  catch_up-IsKeyed zero e w a cursor jobs k = k
  catch_up-IsKeyed (suc left) e w a cursor jobs k =
      elim (Bool-cases (ltb now (next_fire_at e cursor))) [
        | inl late ↦ rw late k
        | inr due ↦
            let next : ℕ = next_fire_at e cursor in
            rw due (
              catch_up-IsKeyed left e w a next (create_pending owner_id w a next utcnow none jobs).1
                (pending-IsKeyed w a next none jobs k))
      ]

  tick_workflow-IsKeyed :
      (lookback max : ℕ) (wf : WorkflowRow) (t : Trigger) (jobs : Jobs)
      → IsKeyed jobs
      → IsKeyed (tick_workflow next_fire_at owner_id now utcnow lookback max wf t jobs).1
  unfolding tick_workflow
  tick_workflow-IsKeyed lookback max wf (cron e) jobs k =
      catch_up-IsKeyed max e wf.id wf.account_id (anchor_of (last_fire_at wf.id jobs) now lookback)
        jobs k
  tick_workflow-IsKeyed lookback max wf _ jobs k = k

  tick_all-IsKeyed :
      (lookback max : ℕ) (wfs : List WorkflowRow) (jobs : Jobs)
      → IsKeyed jobs
      → IsKeyed (tick_all next_fire_at owner_id now utcnow lookback max wfs jobs).1
  unfolding tick_all
  tick_all-IsKeyed lookback max [] jobs k = k
  tick_all-IsKeyed lookback max (wf ∷ wfs) jobs k =
      tick_all-IsKeyed lookback max wfs
        (tick_workflow next_fire_at owner_id now utcnow lookback max wf wf.trigger jobs).1
        (tick_workflow-IsKeyed lookback max wf wf.trigger jobs k)

-- A tick keeps ids distinct, and whatever it puts in a queue is running and in its account's queue.
pub tick_once-Inv :
    (next_fire_at : String → ℕ → ℕ) (owner_id batch_size window now : ℕ) (workflows : Workflows)
    (s : State)
    → Inv s
    → Inv (tick_once next_fire_at owner_id batch_size window now workflows s).1
unfolding tick_once
tick_once-Inv next_fire_at owner_id batch_size window now workflows s h =
    let jobs : Jobs = (tick next_fire_at owner_id now now 120000000 60 workflows s.jobs).1 in
    let keyed : IsKeyed jobs =
      unfold tick in
      tick_all-IsKeyed next_fire_at owner_id now now 120000000 60
        (list_for_owner owner_id true none workflows) s.jobs h.keyed in
    record {
      keyed = claim-IsKeyed owner_id now batch_size window jobs keyed;
      queued =
          put_all-QueuesHold (claim_due_jobs owner_id now batch_size window jobs.rows).0.claimed
            s.queues
            (All-map_weaken (IsClaimed owner_id now batch_size window)
              (λ (r : JobRow). r.status ≡ running) (λ r c. c.0)
              (claim_due_jobs owner_id now batch_size window jobs.rows).0.claimed
              (claimed_due owner_id now batch_size window jobs.rows keyed.distinct).1)
            h.queued;
    }

module _ (owner_id now : ℕ) (workflows : Workflows) where
  found-Inv :
      (o : Option WorkflowRow) (workflow_id account_id : ℕ) (msg : Option Message) (s : State)
      → Inv s
      → Inv (dispatch_found owner_id now workflows o workflow_id account_id msg s).1
  unfolding dispatch_found
  found-Inv none workflow_id account_id msg s h = h
  found-Inv (some wf) workflow_id account_id msg s h = record {
    keyed = create-IsKeyed s.jobs now _ h.keyed;
    queued =
        put_job-QueuesHold account_id (row_of s.jobs.next_id now _) s.queues (refl, refl) h.queued;
  }

  immediate-Inv :
      (workflow_id account_id : ℕ) (msg : Option Message) (s : State)
      → Inv s
      → Inv (dispatch_immediate owner_id now workflows workflow_id account_id msg s).1
  unfolding dispatch_immediate
  immediate-Inv workflow_id account_id msg s h =
      found-Inv (usable (get_by_id workflow_id owner_id workflows)) workflow_id account_id msg s h

  route-Inv :
      (search : String → String → Bool) (account_id : ℕ) (msg : Message) (wfs : List WorkflowRow)
      (s : State)
      → Inv s
      → Inv (route owner_id now workflows search account_id msg wfs s).1
  unfolding route
  route-Inv search account_id msg [] s h = h
  route-Inv search account_id msg (wf ∷ wfs) s h =
      elim (Bool-cases (selects owner_id now workflows search account_id msg wf wf.trigger)) [
        | inl hit ↦ rw hit (
            route-Inv search account_id msg wfs
              (dispatch_immediate owner_id now workflows wf.id account_id (some msg) s).1
              (immediate-Inv wf.id account_id (some msg) s h))
        | inr miss ↦ rw miss (route-Inv search account_id msg wfs s h)
      ]

  -- Routing a message keeps the same: ids distinct, and every queued job running in its own queue.
  pub on_message-Inv :
      (search : String → String → Bool) (account_id : ℕ) (msg : Message) (s : State)
      → Inv s
      → Inv (on_message owner_id now workflows search account_id msg s).1
  unfolding on_message
  on_message-Inv search account_id msg s h =
      route-Inv search account_id msg (list_for_owner owner_id true none workflows) s h
