-- ===== src/Scheduler/CronTick/Again.antt =====
-- A second tick of tg_conductor/scheduler/cron_tick.py at the same instant.
use tg_conductor.Base.{
  ℕ, zero, suc, ◌+◌, ◌-◌, ◌≤◌, ◌<◌, String, ◌≡◌, refl, ap, ◌∙◌, Bool, Option, none, some, List, [],
  ◌∷◌, ◌++◌, arith, ltb, ◌==◌, if◌then◌else◌, if-true, length, filter, filter-append,
}
use tg_conductor.Scheduler.Models.{JobRow, Jobs}
use tg_conductor.Workflows.Schema.{cron}
use tg_conductor.Workflows.Repo.{WorkflowRow}
use tg_conductor.Scheduler.CronTick.{max_fire_at, last_fire_at, anchor_of, catch_up, tick_workflow}
use tg_conductor.Scheduler.CronTick.CatchUp.{
  occurrences, rows_at, catch_up-rows, Chain, last_of, occurrences-IsCatchUp, length-catch_up,
}

abbrev later_of : Option ℕ → Option ℕ → Option ℕ
later_of none o = o
later_of (some m) none = some m
later_of (some m) (some k) = some (if ltb k m then m else k)

max_fire_at-append :
    (xs ys : List JobRow) → max_fire_at (xs ++ ys) ≡ later_of (max_fire_at xs) (max_fire_at ys)
unfolding max_fire_at
max_fire_at-append [] ys = refl
max_fire_at-append (x ∷ xs) ys = ground (arith, max_fire_at-append xs ys)

module _ (next_fire_at : String → ℕ → ℕ) (owner_id now utcnow : ℕ) (expression : String)
    (workflow_id account_id : ℕ) where
  abbrev mine : JobRow → Bool
  mine r = r.workflow_id == workflow_id

  abbrev created : ℕ → List ℕ → List JobRow
  created = rows_at next_fire_at owner_id now utcnow expression workflow_id account_id

  filter-created : (id : ℕ) (ts : List ℕ) → filter mine (created id ts) ≡ created id ts
  unfolding rows_at
  filter-created id [] = refl
  filter-created id (t ∷ ts) = ground (arith, filter-created (id + 1) ts)

  abbrev IsChain : ℕ → List ℕ → Type 0
  IsChain = Chain next_fire_at owner_id now utcnow expression workflow_id account_id

  abbrev final : ℕ → List ℕ → ℕ
  final = last_of next_fire_at owner_id now utcnow expression workflow_id account_id

  final-ge : (c : ℕ) (ts : List ℕ) → IsChain c ts → c ≤ final c ts
  final-ge c [] h = omega arith
  final-ge c (t ∷ ts) h = omega (arith, h.1, final-ge t ts h.3)

  max-created :
      (id c t : ℕ) (ts : List ℕ)
      → IsChain c (t ∷ ts)
      → max_fire_at (created id (t ∷ ts)) ≡ some (final t ts)
  unfolding max_fire_at rows_at
  max-created id c t [] h = refl
  max-created id c t (u ∷ us) h =
      ground (arith, max-created (id + 1) t u us h.3, final-ge u us h.3.3, h.3.1)

  max-created_nil : (id : ℕ) → max_fire_at (created id []) ≡ none
  unfolding rows_at max_fire_at
  max-created_nil id = refl

  -- Where the next tick starts from: the last time created, or the same anchor if there was none.
  anchor_moves :
      (last : Option ℕ) (lookback id : ℕ) (ts : List ℕ)
      → IsChain (anchor_of last now lookback) ts
      → anchor_of (later_of last (max_fire_at (created id ts))) now lookback
        ≡ final (anchor_of last now lookback) ts
  anchor_moves none lookback id [] h = rw (max-created_nil id)
  anchor_moves (some m) lookback id [] h = rw (max-created_nil id)
  anchor_moves none lookback id (t ∷ ts) h = rw (max-created id (now - lookback) t ts h)
  anchor_moves (some m) lookback id (t ∷ ts) h =
      rw (max-created id m t ts h) (ground (arith, final-ge t ts h.3, h.1))

  quiet :
      (left cursor : ℕ) (jobs : Jobs)
      → 0 < left
      → now < next_fire_at expression cursor
      → catch_up next_fire_at owner_id now utcnow left expression workflow_id account_id cursor jobs
        ≡ ([], jobs)
  unfolding catch_up
  quiet zero cursor jobs h k = absurd (omega arith)
  quiet (suc left) cursor jobs h k =
      if-true (ltb now (next_fire_at expression cursor)) _ _ (ground arith)

  last-after :
      (jobs jobs' : Jobs) (ts : List ℕ)
      → jobs'.rows ≡ jobs.rows ++ created jobs.next_id ts
      → last_fire_at workflow_id jobs'
        ≡ later_of (last_fire_at workflow_id jobs) (max_fire_at (created jobs.next_id ts))
  unfolding last_fire_at
  last-after jobs jobs' ts e = rw e (
      rw (filter-append mine jobs.rows (created jobs.next_id ts)) (
        rw (filter-created jobs.next_id ts)
          (max_fire_at-append (filter mine jobs.rows) (created jobs.next_id ts))))

module _ (next_fire_at : String → ℕ → ℕ) (owner_id now utcnow lookback max_catchup : ℕ)
    (wf : WorkflowRow) (expression : String) where
  abbrev pub one_tick : Jobs → List ℕ × Jobs
  one_tick =
      tick_workflow next_fire_at owner_id now utcnow lookback max_catchup wf (cron expression)

  -- If the next occurrence always lies later and a tick of a cron workflow created fewer jobs than its
  -- limit, then a second tick at the same instant creates none and changes nothing.
  pub tick_again :
      ((e : String) (t : ℕ) → t < next_fire_at e t)
      → (jobs : Jobs) → length (one_tick jobs).0 < max_catchup
      → one_tick (one_tick jobs).1 ≡ ([], (one_tick jobs).1)
  unfolding tick_workflow
  tick_again after jobs fewer =
      let last = last_fire_at wf.id jobs in
      let anchor : ℕ = anchor_of last now lookback in
      let ts : List ℕ =
        occurrences next_fire_at owner_id now utcnow expression wf.id wf.account_id max_catchup
          anchor in
      let done =
        occurrences-IsCatchUp next_fire_at owner_id now utcnow expression wf.id wf.account_id after
          max_catchup anchor in
      let jobs' : Jobs =
        (catch_up next_fire_at owner_id now utcnow max_catchup expression wf.id wf.account_id anchor
          jobs).1 in
      let moved : anchor_of (last_fire_at wf.id jobs') now lookback
          ≡ last_of next_fire_at owner_id now utcnow expression wf.id wf.account_id anchor ts =
        ap (λ (o : Option ℕ). anchor_of o now lookback)
          (last-after next_fire_at owner_id now utcnow expression wf.id wf.account_id jobs jobs' ts
            (catch_up-rows next_fire_at owner_id now utcnow expression wf.id wf.account_id
              max_catchup anchor jobs))
        ∙ anchor_moves next_fire_at owner_id now utcnow expression wf.id wf.account_id last lookback
            jobs.next_id ts done.chain in
      rw moved (
        quiet next_fire_at owner_id now utcnow expression wf.id wf.account_id max_catchup
          (last_of next_fire_at owner_id now utcnow expression wf.id wf.account_id anchor ts) jobs'
          (omega arith)
          (done.caught_up (
            omega (
              arith,
              length-catch_up next_fire_at owner_id now utcnow expression wf.id wf.account_id
                  max_catchup anchor jobs,
            ))))
