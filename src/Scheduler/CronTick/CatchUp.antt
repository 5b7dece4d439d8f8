-- ===== src/Scheduler/CronTick/CatchUp.antt =====
-- The loop of tg_conductor/scheduler/cron_tick.py for one workflow.
use tg_conductor.Base.{
  ℕ, zero, suc, ◌+◌, ◌≤◌, ◌<◌, String, ◌≡◌, refl, sym, ap, ◌∙◌, inl, inr, none, List, [], ◌∷◌, ◌++◌,
  map, arith, ltb, if◌then◌else◌, ltb→lt, not_ltb→le, Bool-cases, length,
}
use mathlib.Core.List.{append-nil}
use tg_conductor.Scheduler.Models.{pending, JobRow, Jobs}
use tg_conductor.Scheduler.Repo.{NewJob, row_of, create_pending}
use tg_conductor.Scheduler.CronTick.{catch_up}

abbrev fires : List JobRow → List ℕ
fires = map (λ (r : JobRow). r.fire_at)

module _ (next_fire_at : String → ℕ → ℕ) (owner_id now utcnow : ℕ) (expression : String)
    (workflow_id account_id : ℕ) where
  abbrev pub cron_job : ℕ → NewJob
  cron_job t = record {
    owner_id = owner_id;
    workflow_id = workflow_id;
    account_id = account_id;
    fire_at = t;
    status = pending;
    started_at = none;
    resolved_payload = none;
    expansion_date = none;
  }

  -- the occurrences after `cursor` up to now, at most `left` of them
  unfoldable pub occurrences : ℕ → ℕ → List ℕ
  occurrences zero cursor = []
  occurrences (suc left) cursor =
      let next = next_fire_at expression cursor in
      let rest = occurrences left next in if ltb now next then [] else next ∷ rest

  -- the rows for given times, with ids from `id` on
  unfoldable pub rows_at : ℕ → List ℕ → List JobRow
  rows_at id [] = []
  rows_at id (t ∷ ts) = row_of id utcnow (cron_job t) ∷ rows_at (id + 1) ts

  append_one : (xs ys : List JobRow) (y : JobRow) → (xs ++ y ∷ []) ++ ys ≡ xs ++ (y ∷ ys)
  append_one [] ys y = refl
  append_one (x ∷ xs) ys y = ap (λ (t : List JobRow). x ∷ t) (append_one xs ys y)

  -- The loop appends one row for each occurrence and changes no row that was there.
  pub catch_up-rows :
      (left cursor : ℕ) (jobs : Jobs)
      → (catch_up next_fire_at owner_id now utcnow left expression workflow_id account_id cursor
          jobs).1.rows
        ≡ jobs.rows ++ rows_at jobs.next_id (occurrences left cursor)
  unfolding catch_up occurrences rows_at
  catch_up-rows zero cursor jobs = sym (append-nil jobs.rows)
  catch_up-rows (suc left) cursor jobs =
      elim (Bool-cases (ltb now (next_fire_at expression cursor))) [
        | inl e ↦ rw e (sym (append-nil jobs.rows))
        | inr e ↦
            let next : ℕ = next_fire_at expression cursor in
            rw e (
              catch_up-rows left next
                (create_pending owner_id workflow_id account_id next utcnow none jobs).1
              ∙ append_one jobs.rows (rows_at (jobs.next_id + 1) (occurrences left next))
                  (row_of jobs.next_id utcnow (cron_job next)))
      ]

  -- Each time is the next occurrence after the one before it, later than it, and not after now.
  abbrev pub Chain : ℕ → List ℕ → Type 0
  Chain cursor [] = Unit
  Chain cursor (t ∷ ts) =
      (t ≡ next_fire_at expression cursor) × (cursor < t) × (t ≤ now) × Chain t ts

  abbrev pub last_of : ℕ → List ℕ → ℕ
  last_of cursor [] = cursor
  last_of cursor (t ∷ ts) = last_of t ts

  -- What one workflow's times have to be.
  pub record IsCatchUp (left cursor : ℕ) (ts : List ℕ) : Type 0 where
    pub chain : Chain cursor ts
    pub bounded : length ts ≤ left
    pub caught_up : length ts < left → now < next_fire_at expression (last_of cursor ts)

  pub occurrences-IsCatchUp :
      ((e : String) (t : ℕ) → t < next_fire_at e t)
      → (left cursor : ℕ) → IsCatchUp left cursor (occurrences left cursor)
  unfolding occurrences
  occurrences-IsCatchUp after zero cursor = record {
    chain = tt;
    bounded = omega arith;
    caught_up = λ h. absurd (omega arith);
  }
  occurrences-IsCatchUp after (suc left) cursor =
      elim (Bool-cases (ltb now (next_fire_at expression cursor))) [
        | inl e ↦ rw e (record {
          chain = tt;
          bounded = omega arith;
          caught_up = λ h. ltb→lt now (next_fire_at expression cursor) e;
        })
        | inr e ↦
            let next : ℕ = next_fire_at expression cursor in
            let ih = occurrences-IsCatchUp after left next in
            rw e (record {
              chain = (refl, after expression cursor, not_ltb→le now next e, ih.chain);
              bounded = omega (arith, ih.bounded);
              caught_up = λ h. ih.caught_up (omega arith);
            })
      ]

  -- If the next occurrence always lies later, the loop appends one pending row for each of a run of
  -- occurrences and changes no other: each is the first after the one before, in `(cursor, now]`, there
  -- are at most `left`, and if there are fewer then the occurrence after the last is still to come.
  pub catch_up_lem :
      ((e : String) (t : ℕ) → t < next_fire_at e t)
      → (left cursor : ℕ) (jobs : Jobs)
      → (ts : List ℕ) × ((catch_up next_fire_at owner_id now utcnow left expression workflow_id
            account_id cursor jobs).1.rows
          ≡ jobs.rows ++ rows_at jobs.next_id ts)
        × IsCatchUp left cursor ts
  catch_up_lem after left cursor jobs = (
    occurrences left cursor,
    catch_up-rows left cursor jobs,
    occurrences-IsCatchUp after left cursor,
  )

  pub length-catch_up :
      (left cursor : ℕ) (jobs : Jobs)
      → length
          (catch_up next_fire_at owner_id now utcnow left expression workflow_id account_id cursor
            jobs).0
        ≡ length (occurrences left cursor)
  unfolding catch_up occurrences
  length-catch_up zero cursor jobs = refl
  length-catch_up (suc left) cursor jobs =
      elim (Bool-cases (ltb now (next_fire_at expression cursor))) [
        | inl e ↦ rw e
        | inr e ↦
            let next : ℕ = next_fire_at expression cursor in
            rw e (
              ap suc (
                length-catch_up left next
                  (create_pending owner_id workflow_id account_id next utcnow none jobs).1))
      ]
