-- ===== src/Actions/Executor/Report.antt =====
-- Reports of a run under tg_conductor/actions/executor.py: the steps as they went, and the failures in
-- its log.
pub mod Loop
pub mod Whole
use tg_conductor.Base.{
  ℕ, suc, ◌+◌, ◌-◌, ◌≡◌, refl, sym, ap, ◌∙◌, true, false, not, Option, none, some, List, [], ◌∷◌,
  ◌++◌, arith, if◌then◌else◌, is_some,
}
use mathlib.Core.List.{append-nil, append_assoc}
use tg_conductor.Workflows.Schema.{
  Delay, DelayRange, Action, ActionStep, Variant, PickVariant, random, round_robin, ActionPlan,
}
use tg_conductor.Workflows.Schema.Plan.{resolved_timeout}
use tg_conductor.Workflows.Repo.{Workflows, bump_rr_counter}
use tg_conductor.Actions.World.{
  Outcome, StepError, step_timeout, exception, EventBody, action_failed, EventLevel, info, error,
  RunEvent, Ctx, World, Backend, Act, pure, raise, draw, modify_ctx, continue, ◌>>=◌, ◌>>◌, written,
  write_event, emit,
}
use tg_conductor.Actions.World.Keeps.{
  is_failure, IsClosed, Keeps, pure-Keeps, raise-Keeps, draw-Keeps, modify_ctx-Keeps, bind-Keeps,
}
use tg_conductor.Actions.Steps.{run_action}
use tg_conductor.Actions.Steps.Keeps.{run_action-Keeps}
use tg_conductor.Actions.Executor.{
  ResultError, ExecutionResult, step_failed, action_name, counter_or_one, nth_variant, set_label,
  attempt, wait_before, stash, wait_between, settle, run_steps, bump, chosen_variant, select_steps,
  execute,
}
use tg_conductor.Actions.Executor.Keeps.{
  IsOpen, wait_before-Keeps, stash-Keeps, wait_between-Keeps, attempt-Keeps, select_steps-Keeps,
  set_label-seq,
}

-- The failures that a log reports, in order.
abbrev pub one_failure : EventBody → List (ℕ × StepError)
one_failure (action_failed i e) = (i, e) ∷ []
one_failure _ = []

unfoldable pub failures : List RunEvent → List (ℕ × StepError)
failures [] = []
failures (e ∷ es) = one_failure e.body ++ failures es

pub failures-append : (xs ys : List RunEvent) → failures (xs ++ ys) ≡ failures xs ++ failures ys
unfolding failures
failures-append [] ys = refl
failures-append (x ∷ xs) ys =
    ap (λ (t : List (ℕ × StepError)). one_failure x.body ++ t) (failures-append xs ys)
    ∙ sym (append_assoc (one_failure x.body) (failures xs) (failures ys))

pub quiet_body : (body : EventBody) → is_failure body ≡ false → one_failure body ≡ []
quiet_body body h = ground arith

-- The outcome of a step that counts as a failure, and the failure.
abbrev pub FailsWith : Outcome (Unit {0}) → StepError → Type 0
FailsWith (Outcome.done u) e = ⊥
FailsWith Outcome.timed_out e = e ≡ step_timeout
FailsWith (Outcome.raised m) e = e ≡ exception m
FailsWith Outcome.cancelled e = ⊥

module _ {T : Type 0} (b : Backend T) (gap : Option DelayRange) where
  -- the world in which a step begins, after its delay, and what the step itself ends with
  unfoldable pub begun : ℕ → ActionStep → World T → World T
  begun i step w =
      (wait_before b i step.delay_before (modify_ctx (λ ctx. record ctx { step_index = i }) w).1).1

  unfoldable pub ran : ℕ → ActionStep → World T → Outcome (Unit {0}) × World T
  unfolding begun
  ran i step w = run_action b (resolved_timeout step) step.action (begun i step w)

  -- the worlds in which the next step starts, after a step that was fine and after one that failed
  unfoldable pub after_fine : ℕ → ActionStep → List ActionStep → World T → World T
  unfolding ran
  after_fine i step rest w = (wait_between b gap rest (stash b i step.action (ran i step w).1).1).1

  unfoldable pub after_failure : ℕ → ActionStep → List ActionStep → StepError → World T → World T
  unfolding ran
  after_failure i step rest e w =
      (wait_between b gap rest (emit b error (action_failed i e) (ran i step w).1).1).1

-- How the steps from index `i` on went, from a world on: each ran in the world that the one before
-- left, and ended without an exception, or failed with the listed error and was forgiven; the first
-- that failed unforgiven was the last that ran and is the error of the result.
pub data Explains {T : Type 0} (b : Backend T) (gap : Option DelayRange)
    : ℕ → World T → List ActionStep → List (ℕ × StepError) → Option ResultError → Type 0 where
  finished : {i : ℕ} {w : World T} → Explains b gap i w [] [] none
  fine :
      {i : ℕ} {w : World T} {step : ActionStep} {rest : List ActionStep}
      {errs : List (ℕ × StepError)} {err : Option ResultError}
      → (ran b gap i step w).0 ≡ Outcome.done tt
      → Explains b gap (suc i) (after_fine b gap i step rest w) rest errs err
      → Explains b gap i w (step ∷ rest) errs err
  forgiven :
      {i : ℕ} {w : World T} {step : ActionStep} {rest : List ActionStep}
      {errs : List (ℕ × StepError)} {err : Option ResultError} (e : StepError)
      → FailsWith (ran b gap i step w).0 e
      → step.continue_on_error ≡ true
      → Explains b gap (suc i) (after_failure b gap i step rest e w) rest errs err
      → Explains b gap i w (step ∷ rest) ((i, e) ∷ errs) err
  fatal :
      {i : ℕ} {w : World T} {step : ActionStep} {rest : List ActionStep} (e : StepError)
      → FailsWith (ran b gap i step w).0 e
      → step.continue_on_error ≡ false
      → Explains b gap i w
          (step ∷ rest)
          ((i, e) ∷ [])
          (some (step_failed i (action_name step.action) e))

-- A result against the steps, the errors before them, and the worlds before and after.
pub record IsReport {T : Type 0} (b : Backend T) (gap : Option DelayRange) (i : ℕ) (w : World T)
    (steps : List ActionStep) (before : List (ℕ × StepError)) (v : World T) (r : ExecutionResult)
    : Type 0 where
  pub errs : List (ℕ × StepError)
  pub listed : r.step_errors ≡ before ++ errs
  pub explained : Explains b gap i w steps errs r.error
  pub verdict : r.success ≡ not (is_some r.error)
  pub in_log : failures v.events ≡ failures w.events ++ errs

abbrev result_of : ExecutionResult → Outcome ExecutionResult → ExecutionResult
result_of d (Outcome.done r) = r
result_of d _ = d

module _ {T : Type 0} where
  abbrev pub Silent : World T → World T → Type 0
  Silent u v = failures v.events ≡ failures u.events

  -- If it ends in a result from this world, then what it leaves and the result fit.
  abbrev pub Yields :
      World T → (World T → ExecutionResult → Type 0) → Act T ExecutionResult → Type 0
  Yields w Q f = (r : ExecutionResult) → (f w).0 ≡ Outcome.done r → Q (f w).1 r

  pub pure-Yields :
      (w : World T) (Q : World T → ExecutionResult → Type 0) (r : ExecutionResult)
      → Q w r
      → Yields w Q (pure r)
  unfolding pure
  pure-Yields w Q r h r' k = rw (sym (ap (result_of r) k)) h

  continue-Yields :
      {A : Type 0} (w : World T) (Q : World T → ExecutionResult → Type 0) (o : Outcome A)
      (f : A → Act T ExecutionResult)
      → ((a : A) → o ≡ Outcome.done a → Yields w Q (f a))
      → Yields w Q (continue o f)
  continue-Yields w Q (Outcome.done a) f h r k = h a refl r k
  continue-Yields w Q Outcome.timed_out f h r k = absurd cc
  continue-Yields w Q (Outcome.raised x) f h r k = absurd cc
  continue-Yields w Q Outcome.cancelled f h r k = absurd cc

  pub bind-Yields :
      {A : Type 0} (w : World T) (Q : World T → ExecutionResult → Type 0) (m : Act T A)
      (f : A → Act T ExecutionResult)
      → ((a : A) → (m w).0 ≡ Outcome.done a → Yields (m w).1 Q (f a))
      → Yields w Q (m >>= f)
  unfolding ◌>>=◌
  bind-Yields w Q m f h r k = continue-Yields (m w).1 Q (m w).0 f h r k
