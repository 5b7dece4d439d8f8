-- ===== src/Actions/Executor/Keeps.antt =====
-- What `execute` of tg_conductor/actions/executor.py keeps, if its parts do.
use tg_conductor.Base.{
  ℕ, suc, String, ◌≡◌, refl, inl, inr, Option, none, some, List, [], ◌∷◌, ◌++◌, ltb, Bool-cases,
}
use tg_conductor.Workflows.Schema.{
  Delay, fixed, uniform, DelayRange, Action, send_text, send_dice, forward, click_button, wait_for,
  ai_reply, ActionStep, Variant, PickVariant, random, round_robin, ActionPlan,
}
use tg_conductor.Workflows.Schema.Plan.{resolved_timeout}
use tg_conductor.Workflows.Repo.{Workflows, bump_rr_counter}
use tg_conductor.TgCore.Protocol.{Message}
use tg_conductor.Actions.World.{
  Outcome, StepError, action_failed, info, error, Ctx, World, Backend, Act, emit,
}
use tg_conductor.Actions.World.Keeps.{
  IsClosed, Keeps, pure-Keeps, raise-Keeps, await-Keeps, draw-Keeps, modify_ctx-Keeps, emit-Keeps,
  bind-Keeps,
}
use tg_conductor.Actions.Steps.Keeps.{run_action-Keeps}
use tg_conductor.Actions.Executor.{
  ExecutionResult, set_label, stash_message, caught, attempt, draw_delay, pause, wait_before, stash,
  wait_between, settle, run_steps, bumped, bump, chosen_variant, select_steps, execute,
}

-- What the executor needs of a relation besides: a report of a failure, and the row of the workflow.
pub record IsOpen {T : Type 0} (b : Backend T) (R : World T → World T → Type 0) : Type 0 where
  pub closed : IsClosed b R
  pub failing : (i : ℕ) (e : StepError) (w : World T) → R w (emit b error (action_failed i e) w).1
  pub rewritten : (w : World T) (x : Workflows) → R w (record w { workflows = x })

stash_message-seq :
    (i : ℕ) (o : Option Message) (ctx : Ctx) → (stash_message i o ctx).next_seq ≡ ctx.next_seq
stash_message-seq i none ctx = refl
stash_message-seq i (some m) ctx = refl

pub set_label-seq : (o : Option String) (ctx : Ctx) → (set_label o ctx).next_seq ≡ ctx.next_seq
set_label-seq none ctx = refl
set_label-seq (some s) ctx = refl

module _ {T : Type 0} (b : Backend T) (R : World T → World T → Type 0) (c : IsClosed b R) where
  draw_delay-Keeps : (d : Option Delay) → Keeps R (draw_delay b d)
  unfolding draw_delay
  draw_delay-Keeps none = pure-Keeps b R c 0
  draw_delay-Keeps (some (fixed d)) = pure-Keeps b R c d
  draw_delay-Keeps (some (uniform r)) = draw-Keeps b R c _

  pause-Keeps : (i delay : ℕ) → Keeps R (pause b i delay)
  pause-Keeps i delay = elim (Bool-cases (ltb 0 delay)) [
    | inl e ↦ rw e (bind-Keeps b R c _ _ (await-Keeps b R c _) (λ u. emit-Keeps b R c info _ refl))
    | inr e ↦ rw e (pure-Keeps b R c tt)
  ]

  pub wait_before-Keeps : (i : ℕ) (d : Option Delay) → Keeps R (wait_before b i d)
  unfolding wait_before
  wait_before-Keeps i d = bind-Keeps b R c _ _ (draw_delay-Keeps d) (λ delay. pause-Keeps i delay)

  pub stash-Keeps : (i : ℕ) (a : Action) → Keeps R (stash b i a)
  stash-Keeps i (send_text s) = pure-Keeps b R c tt
  stash-Keeps i (send_dice s) = pure-Keeps b R c tt
  stash-Keeps i (forward s) = pure-Keeps b R c tt
  stash-Keeps i (click_button s) = pure-Keeps b R c tt
  stash-Keeps i (wait_for s) =
      modify_ctx-Keeps b R c _ (λ x. stash_message-seq i x.last_matched_message x)
  stash-Keeps i (ai_reply s) = pure-Keeps b R c tt

  pub wait_between-Keeps :
      (gap : Option DelayRange) (rest : List ActionStep) → Keeps R (wait_between b gap rest)
  unfolding wait_between
  wait_between-Keeps none rest = pure-Keeps b R c tt
  wait_between-Keeps (some r) [] = pure-Keeps b R c tt
  wait_between-Keeps (some r) (s ∷ rest) =
      bind-Keeps b R c _ _ (draw-Keeps b R c _) (λ d. await-Keeps b R c _)

  caught-Keeps : (o : Outcome (Unit {0})) → Keeps R (caught b o)
  caught-Keeps (Outcome.done u) w = c.same w
  caught-Keeps Outcome.timed_out w = c.same w
  caught-Keeps (Outcome.raised e) w = c.same w
  caught-Keeps Outcome.cancelled w = c.same w

  pub attempt-Keeps : (m : Act T (Unit {0})) → Keeps R m → Keeps R (attempt b m)
  unfolding attempt
  attempt-Keeps m h w = c.both (h w) (caught-Keeps (m w).0 (m w).1)

module _ {T : Type 0} (b : Backend T) (R : World T → World T → Type 0) (c : IsClosed b R)
    (rewritten : (w : World T) (x : Workflows) → R w (record w { workflows = x })) where
  bumped-Keeps : (r : Option ℕ × Workflows) (o : Outcome (Unit {0})) → Keeps R (bumped b r o)
  bumped-Keeps r (Outcome.done u) w = rewritten w r.1
  bumped-Keeps r Outcome.timed_out w = c.same w
  bumped-Keeps r (Outcome.raised e) w = c.same w
  bumped-Keeps r Outcome.cancelled w = c.same w

  bump-Keeps : (utcnow : ℕ) → Keeps R (bump b utcnow)
  unfolding bump
  bump-Keeps utcnow w = c.both (c.outside w (b.commit w.outside).1) (
      bumped-Keeps (bump_rr_counter w.ctx.workflow_id w.ctx.owner_id utcnow w.workflows)
        (b.commit w.outside).0 _)

  chosen_variant-Keeps : (i : ℕ) (o : Option Variant) → Keeps R (chosen_variant b i o)
  chosen_variant-Keeps i none = raise-Keeps b R c _ _
  chosen_variant-Keeps i (some v) = pure-Keeps b R c _

  pub select_steps-Keeps :
      (utcnow : ℕ) (steps : List ActionStep) (vs : List Variant) (pick : Option PickVariant)
      → Keeps R (select_steps b utcnow steps vs pick)
  unfolding select_steps
  select_steps-Keeps utcnow steps [] pick = pure-Keeps b R c _
  select_steps-Keeps utcnow steps (v ∷ vs) (some round_robin) =
      bind-Keeps b R c _ _ (bump-Keeps utcnow) (λ counter. chosen_variant-Keeps _ _)
  select_steps-Keeps utcnow steps (v ∷ vs) (some random) =
      bind-Keeps b R c _ _ (draw-Keeps b R c _) (λ i. chosen_variant-Keeps _ _)
  select_steps-Keeps utcnow steps (v ∷ vs) none = raise-Keeps b R c _ _

module _ {T : Type 0} (b : Backend T) (R : World T → World T → Type 0) (k : IsOpen b R) where
  abbrev c : IsClosed b R
  c = k.closed

  settle-Keeps :
      (gap : Option DelayRange) (i : ℕ) (step : ActionStep) (rest : List ActionStep)
      (errors : List (ℕ × StepError)) (next : List (ℕ × StepError) → Act T ExecutionResult)
      (ended : Option StepError)
      → ((errs : List (ℕ × StepError)) → Keeps R (next errs))
      → Keeps R (settle b gap i step rest errors next ended)
  unfolding settle
  settle-Keeps gap i step rest errors next none h =
      bind-Keeps b R c _ _ (stash-Keeps b R c i step.action)
        (λ u. bind-Keeps b R c _ _ (wait_between-Keeps b R c gap rest) (λ v. h errors))
  settle-Keeps gap i step rest errors next (some e) h = bind-Keeps b R c _ _ (k.failing i e) (λ u.
      elim (Bool-cases step.continue_on_error) [
        | inl t ↦ rw t (
            bind-Keeps b R c _ _ (wait_between-Keeps b R c gap rest)
              (λ v. h (errors ++ (i, e) ∷ [])))
        | inr f ↦ rw f (pure-Keeps b R c _)
      ])

  run_steps-Keeps :
      (gap : Option DelayRange) (i : ℕ) (steps : List ActionStep) (errors : List (ℕ × StepError))
      → Keeps R (run_steps b gap i steps errors)
  unfolding run_steps
  run_steps-Keeps gap i [] errors = pure-Keeps b R c _
  run_steps-Keeps gap i (step ∷ rest) errors =
      bind-Keeps b R c _ _ (modify_ctx-Keeps b R c _ (λ x. refl)) (λ u.
        bind-Keeps b R c _ _ (wait_before-Keeps b R c i step.delay_before) (λ v.
          bind-Keeps b R c _ _
            (attempt-Keeps b R c _ (run_action-Keeps b R c (resolved_timeout step) step.action))
            (λ ended.
              settle-Keeps gap i step rest errors (λ errs. run_steps b gap (suc i) rest errs) ended
                (λ errs. run_steps-Keeps gap (suc i) rest errs))))

  pub execute-Keeps : (utcnow : ℕ) (plan : ActionPlan) → Keeps R (execute b utcnow plan)
  unfolding execute
  execute-Keeps utcnow plan =
      bind-Keeps b R c _ _
        (select_steps-Keeps b R c k.rewritten utcnow plan.steps plan.variants plan.pick_variant)
        (λ selected.
          bind-Keeps b R c _ _ (modify_ctx-Keeps b R c _ (λ x. set_label-seq selected.1 x))
            (λ u. run_steps-Keeps plan.inter_step_delay 0 selected.0 []))
