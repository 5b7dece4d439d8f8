-- ===== src/Actions/Executor.antt =====
-- tg_conductor/actions/executor.py: the steps of a plan, one after the other. A result keeps what the
-- text of its error is made of; `describe` is that text.
pub mod Keeps
pub mod Log
pub mod RoundRobin
pub mod Report
use Prim.Native.String.{◌++◌ as str_append}
use tg_conductor.Base.{
  ℕ, zero, suc, ◌+◌, ◌-◌, ◌%◌, min, String, Bool, true, false, Option, none, some, List, [], ◌∷◌,
  ◌++◌, str_eq, ltb, if◌then◌else◌, length,
}
use tg_conductor.Workflows.Schema.{
  Delay, fixed, uniform, DelayRange, Action, send_text, send_dice, forward, click_button, wait_for,
  ai_reply, ActionStep, Variant, PickVariant, random, round_robin, ActionPlan,
}
use tg_conductor.Workflows.Schema.Plan.{resolved_timeout}
use tg_conductor.Workflows.Repo.{Workflows, bump_rr_counter}
use tg_conductor.TgCore.Protocol.{Message}
use tg_conductor.Actions.Extras.{Extra, label, message, put, decimal, step_key, variant_key}
use tg_conductor.Actions.World.{
  Outcome, StepError, step_timeout, exception, action_delay, action_failed, info, error, Ctx, World,
  Backend, Act, pure, raise, gets, lift, await, draw, modify_ctx, ◌>>=◌, ◌>>◌, emit,
}
use tg_conductor.Actions.Steps.{run_action}

pub data ResultError : Type 0 where
  step_failed : ℕ → String → StepError → ResultError
  job_timeout workflow_not_found : ResultError
  escaped : String → ResultError

pub record ExecutionResult : Type 0 where
  pub success : Bool
  pub error : Option ResultError
  pub step_errors : List (ℕ × StepError)

-- the discriminator of a step
abbrev pub action_name : Action → String
action_name (send_text s) = "send_text"
action_name (send_dice s) = "send_dice"
action_name (forward s) = "forward"
action_name (click_button s) = "click_button"
action_name (wait_for s) = "wait_for"
action_name (ai_reply s) = "ai_reply"

abbrev pub join : List String → String
join [] = ""
join (s ∷ ss) = str_append s (join ss)

-- the text of the error
abbrev pub describe : ResultError → String
describe (step_failed i a step_timeout) = join ("step " ∷ decimal i ∷ " (" ∷ a ∷ ") timed out" ∷ [])
describe (step_failed i a (exception e)) =
    join ("step " ∷ decimal i ∷ " (" ∷ a ∷ ") failed: " ∷ e ∷ [])
describe job_timeout = "job_timeout"
describe workflow_not_found = "workflow_not_found"
describe (escaped e) = e

-- an empty text counts as none in `or`
abbrev nonempty : Option String → Option String
nonempty none = none
nonempty (some s) = if str_eq s "" then none else some s

abbrev or_else : Option String → Option String → Option String
or_else none o = o
or_else (some s) o = some s

abbrev or_text : Option String → String → String
or_text none s = s
or_text (some t) s = t

-- `_variant_label`
unfoldable pub variant_label : Variant → ℕ → String
variant_label v index = or_text (or_else (nonempty v.id) (nonempty v.name)) (variant_key index)

abbrev pub nth_variant : List Variant → ℕ → Option Variant
nth_variant [] i = none
nth_variant (v ∷ vs) zero = some v
nth_variant (v ∷ vs) (suc i) = nth_variant vs i

abbrev pub counter_or_one : Option ℕ → ℕ
counter_or_one none = 1
counter_or_one (some n) = n

-- `ctx.extras["variant_id"] = variant_label`
abbrev pub set_label : Option String → Ctx → Ctx
set_label none ctx = ctx
set_label (some s) ctx = record ctx { extras = put "variant_id" (label s) ctx.extras }

abbrev pub stash_message : ℕ → Option Message → Ctx → Ctx
stash_message i none ctx = ctx
stash_message i (some m) ctx = record ctx { extras = put (step_key i) (message m) ctx.extras }

module _ {T : Type 0} (b : Backend T) where
  -- the `except` clauses around a step
  abbrev pub caught : Outcome (Unit {0}) → Act T (Option StepError)
  caught (Outcome.done u) w = (Outcome.done none, w)
  caught Outcome.timed_out w = (Outcome.done (some step_timeout), w)
  caught (Outcome.raised e) w = (Outcome.done (some (exception e)), w)
  caught Outcome.cancelled w = (Outcome.cancelled, w)

  unfoldable pub attempt : Act T (Unit {0}) → Act T (Option StepError)
  attempt m w = let (o, w') = m w in caught o w'

  unfoldable pub draw_delay : Option Delay → Act T ℕ
  draw_delay none = pure 0
  draw_delay (some (fixed d)) = pure d
  draw_delay (some (uniform r)) = draw (b.uniform r.min r.max)

  abbrev pub pause : ℕ → ℕ → Act T (Unit {0})
  pause i delay =
      if ltb 0 delay then (await (b.sleep delay) >> emit b info (action_delay i delay)) else pure tt

  -- `delay_before`, outside the deadline of the step
  unfoldable pub wait_before : ℕ → Option Delay → Act T (Unit {0})
  unfolding draw_delay
  wait_before i delay_before = do delay ← draw_delay delay_before; pause i delay

  abbrev pub stash : ℕ → Action → Act T (Unit {0})
  stash i (wait_for s) = modify_ctx (λ ctx. stash_message i ctx.last_matched_message ctx)
  stash i _ = pure tt

  -- `inter_step_delay`, which the last step has none of
  unfoldable pub wait_between : Option DelayRange → List ActionStep → Act T (Unit {0})
  wait_between none rest = pure tt
  wait_between (some r) [] = pure tt
  wait_between (some r) (s ∷ rest) = do delay ← draw (b.uniform r.min r.max); await (b.sleep delay)

  -- after a step: what it ended with, and the rest of the loop, which takes the errors so far
  unfoldable pub settle :
      Option DelayRange
      → ℕ
      → ActionStep
      → List ActionStep
      → List (ℕ × StepError)
      → (List (ℕ × StepError) → Act T ExecutionResult)
      → Option StepError
      → Act T ExecutionResult
  unfolding wait_between
  settle gap i step rest errors next none = do
    stash i step.action
    wait_between gap rest
    next errors
  settle gap i step rest errors next (some e) = do
    emit b error (action_failed i e)
    (if step.continue_on_error
        then (wait_between gap rest >> next (errors ++ (i, e) ∷ []))
        else pure (record {
          success = false;
          error = some (step_failed i (action_name step.action) e);
          step_errors = errors ++ (i, e) ∷ [];
        }))

  -- the loop of `execute`, from the step of index `i` on
  unfoldable pub run_steps :
      Option DelayRange → ℕ → List ActionStep → List (ℕ × StepError) → Act T ExecutionResult
  unfolding wait_before attempt settle run_action
  run_steps gap i [] errors = pure (record { success = true; error = none; step_errors = errors })
  run_steps gap i (step ∷ rest) errors = do
    modify_ctx (λ ctx. record ctx { step_index = i })
    wait_before i step.delay_before
    ended ← attempt (run_action b (resolved_timeout step) step.action)
    settle gap i step rest errors (λ errs. run_steps gap (suc i) rest errs) ended

  -- the transaction around `bump_rr_counter`
  abbrev bumped : Option ℕ × Workflows → Outcome (Unit {0}) → Act T (Option ℕ)
  bumped (counter, workflows) (Outcome.done u) w =
      (Outcome.done counter, record w { workflows = workflows })
  bumped (counter, workflows) Outcome.timed_out w = (Outcome.timed_out, w)
  bumped (counter, workflows) (Outcome.raised e) w = (Outcome.raised e, w)
  bumped (counter, workflows) Outcome.cancelled w = (Outcome.cancelled, w)

  unfoldable pub bump : ℕ → Act T (Option ℕ)
  unfolding bump_rr_counter
  bump utcnow w =
      let (o, t) = b.commit w.outside in
      bumped (bump_rr_counter w.ctx.workflow_id w.ctx.owner_id utcnow w.workflows) o
        (record w { outside = t })

  abbrev pub chosen_variant : ℕ → Option Variant → Act T (List ActionStep × Option String)
  chosen_variant index none = raise "IndexError"
  chosen_variant index (some v) = pure (v.steps, some (variant_label v index))

  -- `_select_steps`
  unfoldable pub select_steps :
      ℕ
      → List ActionStep
      → List Variant
      → Option PickVariant
      → Act T (List ActionStep × Option String)
  unfolding bump variant_label
  select_steps utcnow steps [] pick = pure (steps, none)
  select_steps utcnow steps (v ∷ vs) (some round_robin) = do
    counter ← bump utcnow
    (let index = (counter_or_one counter - 1) % length (v ∷ vs) in
        chosen_variant index (nth_variant (v ∷ vs) index))
  select_steps utcnow steps (v ∷ vs) (some random) = do
    index ← draw (b.randrange (length (v ∷ vs)))
    chosen_variant index (nth_variant (v ∷ vs) index)
  select_steps utcnow steps (v ∷ vs) none = raise "RuntimeError"

  unfoldable pub execute : ℕ → ActionPlan → Act T ExecutionResult
  unfolding select_steps run_steps
  execute utcnow plan = do
    selected ← select_steps utcnow plan.steps plan.variants plan.pick_variant
    modify_ctx (set_label selected.1)
    run_steps plan.inter_step_delay 0 selected.0 []
