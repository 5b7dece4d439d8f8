-- ===== src/Workflows/Schema/Plan.antt =====
-- `ActionPlan._validate`, `_resolved_timeout`, `_resolve_delay` and `_delay_upper_bound` of
-- tg_conductor/workflows/schema.py.
use tg_conductor.Base.{
  ℕ, ◌+◌, ◌≤◌, ◌≡◌, refl, ◌↔◌, Bool, true, false, not, ◌&&◌, Option, none, some, List, [], ◌∷◌,
  ◌++◌, map, arith, ltb, if◌then◌else◌, is_some, All,
}
use tg_conductor.Base.Result.{Result, ok, ◌>>◌, raise_if}
use tg_conductor.Workflows.Schema.{
  seconds, Delay, fixed, uniform, Action, send_text, send_dice, forward, click_button, wait_for,
  ai_reply, ActionStep, Variant, ActionPlan,
}

unfoldable pub step_default_timeout : Action → ℕ
step_default_timeout (send_text _) = seconds 30
step_default_timeout (send_dice _) = seconds 30
step_default_timeout (forward _) = seconds 30
step_default_timeout (click_button _) = seconds 30
step_default_timeout (ai_reply _) = seconds 60
step_default_timeout (wait_for _) = seconds 600

abbrev or_default : Option ℕ → ℕ → ℕ
or_default (some t) d = t
or_default none d = d

unfoldable pub resolved_timeout : ActionStep → ℕ
unfolding step_default_timeout
resolved_timeout step = or_default step.timeout (step_default_timeout step.action)

-- `draw` is `rng.uniform`.
unfoldable pub resolve_delay : (ℕ → ℕ → ℕ) → Option Delay → ℕ
resolve_delay draw none = 0
resolve_delay draw (some (fixed d)) = d
resolve_delay draw (some (uniform r)) = draw r.min r.max

unfoldable pub delay_upper_bound : Option Delay → ℕ
delay_upper_bound none = 0
delay_upper_bound (some (fixed d)) = d
delay_upper_bound (some (uniform r)) = r.max

-- `[s for v in variants for s in v.steps]`
unfoldable pub variant_steps : List Variant → List ActionStep
variant_steps [] = []
variant_steps (v ∷ vs) = v.steps ++ variant_steps vs

abbrev pub is_empty {ℓ} : {A : Type ℓ} → List A → Bool
is_empty [] = true
is_empty (x ∷ xs) = false

unfoldable pub all_steps : ActionPlan → List ActionStep
unfolding variant_steps
all_steps plan = if is_empty plan.variants then plan.steps else variant_steps plan.variants

unfoldable pub step_budget : ActionStep → ℕ
unfolding resolved_timeout delay_upper_bound
step_budget s = resolved_timeout s + delay_upper_bound s.delay_before

-- `max` of a list, 0 if it is empty
unfoldable pub max_of : List ℕ → ℕ
max_of [] = 0
max_of (x ∷ xs) = let m = max_of xs in if ltb m x then x else m

pub data PlanError : Type 0 where
  steps_and_variants no_steps pick_variant_missing pick_variant_unused job_timeout_too_short :
      PlanError

-- the last check, made only where `job_timeout` is given
unfoldable pub check_job_timeout : Option ℕ → List ℕ → Result PlanError (Unit {0})
unfolding max_of
check_job_timeout none budgets = ok tt
check_job_timeout (some t) budgets =
    raise_if (not (is_empty budgets) && ltb t (max_of budgets)) job_timeout_too_short

unfoldable pub validate_plan : ActionPlan → Result PlanError (Unit {0})
unfolding check_job_timeout all_steps step_budget
validate_plan plan =
    let has_steps = not (is_empty plan.steps) in
    let has_variants = not (is_empty plan.variants) in
    do
      raise_if (has_steps && has_variants) steps_and_variants
      raise_if (not has_steps && not has_variants) no_steps
      raise_if (has_variants && not (is_some plan.pick_variant)) pick_variant_missing
      raise_if (has_steps && is_some plan.pick_variant) pick_variant_unused
      check_job_timeout plan.job_timeout (map step_budget (all_steps plan))

-- What the validator is meant to establish, clause by clause.
abbrev pub Covers : Option ℕ → List ActionStep → Type 0
Covers none steps = Unit
Covers (some t) steps = All (λ s. step_budget s ≤ t) steps

pub record IsValidPlan (plan : ActionPlan) : Type 0 where
  pub one_kind : is_empty plan.steps ≡ not (is_empty plan.variants)
  pub picks : is_some plan.pick_variant ≡ not (is_empty plan.variants)
  pub covered : Covers plan.job_timeout (all_steps plan)

max_of-le :
    (t : ℕ) (steps : List ActionStep)
    → max_of (map step_budget steps) ≤ t
    → All (λ s. step_budget s ≤ t) steps
unfolding max_of
max_of-le t [] h = tt
max_of-le t (s ∷ ss) h = ground (arith, max_of-le t ss)

max_of_least :
    (t : ℕ) (steps : List ActionStep)
    → All (λ s. step_budget s ≤ t) steps
    → max_of (map step_budget steps) ≤ t
unfolding max_of
max_of_least t [] h = omega arith
max_of_least t (s ∷ ss) h = ground (arith, max_of_least t ss)

check_sound :
    (o : Option ℕ) (steps : List ActionStep)
    → check_job_timeout o (map step_budget steps) ≡ ok tt
    → Covers o steps
unfolding check_job_timeout
check_sound none steps h = tt
check_sound (some t) [] h = tt
check_sound (some t) (s ∷ ss) h = max_of-le t (s ∷ ss) (ground arith)

check_complete :
    (o : Option ℕ) (steps : List ActionStep)
    → Covers o steps
    → check_job_timeout o (map step_budget steps) ≡ ok tt
unfolding check_job_timeout
check_complete none steps h = refl
check_complete (some t) [] h = refl
check_complete (some t) (s ∷ ss) h = ground (arith, max_of_least t (s ∷ ss) h)

-- The validator accepts a plan exactly when it has steps or variants and not both, names a pick
-- exactly with variants, and its job timeout, if given, covers the budget of every step it may run.
pub validate_plan_iff : (plan : ActionPlan) → (validate_plan plan ≡ ok tt) ↔ IsValidPlan plan
unfolding validate_plan
validate_plan_iff plan = (
  λ h. record {
    one_kind = ground arith;
    picks = ground arith;
    covered = check_sound plan.job_timeout (all_steps plan) (ground arith);
  },
  λ v. ground (arith, check_complete plan.job_timeout (all_steps plan) v.covered),
)
