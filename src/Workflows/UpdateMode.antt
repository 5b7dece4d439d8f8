-- ===== src/Workflows/UpdateMode.antt =====
-- tg_conductor/workflows/update_mode.py: which accounts subscribe to Telegram updates.
use tg_conductor.Base.{
  ℕ, ◌≡◌, refl, ap, ◌∙◌, Bool, true, false, not, ◌&&◌, ◌||◌, none, List, [], ◌∷◌, arith, ◌==◌,
  if◌then◌else◌, any, All, filter, insert_by, sort_by,
}
use tg_conductor.Base.Result.{ok}
use tg_conductor.Workflows.Schema.{Trigger, message_match, Action, wait_for, ActionStep, ActionPlan}
use tg_conductor.Workflows.Schema.Plan.{
  is_empty, variant_steps, all_steps, validate_plan, validate_plan_iff, IsValidPlan,
}
use tg_conductor.Workflows.Repo.{WorkflowRow, Workflows, list_for_owner}

abbrev pub is_wait_for : Action → Bool
is_wait_for (wait_for s) = true
is_wait_for _ = false

abbrev pub is_message_match : Trigger → Bool
is_message_match (message_match t) = true
is_message_match _ = false

unfoldable pub plan_has_wait_for : ActionPlan → Bool
unfolding variant_steps
plan_has_wait_for plan =
    any (λ (s : ActionStep). is_wait_for s.action)
      (if is_empty plan.steps then variant_steps plan.variants else plan.steps)

unfoldable pub row_needs_updates : WorkflowRow → Bool
unfolding plan_has_wait_for
row_needs_updates row =
    if is_message_match row.trigger then true else plan_has_wait_for row.action_plan

unfoldable pub account_needs_updates : ℕ → ℕ → Workflows → Bool
unfolding list_for_owner row_needs_updates
account_needs_updates owner_id account_id w =
    any (λ (row : WorkflowRow). row.account_id == account_id && row_needs_updates row)
      (list_for_owner owner_id true none w)

any-insert_by :
    (p : WorkflowRow → Bool) (key : WorkflowRow → ℕ) (x : WorkflowRow) (xs : List WorkflowRow)
    → any p (insert_by key x xs) ≡ (p x || any p xs)
any-insert_by p key x [] = refl
any-insert_by p key x (y ∷ ys) = ground (arith, any-insert_by p key x ys)

any-sort_by :
    (p : WorkflowRow → Bool) (key : WorkflowRow → ℕ) (xs : List WorkflowRow)
    → any p (sort_by key xs) ≡ any p xs
any-sort_by p key [] = refl
any-sort_by p key (x ∷ xs) =
    any-insert_by p key x (sort_by key xs) ∙ ap (λ b. p x || b) (any-sort_by p key xs)

any-filter :
    (p q : WorkflowRow → Bool) (xs : List WorkflowRow)
    → any p (filter q xs) ≡ any (λ r. q r && p r) xs
any-filter p q [] = refl
any-filter p q (x ∷ xs) = ground (arith, any-filter p q xs)

-- What a row of the table contributes: the steps that the executor may run, whichever way the plan
-- gives them.
abbrev pub receives : ℕ → ℕ → WorkflowRow → Bool
receives owner_id account_id r =
    r.owner_id == owner_id
    && r.enabled
    && r.account_id == account_id
    && (is_message_match r.trigger
        || any (λ (s : ActionStep). is_wait_for s.action) (all_steps r.action_plan))

abbrev PlanAccepted : WorkflowRow → Type 0
PlanAccepted r = validate_plan r.action_plan ≡ ok tt

same_steps :
    (plan : ActionPlan)
    → IsValidPlan plan
    → (if is_empty plan.steps then variant_steps plan.variants else plan.steps) ≡ all_steps plan
unfolding all_steps
same_steps plan v = ground (arith, v.one_kind)

one_row :
    (owner_id account_id : ℕ) (r : WorkflowRow)
    → IsValidPlan r.action_plan
    → ((r.owner_id == owner_id && (not true || r.enabled) && true)
        && (r.account_id == account_id && row_needs_updates r))
      ≡ receives owner_id account_id r
unfolding row_needs_updates
one_row owner_id account_id r v = rw (same_steps r.action_plan v) (ground arith)

any_rows :
    (owner_id account_id : ℕ) (rows : List WorkflowRow)
    → All PlanAccepted rows
    → any
        (λ (r : WorkflowRow).
          (r.owner_id == owner_id && (not true || r.enabled) && true)
          && (r.account_id == account_id && row_needs_updates r))
        rows
      ≡ any (receives owner_id account_id) rows
any_rows owner_id account_id [] h = refl
any_rows owner_id account_id (r ∷ rows) h =
    rw (one_row owner_id account_id r ((validate_plan_iff r.action_plan).0 h.0))
      (ap (λ b. receives owner_id account_id r || b) (any_rows owner_id account_id rows h.1))

-- Over accepted plans an account receives updates exactly when one of the owner's enabled workflows on
-- it is triggered by messages or has a `wait_for` among all the steps that it may run.
pub account_needs_updates_iff :
    (owner_id account_id : ℕ) (w : Workflows)
    → All PlanAccepted w.rows
    → account_needs_updates owner_id account_id w ≡ any (receives owner_id account_id) w.rows
unfolding account_needs_updates
account_needs_updates_iff owner_id account_id w h =
    any-sort_by (λ (r : WorkflowRow). r.account_id == account_id && row_needs_updates r)
      (λ (r : WorkflowRow). r.id)
      (filter (λ (r : WorkflowRow). r.owner_id == owner_id && (not true || r.enabled) && true)
        w.rows)
    ∙ any-filter (λ (r : WorkflowRow). r.account_id == account_id && row_needs_updates r)
        (λ (r : WorkflowRow). r.owner_id == owner_id && (not true || r.enabled) && true) w.rows
    ∙ any_rows owner_id account_id w.rows h
