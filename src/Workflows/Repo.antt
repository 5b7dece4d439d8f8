-- ===== src/Workflows/Repo.antt =====
-- tg_conductor/workflows/models.py and repo.py: the rows of `workflows` and the statements on them.
-- A statement maps the rows; rows stand in the order of their ids, which is the order of insertion.
pub mod Upsert
use tg_conductor.Base.{
  ℕ, ◌+◌, String, Bool, true, false, not, ◌&&◌, ◌||◌, Option, none, some, List, [], ◌∷◌, ◌++◌,
  str_eq, ltb, ◌==◌, if◌then◌else◌, length, filter, update, sort_by, first,
}
use tg_conductor.Base.Result.{Result, ok, err}
use tg_conductor.Workflows.Schema.{Trigger, ActionPlan, Workflow}

pub data WorkflowSource : Type 0 where
  yaml api : WorkflowSource

abbrev pub source_eq : WorkflowSource → WorkflowSource → Bool
source_eq yaml yaml = true
source_eq api api = true
source_eq _ _ = false

pub record WorkflowRow : Type 0 where
  pub id : ℕ
  pub owner_id : ℕ
  pub account_id : ℕ
  pub name : String
  pub enabled : Bool
  pub source : WorkflowSource
  pub trigger : Trigger
  pub action_plan : ActionPlan
  pub rr_counter : ℕ
  pub created_at : ℕ
  pub updated_at : ℕ

pub record Workflows : Type 0 where
  pub rows : List WorkflowRow
  pub next_id : ℕ

abbrev pub from_source : Option WorkflowSource → WorkflowRow → Bool
from_source none r = true
from_source (some s) r = source_eq r.source s

unfoldable pub list_for_owner : ℕ → Bool → Option WorkflowSource → Workflows → List WorkflowRow
list_for_owner owner_id enabled_only source w =
    sort_by (λ (r : WorkflowRow). r.id)
      (filter
        (λ r. r.owner_id == owner_id && (not enabled_only || r.enabled) && from_source source r)
        w.rows)

unfoldable pub get_by_id : ℕ → ℕ → Workflows → Option WorkflowRow
get_by_id workflow_id owner_id w =
    first (filter (λ r. r.id == workflow_id && r.owner_id == owner_id) w.rows)

abbrev pub has_name : ℕ → String → WorkflowRow → Bool
has_name owner_id name r = r.owner_id == owner_id && str_eq r.name name

unfoldable pub get_by_name : ℕ → String → Workflows → Option WorkflowRow
get_by_name owner_id name w = first (filter (has_name owner_id name) w.rows)

abbrev pub new_row : ℕ → ℕ → ℕ → WorkflowSource → Workflow → WorkflowRow
new_row id utcnow owner_id source wf = record {
  id = id;
  owner_id = owner_id;
  account_id = wf.account_id;
  name = wf.name;
  enabled = wf.enabled;
  source = source;
  trigger = wf.trigger;
  action_plan = wf.action_plan;
  rr_counter = 0;
  created_at = utcnow;
  updated_at = utcnow;
}

abbrev pub assign_row : ℕ → Workflow → WorkflowRow → WorkflowRow
assign_row utcnow wf r = record r {
  account_id = wf.account_id;
  enabled = wf.enabled;
  trigger = wf.trigger;
  action_plan = wf.action_plan;
  updated_at = utcnow;
}

pub data SourceMismatch : Type 0 where
  wrong_source : String → SourceMismatch

-- past the lookup by name
unfoldable pub upsert_existing :
    Option WorkflowRow
    → ℕ
    → ℕ
    → WorkflowSource
    → Workflow
    → Workflows
    → Result SourceMismatch Workflows
upsert_existing none utcnow owner_id source wf w = ok (record w {
  rows = w.rows ++ new_row w.next_id utcnow owner_id source wf ∷ [];
  next_id = w.next_id + 1;
})
upsert_existing (some existing) utcnow owner_id source wf w =
    if source_eq existing.source source
    then ok (record w { rows = update (λ r. r.id == existing.id) (assign_row utcnow wf) w.rows })
    else err (wrong_source wf.name)

unfoldable pub upsert_by_source :
    ℕ → ℕ → WorkflowSource → Workflow → Workflows → Result SourceMismatch Workflows
unfolding upsert_existing get_by_name
upsert_by_source utcnow owner_id source wf w =
    upsert_existing (get_by_name owner_id wf.name w) utcnow owner_id source wf w

unfoldable pub set_enabled : ℕ → ℕ → Bool → ℕ → Workflows → Bool × Workflows
set_enabled workflow_id owner_id enabled utcnow w =
    let hits = λ (r : WorkflowRow). r.id == workflow_id && r.owner_id == owner_id in
    (
      ltb 0 (length (filter hits w.rows)),
      record w {
        rows = update hits (λ r. record r { enabled = enabled; updated_at = utcnow }) w.rows;
      },
    )

abbrev pub counter_of : Option WorkflowRow → Option ℕ
counter_of none = none
counter_of (some r) = some (r.rr_counter + 1)

-- `UPDATE ... SET rr_counter = rr_counter + 1 ... RETURNING rr_counter`
unfoldable pub bump_rr_counter : ℕ → ℕ → ℕ → Workflows → Option ℕ × Workflows
bump_rr_counter workflow_id owner_id utcnow w =
    let hits = λ (r : WorkflowRow). r.id == workflow_id && r.owner_id == owner_id in
    (
      counter_of (first (filter hits w.rows)),
      record w {
        rows =
            update hits (λ r. record r { rr_counter = r.rr_counter + 1; updated_at = utcnow })
              w.rows;
      },
    )

unfoldable pub delete_by_id : ℕ → ℕ → Workflows → Bool × Workflows
delete_by_id workflow_id owner_id w =
    let hits = λ (r : WorkflowRow). r.id == workflow_id && r.owner_id == owner_id in
    (ltb 0 (length (filter hits w.rows)), record w { rows = filter (λ r. not (hits r)) w.rows })
