-- ===== src/ConfigLoader/Sync.antt =====
-- tg_conductor/config_loader/sync.py: the rows of the files follow the files. A dict by name is a
-- list with one entry for each name, in the order of first insertion.
pub mod Dict
pub mod Validation
pub mod Upserts
pub mod Deletes
pub mod Refines
pub mod Errors
use tg_conductor.Base.{
  ℕ, ◌+◌, String, Bool, true, false, not, ◌||◌, Option, none, some, List, [], ◌∷◌, ◌++◌, map,
  str_eq, if◌then◌else◌, length, elem, filter, update,
}
use tg_conductor.Base.Result.{Result, ok, err, ◌>>=◌}
use tg_conductor.Scheduler.Models.{Jobs}
use tg_conductor.Scheduler.Repo.{cancel_pending_for_workflows}
use tg_conductor.Workflows.Schema.{Workflow}
use tg_conductor.Workflows.Repo.{
  yaml, WorkflowRow, Workflows, SourceMismatch, list_for_owner, upsert_by_source,
}
use tg_conductor.Accounts.Repo.{Accounts, WorkflowValidationError, validate_account_ref}

pub record SyncReport : Type 0 where
  pub created : List String
  pub updated : List String
  pub deleted : List String
  pub deleted_ids : List ℕ
  pub validation_errors : List (String × WorkflowValidationError)

abbrev pub change_count : SyncReport → ℕ
change_count r = length r.created + length r.updated + length r.deleted

abbrev pub has_text : String → List String → Bool
has_text s [] = false
has_text s (t ∷ ts) = str_eq t s || has_text s ts

module _ {ℓ} {A : Type ℓ} (name : A → String) where
  -- `d[x.name] = x`
  abbrev pub put_by : A → List A → List A
  put_by x d =
      if has_text (name x) (map name d)
      then update (λ y. str_eq (name y) (name x)) (λ _. x) d
      else d ++ x ∷ []

  -- `{x.name: x for x in xs}` over `d`
  abbrev pub dict_by : List A → List A → List A
  dict_by [] d = d
  dict_by (x ∷ xs) d = dict_by xs (put_by x d)

abbrev pub workflow_name : Workflow → String
workflow_name wf = wf.name

abbrev pub row_name : WorkflowRow → String
row_name r = r.name

-- the hook that scheduler/hooks.py builds
abbrev pub cancel_jobs_hook : ℕ → ℕ → List ℕ → Jobs → Jobs
cancel_jobs_hook owner_id utcnow workflow_ids jobs =
    (cancel_pending_for_workflows workflow_ids owner_id utcnow jobs).1

abbrev pub run_hook : Option (List ℕ → Jobs → Jobs) → List ℕ → Jobs → Jobs
run_hook none ids jobs = jobs
run_hook (some hook) [] jobs = jobs
run_hook (some hook) (i ∷ ids) jobs = hook (i ∷ ids) jobs

-- what the validation has found so far
pub record Validated : Type 0 where
  pub valid_by_name : List Workflow
  pub errors : List (String × WorkflowValidationError)

abbrev pub none_validated : Validated
none_validated = record { valid_by_name = []; errors = [] }

unfoldable pub note : Workflow → Result WorkflowValidationError (Unit {0}) → Validated → Validated
note wf (ok _) v = record v { valid_by_name = put_by workflow_name wf v.valid_by_name }
note wf (err e) v = record v { errors = v.errors ++ (wf.name, e) ∷ [] }

unfoldable pub validate_all : ℕ → Accounts → List Workflow → Validated → Validated
unfolding note
validate_all owner_id accounts [] v = v
validate_all owner_id accounts (wf ∷ wfs) v =
    validate_all owner_id accounts wfs
      (note wf (validate_account_ref owner_id wf.account_id accounts) v)

-- the report so far, and the table
pub record Upserted : Type 0 where
  pub created : List String
  pub updated : List String
  pub workflows : Workflows

abbrev pub reported : Bool → String → Upserted → Upserted
reported true name u = record u { created = name ∷ u.created }
reported false name u = record u { updated = name ∷ u.updated }

unfoldable pub error_names : List (String × WorkflowValidationError) → List String
error_names [] = []
error_names ((name, e) ∷ es) = name ∷ error_names es

abbrev pub row_id : WorkflowRow → ℕ
row_id r = r.id

-- `session.delete` of each row
unfoldable pub delete_all : List WorkflowRow → Workflows → Workflows
delete_all rows w = record w { rows = filter (λ r. not (elem r.id (map row_id rows))) w.rows }

-- the rows of `existing` whose names are not kept
abbrev pub gone_of : List String → List WorkflowRow → List WorkflowRow
gone_of keep_names existing = filter (λ r. not (has_text (row_name r) keep_names)) existing

module _ (owner_id utcnow : ℕ) where
  unfoldable pub upsert_all :
      List String → List Workflow → Workflows → Result SourceMismatch Upserted
  upsert_all existing [] w = ok (record { created = []; updated = []; workflows = w })
  upsert_all existing (wf ∷ wfs) w = do
    let w' = (← upsert_by_source utcnow owner_id yaml wf w)
    let u = (← upsert_all existing wfs w')
    ok (reported (not (has_text wf.name existing)) wf.name u)

  unfoldable pub sync_to_db :
      Accounts
      → List Workflow
      → Option (List ℕ → Jobs → Jobs)
      → Workflows × Jobs
      → Result SourceMismatch (SyncReport × Workflows × Jobs)
  unfolding validate_all upsert_all error_names delete_all list_for_owner
  sync_to_db accounts desired on_deleted (w, jobs) =
      let v = validate_all owner_id accounts desired none_validated in
      let existing = dict_by row_name (list_for_owner owner_id false (some yaml) w) [] in
      let gone = gone_of (map workflow_name v.valid_by_name ++ error_names v.errors) existing in
      upsert_all (map row_name existing) v.valid_by_name w >>= λ u. ok (
        record {
          created = u.created;
          updated = u.updated;
          deleted = map row_name gone;
          deleted_ids = map row_id gone;
          validation_errors = v.errors;
        },
        delete_all gone u.workflows,
        run_hook on_deleted (map row_id gone) jobs,
      )
