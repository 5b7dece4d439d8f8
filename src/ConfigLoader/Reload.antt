-- ===== src/ConfigLoader/Reload.antt =====
-- tg_conductor/config_loader/reload.py: `_execute`, from what was loaded to the table.
pub mod First
use tg_conductor.Base.{
  ℕ, ◌+◌, String, Option, none, some, List, [], ◌∷◌, ◌++◌, str_eq, if◌then◌else◌,
}
use tg_conductor.Base.Result.{Result, ok, err}
use tg_conductor.Scheduler.Models.{Jobs}
use tg_conductor.Workflows.Schema.{Workflow}
use tg_conductor.Workflows.Repo.{Workflows, SourceMismatch}
use tg_conductor.Accounts.Repo.{Accounts}
use tg_conductor.ConfigLoader.Parser.{FileError, file_error, duplicate_name, LoadResult}
use tg_conductor.ConfigLoader.Sync.{SyncReport, sync_to_db}

pub record ReloadResult : Type 0 where
  pub sync : SyncReport
  pub parse_errors : List FileError

-- `seen_names.get`
abbrev pub path_of : String → List (String × String) → Option String
path_of name [] = none
path_of name ((n, path) ∷ seen) =
    let rest = path_of name seen in if str_eq n name then some path else rest

pub record Deduped : Type 0 where
  pub workflows : List Workflow
  pub errors : List FileError

abbrev pub add_workflow : Workflow → Deduped → Deduped
add_workflow wf d = record d { workflows = wf ∷ d.workflows }

abbrev pub add_duplicate : String → String → String → Deduped → Deduped
add_duplicate path name first_path d = record d {
  errors = file_error path "name" (duplicate_name name first_path) ∷ d.errors;
}

unfoldable pub dedupe : List (String × Workflow) → List (String × String) → Deduped
dedupe [] seen = record { workflows = []; errors = [] }
dedupe ((path, wf) ∷ loaded) seen = elim (path_of wf.name seen) [
  | some first_path ↦ add_duplicate path wf.name first_path (dedupe loaded seen)
  | none ↦ add_workflow wf (dedupe loaded ((wf.name, path) ∷ seen))
]

module _ (owner_id utcnow : ℕ) (accounts : Accounts)
    (on_deleted : Option (List ℕ → Jobs → Jobs)) where
  -- an exception of the sync leaves the transaction without effect
  unfoldable pub execute_reload :
      LoadResult → Workflows × Jobs → Result SourceMismatch ReloadResult × Workflows × Jobs
  unfolding dedupe sync_to_db
  execute_reload load state =
      let d = dedupe load.workflows [] in
      elim (sync_to_db owner_id utcnow accounts d.workflows on_deleted state) [
        | err e ↦ (err e, state.0, state.1)
        | ok (report, workflows, jobs) ↦
            (ok (record { sync = report; parse_errors = load.errors ++ d.errors }), workflows, jobs)
      ]
