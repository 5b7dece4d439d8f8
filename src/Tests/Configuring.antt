-- ===== src/Tests/Configuring.antt =====
-- Accounts, the configuration files and their synchronisation, at two files and three rows.
use tg_conductor.Base.{
  ℕ, String, ◌≡◌, refl, ◌↔◌, ◌⊎◌, true, Option, none, some, List, [], ◌∷◌, ◌++◌, map, arith, str_eq,
  if◌then◌else◌,
}
use tg_conductor.Base.Result.{Result, ok, err}
use tg_conductor.Db.Crypto.{Bytes, resolve_key, encrypt}
use tg_conductor.Accounts.Repo.{
  Account, Accounts, Credentials, floodwait, get_by_label, decrypt_session, upsert_session,
  encrypt_session, upsert_found, new_account, mark_disabled, check_usable, get_by_id,
  validate_account_ref,
}
use tg_conductor.Accounts.Repo.Session.{StatusCall, after_statuses, decrypt_session-upsert_session}
use tg_conductor.Accounts.Repo.Keyed.{Step, Reach, IsKeyed, accounts-IsKeyed}
use tg_conductor.Scheduler.Models.{Jobs}
use tg_conductor.Workflows.Schema.{Workflow, cron}
use tg_conductor.Workflows.Repo.{
  yaml, api, Workflows, SourceMismatch, new_row, get_by_name, upsert_existing, upsert_by_source,
  list_for_owner,
}
use tg_conductor.Workflows.Repo.Upsert
use tg_conductor.ConfigLoader.Parser.{
  DirEntry, Reader, escaping, LoadResult, no_files, mapping, sequence, load_workflows_from_dir,
}
use tg_conductor.ConfigLoader.Parser.Isolation.{alone, load_workflows_from_dir-isolates}
use tg_conductor.ConfigLoader.Sync.{
  sync_to_db, cancel_jobs_hook, validate_all, note, upsert_all, delete_all, error_names, row_name,
}
use tg_conductor.ConfigLoader.Sync.Validation.{declares, defined}
use tg_conductor.ConfigLoader.Sync.Errors.{IsTaken, IsErr, sync_to_db-fails_iff}
use tg_conductor.ConfigLoader.Reload.{ReloadResult, execute_reload, dedupe}
use tg_conductor.ConfigLoader.Reload.First.{Failed, Reloaded, execute_reload_lem}
use tg_conductor.Tests.Data.{plan, no_jobs}
use tg_conductor.Tests.Codec.{codec, codec-IsCodec, utf8_encode, b64encode, tag}

abbrev nonce : Bytes
nonce = 1 ∷ 2 ∷ 3 ∷ 4 ∷ 5 ∷ 6 ∷ 7 ∷ 8 ∷ 9 ∷ 10 ∷ 11 ∷ 12 ∷ []

abbrev credentials : Credentials
credentials = record {
  owner_id = 1;
  label = "main";
  api_id = 7;
  api_hash = "hash";
  session_string = "secret";
  proxy = none;
}

abbrev no_accounts : Accounts
no_accounts = record { rows = []; next_id = 1 }

abbrev flood : StatusCall
flood = record {
  account_id = 1;
  owner_id = 1;
  utcnow = 20;
  status = floodwait;
  last_error = some "wait";
  floodwait_until = some 90;
}

decrypt_session-upsert_session_example :
    (r : Account × Accounts) × (upsert_session codec [] nonce 10 credentials no_accounts ≡ ok r)
    × (a : Account) × (get_by_label 1 "main" (after_statuses (flood ∷ []) r.1) ≡ some a)
    × (decrypt_session codec [] a ≡ ok (some "secret"))
decrypt_session-upsert_session_example =
    decrypt_session-upsert_session codec [] codec-IsCodec nonce 10 credentials no_accounts
      (flood ∷ []) refl

abbrev logged_in : Accounts
logged_in = record {
  rows = new_account 1 10 credentials (b64encode (nonce ++ utf8_encode "secret" ++ tag)) ∷ [];
  next_id = 2;
}

log_in-Step : Step codec [] no_accounts logged_in
unfolding upsert_session encrypt_session encrypt resolve_key get_by_label upsert_found
log_in-Step = Step.log_in nonce 10 credentials refl

log_out-Step : Step codec [] logged_in (mark_disabled 1 1 30 logged_in).1
log_out-Step = Step.log_out 1 1 30 refl

no_accounts-IsKeyed : IsKeyed no_accounts
no_accounts-IsKeyed = record { ids = tt; below = tt; others = tt }

accounts-IsKeyed_example : IsKeyed (mark_disabled 1 1 30 logged_in).1
accounts-IsKeyed_example =
    accounts-IsKeyed codec [] (Reach.next (Reach.next Reach.here log_in-Step) log_out-Step)
      no_accounts-IsKeyed

abbrev file_workflow : String → ℕ → Workflow
file_workflow name account_id = record {
  name = name;
  account_id = account_id;
  enabled = true;
  trigger = cron "* * * * *";
  action_plan = plan;
}

-- "old" of the files, and "mine" of the API
abbrev table : Workflows
table = record {
  rows =
      new_row 1 0 1 yaml (file_workflow "old" 1) ∷ new_row 2 0 1 api (file_workflow "mine" 1) ∷ [];
  next_id = 3;
}

table-IsKeyed : Upsert.IsKeyed table
table-IsKeyed = record {
  ids = ((refl, tt), (tt, tt));
  below = (omega arith, (omega arith, tt));
  others = ((refl, tt), (tt, tt));
}

abbrev reader : Reader
reader = record {
  read_text = λ path. ok path;
  safe_load = λ text. if str_eq text "b.yaml" then ok sequence else ok (mapping []);
  model_validate = λ items. ok (file_workflow "new" 1);
}

abbrev entries : List DirEntry
entries =
    record { path = "a.yaml"; is_file = true; has_yaml_suffix = true }
    ∷ record { path = "b.yaml"; is_file = true; has_yaml_suffix = true }
    ∷ record { path = "c.yaml"; is_file = true; has_yaml_suffix = true }
    ∷ []

load_workflows_from_dir-isolates_example :
    load_workflows_from_dir reader (some entries) ≡ alone reader entries
load_workflows_from_dir-isolates_example = load_workflows_from_dir-isolates reader entries

-- a reader that meets a file that is not UTF-8, after one that loads
abbrev unreadable : Reader
unreadable = record reader {
  read_text = λ path. if str_eq path "b.yaml" then err (escaping "UnicodeDecodeError") else ok path;
}

aborted_run : load_workflows_from_dir unreadable (some entries) ≡ err "UnicodeDecodeError"
unfolding load_workflows_from_dir
aborted_run = refl

abbrev or_nothing : Result String LoadResult → LoadResult
or_nothing (ok r) = r
or_nothing (err e) = no_files

abbrev loaded : LoadResult
loaded = or_nothing (load_workflows_from_dir reader (some entries))

abbrev hook : Option (List ℕ → Jobs → Jobs)
hook = some (cancel_jobs_hook 1 50)

execute_reload_lem_example :
    Failed 1 50 logged_in hook loaded table no_jobs
    ⊎ Reloaded 1 50 logged_in hook loaded table no_jobs
execute_reload_lem_example =
    execute_reload_lem 1 50 logged_in hook loaded table no_jobs table-IsKeyed

sync_to_db-fails_iff_example :
    IsErr (sync_to_db 1 50 logged_in (file_workflow "mine" 1 ∷ []) hook (table, no_jobs)) ↔ (
      (n : String) × (wf : Workflow) × (declares 1 logged_in (file_workflow "mine" 1 ∷ []) n
        ≡ defined wf)
      × IsTaken 1 n table)
sync_to_db-fails_iff_example =
    sync_to_db-fails_iff 1 50 logged_in (file_workflow "mine" 1 ∷ []) hook table no_jobs
      table-IsKeyed

-- "old" is gone, "mine" is untouched, and "new" is added once though two files define it.
names_after : Result SourceMismatch ReloadResult × Workflows × Jobs → List String
names_after (_, w, _) = map row_name w.rows

reload_run :
    names_after (execute_reload 1 50 logged_in hook loaded (table, no_jobs)) ≡ "mine" ∷ "new" ∷ []
unfolding names_after execute_reload load_workflows_from_dir dedupe sync_to_db validate_all note
    upsert_all upsert_by_source upsert_existing get_by_name delete_all list_for_owner
    validate_account_ref check_usable get_by_id error_names
reload_run = refl
