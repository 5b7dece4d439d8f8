-- ===== src/Tests/Wiring.antt =====
-- The supervisor, the watcher of an account and a login, at concrete histories.
use tg_conductor.Base.{
  map, ℕ, ◌*◌, String, ◌≡◌, refl, ◌⊎◌, Bool, true, false, none, some, List, [], ◌∷◌, ◌++◌, arith,
  All, filter,
}
use tg_conductor.Base.Result.{ok, err}
use tg_conductor.Accounts.Repo.{list_for_owner, Account, Accounts, online}
use tg_conductor.Workflows.UpdateMode.{account_needs_updates}
use tg_conductor.Api.Lifespan.Modes.{Modes, flip_hook}
use tg_conductor.Workflows.Repo.{Workflows}
use tg_conductor.Api.Lifespan.Modes.{compute_update_modes}
use tg_conductor.Api.Lifespan.Modes.Changes.{is_changed, warning, flip_hook-changed}
use tg_conductor.Runs.Cleanup.{StoredEvent, lives, run_ticks, run_ticks-lives}
use tg_conductor.Tests.Data.{four_workflows}
use tg_conductor.Accounts.Manager.{
  connects, fails, is_connected, reconnects, Turn, watch_connection,
}
use tg_conductor.Accounts.Manager.Backoff.{expected, watch_connection-expected}
use tg_conductor.Api.Lifespan.Supervisor.{crashed, completed, End, gave_up, supervise}
use tg_conductor.Api.Lifespan.Supervisor.Bursts.{all_crashed, supervise-ends}
use tg_conductor.TgCore.Login.{Raised, session_password_needed, Call, Script, interactive_login}
use tg_conductor.TgCore.Login.Flow.{
  is_disconnect, asks_password, IsSettled, interactive_login-IsSettled,
}

abbrev burst : List ℕ
burst = 100 ∷ 102 ∷ 106 ∷ 114 ∷ 130 ∷ 155 ∷ []

supervise-ends_example :
    (e : End) × ((supervise 60 5 (crashed 0 ∷ [] ++ all_crashed 60 5 burst ++ completed ∷ []) []).0
      ≡ some e)
supervise-ends_example =
    supervise-ends 60 5 (crashed 0 ∷ []) (completed ∷ []) 155 burst []
      (
        (omega arith, omega arith),
        (
          (omega arith, omega arith),
          (
            (omega arith, omega arith),
            (
              (omega arith, omega arith),
              ((omega arith, omega arith), ((omega arith, omega arith), tt)),
            ),
          ),
        ),
      )
      (omega arith)

supervised_run :
    supervise 60 5 (crashed 0 ∷ all_crashed 60 5 burst) []
    ≡ (some (gave_up 6), 2 ∷ 2 ∷ 4 ∷ 8 ∷ 16 ∷ 30 ∷ [])
unfolding supervise
supervised_run = refl

abbrev turns : List Turn
turns = reconnects (fails "a") ∷ reconnects (fails "b") ∷ reconnects connects ∷ is_connected ∷ []

abbrev no_rows : Accounts
no_rows = record { rows = []; next_id = 1 }

watch_connection-expected_example :
    (watch_connection 1 0 1 300 7 turns 1 no_rows).0 ≡ expected 1 300 turns 0
watch_connection-expected_example =
    watch_connection-expected 1 300 1 0 7 turns no_rows (omega arith)

abbrev script : Script
script = record {
  connect = ok tt;
  send_code = ok tt;
  get_code = ok tt;
  sign_in = err (session_password_needed "2FA");
  get_password = ok tt;
  check_password = ok tt;
  export_session = ok "session";
}

interactive_login-IsSettled_example :
    ((e : Raised) × (script.connect ≡ err e)
      × (interactive_login script ≡ (Call.connect ∷ [], err e)))
    ⊎ ((calls : List Call) × ((interactive_login script).0
          ≡ Call.connect ∷ calls ++ Call.disconnect ∷ [])
        × All (λ c. is_disconnect c ≡ false) calls
        × ((((m : String) × (script.sign_in ≡ err (session_password_needed m))) → ⊥)
            → All (λ c. asks_password c ≡ false) calls)
        × IsSettled (interactive_login script).1)
interactive_login-IsSettled_example = interactive_login-IsSettled script

abbrev day : ℕ
day = 86400000000

abbrev stored : List StoredEvent
stored =
    record { id = 1; run_id = 1; ts = 0 } ∷ record { id = 2; run_id = 1; ts = 3 * 86400000000 } ∷ []

abbrev passes : List (ℕ × Bool)
passes = (0, true) ∷ (86400000000, false) ∷ []

run_ticks-lives_example :
    run_ticks (some 2) (passes ++ (4 * day, true) ∷ []) stored
    ≡ filter (λ r. lives 2 (4 * day) r) stored
run_ticks-lives_example =
    run_ticks-lives 2 (some 2) (4 * day) passes stored refl (omega arith)
      (omega arith, (omega arith, tt))

purged_run :
    run_ticks (some 2) (passes ++ (4 * day, true) ∷ []) stored
    ≡ (record { id = 2; run_id = 1; ts = 3 * 86400000000 } ∷ [])
unfolding run_ticks
purged_run = refl

abbrev member : Account
member = record {
  id = 5;
  owner_id = 1;
  label = "main";
  api_id = 1;
  api_hash = "h";
  session_string_enc = none;
  proxy = none;
  status = online;
  floodwait_until = none;
  last_error = none;
  created_at = 0;
  updated_at = 0;
}

abbrev members : Accounts
members = record { rows = member ∷ []; next_id = 6 }

abbrev listening : Modes
listening = (5, true) ∷ []

abbrev none_yet : Workflows
none_yet = record { rows = []; next_id = 1 }

flip_hook-changed_example :
    flip_hook 1 four_workflows (compute_update_modes 1 none_yet members) members
    ≡ map (warning 1 none_yet four_workflows) (
        filter
          (is_changed 1 none_yet four_workflows (list_for_owner 1 false members))
          (list_for_owner 1 false members))
flip_hook-changed_example = flip_hook-changed 1 none_yet four_workflows members members

flipped_run :
    flip_hook 1 four_workflows [] members
    ≡ (record { account_id = 5; label = "main"; to_receiving = true } ∷ [])
unfolding flip_hook account_needs_updates
flipped_run = refl
