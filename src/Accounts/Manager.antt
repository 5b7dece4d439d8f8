-- ===== src/Accounts/Manager.antt =====
-- tg_conductor/accounts/manager.py: connecting the accounts and watching their connections. What a
-- client does, and the clock, are given; `_set_status` commits.
pub mod Backoff
use tg_conductor.Base.{ℕ, ◌*◌, min, String, Bool, true, false, Option, none, some, List, [], ◌∷◌}
use tg_conductor.Accounts.Repo.{
  AccountStatus, connecting, online, error, Account, Accounts, list_for_owner, update_status,
}

-- how `client.connect()` ends
pub data Connect : Type 0 where
  connects : Connect
  fails : String → Connect

-- what a turn of the watcher finds after its sleep: the manager stops, is told to, or has no client of
-- the account any more; the client is connected; or it connects again, or not
pub data Turn : Type 0 where
  stops is_connected : Turn
  reconnects : Connect → Turn

abbrev pub is_up : Connect → Bool
is_up connects = true
is_up (fails e) = false

abbrev pub next_backoff : ℕ → ℕ → ℕ → Connect → ℕ
next_backoff initial_reconnect max_reconnect backoff connects = initial_reconnect
next_backoff initial_reconnect max_reconnect backoff (fails e) = min (backoff * 2) max_reconnect

module _ (owner_id utcnow : ℕ) where
  unfoldable pub set_status : ℕ → AccountStatus → Option String → Accounts → Accounts
  set_status account_id status last_error t =
      (update_status account_id owner_id utcnow status last_error none t).1

  -- from `connecting` to what the connection came to
  unfoldable pub connect_account : ℕ → Connect → Accounts → Accounts
  unfolding set_status
  connect_account account_id connects t =
      set_status account_id online none (set_status account_id connecting none t)
  connect_account account_id (fails e) t =
      set_status account_id error (some e) (set_status account_id connecting none t)

  -- the accounts that have a client, in order, and the table
  unfoldable pub start_each : (Account → Connect) → List Account → Accounts → List ℕ × Accounts
  unfolding connect_account
  start_each connect [] t = ([], t)
  start_each connect (a ∷ accounts) t =
      let rest = start_each connect accounts (connect_account a.id (connect a) t) in
      (a.id ∷ rest.0, rest.1)

  unfoldable pub start_all : (Account → Connect) → Accounts → List ℕ × Accounts
  unfolding start_each
  start_all connect t = start_each connect (list_for_owner owner_id false t) t

  module _ (initial_reconnect max_reconnect account_id : ℕ) where
    -- the sleeps, and the table after the turns
    unfoldable pub watch_connection : List Turn → ℕ → Accounts → List ℕ × Accounts
    unfolding connect_account
    watch_connection [] backoff t = ([], t)
    watch_connection (stops ∷ turns) backoff t = (backoff ∷ [], t)
    watch_connection (is_connected ∷ turns) backoff t =
        let rest = watch_connection turns initial_reconnect t in (backoff ∷ rest.0, rest.1)
    watch_connection (reconnects c ∷ turns) backoff t =
        let rest =
          watch_connection turns (next_backoff initial_reconnect max_reconnect backoff c)
            (connect_account account_id c t) in
        (backoff ∷ rest.0, rest.1)
