-- ===== src/Accounts/Repo.antt =====
-- tg_conductor/accounts/models.py and repo.py, and what workflows/validate.py asks of an account.
pub mod Session
pub mod Keyed
use tg_conductor.Base.{
  ℕ, ◌+◌, String, Bool, true, false, not, ◌&&◌, ◌||◌, Option, none, some, List, [], ◌∷◌, ◌++◌,
  str_eq, ◌==◌, if◌then◌else◌, filter, update, sort_by, first,
}
use tg_conductor.Base.Result.{Result, ok, err, ◌>>=◌}
use tg_conductor.Db.Crypto.{
  Bytes, Primitives, CryptoError, bad_base64, bad_utf8, or_raise, encrypt, decrypt,
}

pub data AccountStatus : Type 0 where
  offline connecting online error floodwait disabled : AccountStatus

abbrev pub is_disabled : AccountStatus → Bool
is_disabled disabled = true
is_disabled _ = false

pub record Account : Type 0 where
  pub id : ℕ
  pub owner_id : ℕ
  pub label : String
  pub api_id : ℕ
  pub api_hash : String
  pub session_string_enc : Option String
  pub proxy : Option String
  pub status : AccountStatus
  pub floodwait_until : Option ℕ
  pub last_error : Option String
  pub created_at : ℕ
  pub updated_at : ℕ

pub record Accounts : Type 0 where
  pub rows : List Account
  pub next_id : ℕ

unfoldable pub list_for_owner : ℕ → Bool → Accounts → List Account
list_for_owner owner_id include_disabled t =
    sort_by (λ (r : Account). r.id)
      (filter (λ r. r.owner_id == owner_id && (include_disabled || not (is_disabled r.status)))
        t.rows)

abbrev pub has_id : ℕ → ℕ → Account → Bool
has_id account_id owner_id r = r.id == account_id && r.owner_id == owner_id

unfoldable pub get_by_id : ℕ → ℕ → Accounts → Option Account
get_by_id account_id owner_id t = first (filter (has_id account_id owner_id) t.rows)

abbrev pub has_label : ℕ → String → Account → Bool
has_label owner_id label r = r.owner_id == owner_id && str_eq r.label label

unfoldable pub get_by_label : ℕ → String → Accounts → Option Account
get_by_label owner_id label t = first (filter (has_label owner_id label) t.rows)

-- the keyword arguments of `upsert_session`
pub record Credentials : Type 0 where
  pub owner_id : ℕ
  pub label : String
  pub api_id : ℕ
  pub api_hash : String
  pub session_string : String
  pub proxy : Option String

abbrev pub new_account : ℕ → ℕ → Credentials → String → Account
new_account id utcnow c enc_b64 = record {
  id = id;
  owner_id = c.owner_id;
  label = c.label;
  api_id = c.api_id;
  api_hash = c.api_hash;
  session_string_enc = some enc_b64;
  proxy = c.proxy;
  status = offline;
  floodwait_until = none;
  last_error = none;
  created_at = utcnow;
  updated_at = utcnow;
}

abbrev pub refreshed : ℕ → Credentials → String → Account → Account
refreshed utcnow c enc_b64 r = record r {
  api_id = c.api_id;
  api_hash = c.api_hash;
  session_string_enc = some enc_b64;
  proxy = c.proxy;
  status = if is_disabled r.status then offline else r.status;
  last_error = if is_disabled r.status then none else r.last_error;
  updated_at = utcnow;
}

-- a write to the attributes of one row, by its primary key
abbrev pub write_row : ℕ → (Account → Account) → Accounts → Accounts
write_row id f t = record t { rows = update (λ r. r.id == id) f t.rows }

-- past the lookup by label
unfoldable pub upsert_found :
    Option Account → ℕ → Credentials → String → Accounts → Account × Accounts
upsert_found none utcnow c enc_b64 t = (
  new_account t.next_id utcnow c enc_b64,
  record t {
    rows = t.rows ++ new_account t.next_id utcnow c enc_b64 ∷ [];
    next_id = t.next_id + 1;
  },
)
upsert_found (some existing) utcnow c enc_b64 t =
    (refreshed utcnow c enc_b64 existing, write_row existing.id (refreshed utcnow c enc_b64) t)

abbrev pub status_row : AccountStatus → Option String → Option ℕ → ℕ → Account → Account
status_row status last_error floodwait_until utcnow r = record r {
  status = status;
  last_error = last_error;
  floodwait_until = floodwait_until;
  updated_at = utcnow;
}

abbrev pub disabled_row : ℕ → Account → Account
disabled_row utcnow r = record r {
  status = disabled;
  session_string_enc = none;
  updated_at = utcnow;
}

abbrev pub patch : Option Account → (Account → Account) → Accounts → Bool × Accounts
patch none f t = (false, t)
patch (some row) f t = (true, write_row row.id f t)

module _ (account_id owner_id utcnow : ℕ) where
  unfoldable pub update_status :
      AccountStatus → Option String → Option ℕ → Accounts → Bool × Accounts
  unfolding get_by_id
  update_status status last_error floodwait_until t =
      patch (get_by_id account_id owner_id t) (status_row status last_error floodwait_until utcnow)
        t

  unfoldable pub mark_disabled : Accounts → Bool × Accounts
  unfolding get_by_id
  mark_disabled t = patch (get_by_id account_id owner_id t) (disabled_row utcnow) t

module _ (c : Primitives) (master : Bytes) where
  unfoldable pub encrypt_session : Bytes → String → Result CryptoError String
  encrypt_session nonce plaintext = do
    let ct = (← encrypt c master nonce (c.utf8_encode plaintext) none)
    ok (c.b64encode ct)

  abbrev pub decrypt_enc : Option String → Result CryptoError (Option String)
  decrypt_enc none = ok none
  decrypt_enc (some enc) = do
    let raw = (← or_raise bad_base64 (c.b64decode enc))
    let plain = (← decrypt c master raw none)
    let text = (← or_raise bad_utf8 (c.utf8_decode plain))
    ok (some text)

  unfoldable pub decrypt_session : Account → Result CryptoError (Option String)
  decrypt_session a = decrypt_enc a.session_string_enc

  unfoldable pub upsert_session :
      Bytes → ℕ → Credentials → Accounts → Result CryptoError (Account × Accounts)
  unfolding get_by_label upsert_found
  upsert_session nonce utcnow k t = do
    let enc_b64 = (← encrypt_session nonce k.session_string)
    ok (upsert_found (get_by_label k.owner_id k.label t) utcnow k enc_b64 t)

pub data WorkflowValidationError : Type 0 where
  no_account account_disabled : ℕ → ℕ → WorkflowValidationError

unfoldable pub check_usable : ℕ → ℕ → Option Account → Result WorkflowValidationError (Unit {0})
check_usable owner_id account_id none = err (no_account account_id owner_id)
check_usable owner_id account_id (some account) =
    if is_disabled account.status then err (account_disabled account_id owner_id) else ok tt

unfoldable pub validate_account_ref : ℕ → ℕ → Accounts → Result WorkflowValidationError (Unit {0})
unfolding get_by_id check_usable
validate_account_ref owner_id account_id t =
    check_usable owner_id account_id (get_by_id account_id owner_id t)
