-- ===== src/Accounts/Repo/Keyed.antt =====
-- Keys of the accounts table through the operations of tg_conductor/accounts/repo.py.
use tg_conductor.Base.{
  ℕ, String, ◌≡◌, refl, ap, Bool, Option, none, some, ◌==◌, filter, first, first-filter-All,
  IsTable, update-IsTable, append-IsTable,
}
use mathlib.Core.Path.{subst}
use tg_conductor.Base.Result.{Result, ok, err, ◌>>=◌}
use tg_conductor.Db.Crypto.{CryptoError, Bytes, Primitives}
use tg_conductor.Accounts.Repo.{
  AccountStatus, Account, Accounts, Credentials, has_label, get_by_label, get_by_id, new_account,
  refreshed, write_row, upsert_found, status_row, disabled_row, patch, update_status, mark_disabled,
  upsert_session, encrypt_session,
}

abbrev pub account_id : Account → ℕ
account_id r = r.id

abbrev pub same_label : Account → Account → Bool
same_label x y = has_label y.owner_id y.label x

-- The primary key, and the constraint on owner and label.
abbrev pub IsKeyed : Accounts → Type 0
IsKeyed t = IsTable account_id same_label t.rows t.next_id

-- A row stays the same account.
abbrev SameAccount : (Account → Account) → Type 0
SameAccount f =
    (r : Account) → ((f r).id ≡ r.id) × ((f r).owner_id ≡ r.owner_id) × ((f r).label ≡ r.label)

write-IsKeyed :
    (id : ℕ) (f : Account → Account)
    → SameAccount f
    → (t : Accounts) → IsKeyed t
    → IsKeyed (write_row id f t)
write-IsKeyed id f same t =
    update-IsTable account_id same_label (λ r. r.id == id) f (λ r. (same r).0)
      (λ x y. rw ((same x).1, (same x).2) refl) (λ x y. rw ((same y).1, (same y).2) refl) t.rows
      t.next_id

patch-IsKeyed :
    (o : Option Account) (f : Account → Account)
    → SameAccount f
    → (t : Accounts) → IsKeyed t
    → IsKeyed (patch o f t).1
patch-IsKeyed none f same t k = k
patch-IsKeyed (some r) f same t k = write-IsKeyed r.id f same t k

upsert_found-IsKeyed :
    (utcnow : ℕ) (c : Credentials) (enc : String) (t : Accounts)
    → IsKeyed t
    → IsKeyed (upsert_found (get_by_label c.owner_id c.label t) utcnow c enc t).1
unfolding get_by_label upsert_found
upsert_found-IsKeyed utcnow c enc t k =
    found (first (filter (has_label c.owner_id c.label) t.rows)) refl
  where
    found :
        (e : Option Account)
        → first (filter (has_label c.owner_id c.label) t.rows) ≡ e
        → IsKeyed (upsert_found e utcnow c enc t).1
    found none h =
        append-IsTable account_id same_label t.rows t.next_id (new_account t.next_id utcnow c enc) k
          refl (first-filter-All (has_label c.owner_id c.label) t.rows h)
    found (some a) h = write-IsKeyed a.id (refreshed utcnow c enc) (λ r. (refl, refl, refl)) t k

module _ (p : Primitives) (master : Bytes) where
  -- a call of one of the three writing operations
  pub data Step (t : Accounts) : Accounts → Type 0 where
    log_in :
        (nonce : Bytes) (utcnow : ℕ) (c : Credentials) {r : Account} {t' : Accounts}
        → upsert_session p master nonce utcnow c t ≡ ok (r, t')
        → Step t t'
    set_status :
        (id owner_id utcnow : ℕ) (status : AccountStatus) (last_error : Option String)
        (until : Option ℕ) {t' : Accounts}
        → (update_status id owner_id utcnow status last_error until t).1 ≡ t'
        → Step t t'
    log_out :
        (id owner_id utcnow : ℕ) {t' : Accounts}
        → (mark_disabled id owner_id utcnow t).1 ≡ t'
        → Step t t'

  pub data Reach (t : Accounts) : Accounts → Type 0 where
    here : Reach t t
    next : {u v : Accounts} → Reach t u → Step u v → Reach t v

  log_in-IsKeyed :
      (nonce : Bytes) (utcnow : ℕ) (c : Credentials) (t : Accounts) {r : Account} {t' : Accounts}
      → upsert_session p master nonce utcnow c t ≡ ok (r, t')
      → IsKeyed t
      → IsKeyed t'
  unfolding upsert_session
  log_in-IsKeyed nonce utcnow c t {r} {t'} h k =
      stored (encrypt_session p master nonce c.session_string) h
    where
      stored :
          (m : Result CryptoError String)
          → (m >>= λ enc. ok (upsert_found (get_by_label c.owner_id c.label t) utcnow c enc t))
            ≡ ok (r, t')
          → IsKeyed t'
      stored (err e) h = absurd cc
      stored (ok enc) h =
          let same : (upsert_found (get_by_label c.owner_id c.label t) utcnow c enc t) ≡ (r, t') =
            cc in
          subst IsKeyed (ap (λ x. x.1) same) (upsert_found-IsKeyed utcnow c enc t k)

  Step-IsKeyed : {t u : Accounts} → Step t u → IsKeyed t → IsKeyed u
  unfolding update_status mark_disabled
  Step-IsKeyed {t} (Step.log_in nonce utcnow c h) k = log_in-IsKeyed nonce utcnow c t h k
  Step-IsKeyed {t} (Step.set_status id o n s e u h) k =
      subst IsKeyed h
        (patch-IsKeyed (get_by_id id o t) (status_row s e u n) (λ r. (refl, refl, refl)) t k)
  Step-IsKeyed {t} (Step.log_out id o n h) k =
      subst IsKeyed h
        (patch-IsKeyed (get_by_id id o t) (disabled_row n) (λ r. (refl, refl, refl)) t k)

  -- Through any sequence of logins, status updates and logouts, ids stay distinct and below the next
  -- one, and no two accounts of an owner have one label.
  pub accounts-IsKeyed : {t u : Accounts} → Reach t u → IsKeyed t → IsKeyed u
  accounts-IsKeyed Reach.here k = k
  accounts-IsKeyed (Reach.next r s) k = Step-IsKeyed s (accounts-IsKeyed r k)
