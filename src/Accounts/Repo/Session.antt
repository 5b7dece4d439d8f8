-- ===== src/Accounts/Repo/Session.antt =====
-- What `decrypt_session` of tg_conductor/accounts/repo.py gives back of what `upsert_session` stored.
use tg_conductor.Base.{
  ℕ, String, ◌≡◌, refl, ap, ◌∙◌, true, false, Option, none, some, List, [], ◌∷◌, ◌++◌, ◌==◌,
  if◌then◌else◌, length, filter, first, first-filter-append, first-filter-update, ==_refl,
  str_eq_refl,
}
use tg_conductor.Base.Result.{ok, ◌>>=◌}
use tg_conductor.Db.Crypto.{
  Bytes, Primitives, IsCodec, nonce_len, encrypt, decrypt-encrypt, resolve_key,
}
use tg_conductor.Accounts.Repo.{
  AccountStatus, Account, Accounts, Credentials, has_label, get_by_label, get_by_id, new_account,
  refreshed, upsert_found, has_id, patch, status_row, update_status, encrypt_session,
  decrypt_session, decrypt_enc, upsert_session,
}

-- a call of `update_status`
pub record StatusCall : Type 0 where
  pub account_id : ℕ
  pub owner_id : ℕ
  pub utcnow : ℕ
  pub status : AccountStatus
  pub last_error : Option String
  pub floodwait_until : Option ℕ

abbrev pub after_statuses : List StatusCall → Accounts → Accounts
after_statuses [] t = t
after_statuses (s ∷ ss) t =
    after_statuses ss
      (update_status s.account_id s.owner_id s.utcnow s.status s.last_error s.floodwait_until t).1

-- The row of a label holds a session, and which.
IsStored : ℕ → String → String → Accounts → Type 0
IsStored owner_id label enc t =
    (a : Account) × (get_by_label owner_id label t ≡ some a) × (a.session_string_enc ≡ some enc)

upsert-IsStored :
    (k : Credentials) (utcnow : ℕ) (enc : String) (t : Accounts)
    → IsStored k.owner_id k.label enc
        (upsert_found (get_by_label k.owner_id k.label t) utcnow k enc t).1
unfolding IsStored get_by_label upsert_found
upsert-IsStored k utcnow enc t = found (first (filter (has_label k.owner_id k.label) t.rows)) refl
  where
    found :
        (e : Option Account)
        → first (filter (has_label k.owner_id k.label) t.rows) ≡ e
        → IsStored k.owner_id k.label enc (upsert_found e utcnow k enc t).1
    found none h = (
      new_account t.next_id utcnow k enc,
      rw
          (first-filter-append (has_label k.owner_id k.label) t.rows
            (new_account t.next_id utcnow k enc ∷ []))
          rw h (rw (==_refl k.owner_id, str_eq_refl k.label) refl),
      refl,
    )
    found (some a) h = (
      refreshed utcnow k enc a,
      first-filter-update (has_label k.owner_id k.label) (λ r. r.id == a.id)
            (refreshed utcnow k enc) (λ r. refl) t.rows
          ∙ rw h (rw (==_refl a.id) refl),
      refl,
    )

update_status-IsStored :
    (owner_id : ℕ) (label enc : String) (s : StatusCall) (t : Accounts)
    → IsStored owner_id label enc t
    → IsStored owner_id label enc
        (update_status s.account_id s.owner_id s.utcnow s.status s.last_error s.floodwait_until t).1
unfolding IsStored get_by_label get_by_id update_status
update_status-IsStored owner_id label enc s t (a, h, e) =
    patched (first (filter (has_id s.account_id s.owner_id) t.rows))
  where
    patched :
        (o : Option Account)
        → IsStored owner_id label enc
            (patch o (status_row s.status s.last_error s.floodwait_until s.utcnow) t).1
    patched none = (a, h, e)
    patched (some r) = (
      (if a.id == r.id then status_row s.status s.last_error s.floodwait_until s.utcnow a else a),
      first-filter-update (has_label owner_id label) (λ x. x.id == r.id)
            (status_row s.status s.last_error s.floodwait_until s.utcnow) (λ x. refl) t.rows
          ∙ rw h refl,
      elim (a.id == r.id)
          as (λ b.
            (if b
              then status_row s.status s.last_error s.floodwait_until s.utcnow a
              else a).session_string_enc
            ≡ some enc) [ true ↦ e | false ↦ e ],
    )

after_statuses-IsStored :
    (owner_id : ℕ) (label enc : String) (ss : List StatusCall) (t : Accounts)
    → IsStored owner_id label enc t
    → IsStored owner_id label enc (after_statuses ss t)
after_statuses-IsStored owner_id label enc [] t h = h
after_statuses-IsStored owner_id label enc (s ∷ ss) t h =
    after_statuses-IsStored owner_id label enc ss
      (update_status s.account_id s.owner_id s.utcnow s.status s.last_error s.floodwait_until t).1
      (update_status-IsStored owner_id label enc s t h)

module _ (c : Primitives) (master : Bytes) where
  decrypt_enc-encrypt_session :
      IsCodec c
      → (nonce : Bytes) (text : String) → length nonce ≡ nonce_len
      → (encrypt_session c master nonce text >>= λ enc. decrypt_enc c master (some enc))
        ≡ ok (some text)
  unfolding encrypt_session encrypt resolve_key
  decrypt_enc-encrypt_session p nonce text n =
      let sealed = decrypt-encrypt c master p nonce (c.utf8_encode text) none n in
      rw (p.b64decode-b64encode (nonce ++ c.seal master nonce (c.utf8_encode text)))
        (rw sealed (rw (p.utf8_decode-utf8_encode text) refl))

  -- If the libraries keep their promises and the nonce has 12 bytes, then storing a session does not
  -- fail, and after it and any number of status updates, of this account or others, the account of
  -- that label is found and its session decrypts to the text that was stored.
  pub decrypt_session-upsert_session :
      IsCodec c
      → (nonce : Bytes) (utcnow : ℕ) (k : Credentials) (t : Accounts) (ss : List StatusCall)
      → length nonce ≡ nonce_len
      → (r : Account × Accounts) × (upsert_session c master nonce utcnow k t ≡ ok r)
        × (a : Account) × (get_by_label k.owner_id k.label (after_statuses ss r.1) ≡ some a)
        × (decrypt_session c master a ≡ ok (some k.session_string))
  unfolding upsert_session encrypt_session decrypt_session resolve_key encrypt IsStored
  decrypt_session-upsert_session p nonce utcnow k t ss n =
      let enc = c.b64encode (nonce ++ c.seal master nonce (c.utf8_encode k.session_string)) in
      let stored =
        after_statuses-IsStored k.owner_id k.label enc ss
          (upsert_found (get_by_label k.owner_id k.label t) utcnow k enc t).1
          (upsert-IsStored k utcnow enc t) in
      (
        upsert_found (get_by_label k.owner_id k.label t) utcnow k enc t,
        refl,
        stored.0,
        stored.1,
        ap (decrypt_enc c master) stored.2 ∙ decrypt_enc-encrypt_session p nonce k.session_string n,
      )
