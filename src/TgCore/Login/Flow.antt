-- ===== src/TgCore/Login/Flow.antt =====
-- How a login of tg_conductor/tg_core/login.py ends.
use tg_conductor.Base.{
  String, ◌≡◌, refl, ◌⊎◌, inl, inr, Bool, true, false, List, [], ◌∷◌, ◌++◌, All,
}
use tg_conductor.Base.Result.{Result, ok, err, Result-cases}
use tg_conductor.TgCore.Login.{
  Raised, bad_request, session_password_needed, unexpected, login_error, cancelled, Call, Script,
  Run, then_run, after_sign_in, login_body, translated, interactive_login,
}

abbrev pub is_disconnect : Call → Bool
is_disconnect Call.disconnect = true
is_disconnect _ = false

abbrev pub asks_password : Call → Bool
asks_password Call.get_password = true
asks_password _ = false

-- A text, a LoginError, or a cancelled task.
abbrev pub IsSettled : Result Raised String → Type 0
IsSettled r =
    ((text : String) × (r ≡ ok text))
    ⊎ ((m : String) × (r ≡ err (login_error m)))
    ⊎ (r ≡ err cancelled)

translated-IsSettled : (r : Result Raised String) → IsSettled (translated r)
translated-IsSettled (ok text) = inl (text, refl)
translated-IsSettled (err (bad_request m)) = inr (inl (m, refl))
translated-IsSettled (err (session_password_needed m)) = inr (inl (m, refl))
translated-IsSettled (err (unexpected m)) = inr (inl (m, refl))
translated-IsSettled (err (login_error m)) = inr (inl (m, refl))
translated-IsSettled (err cancelled) = inr (inr refl)

-- The calls of a run all pass a test.
abbrev Only : (Call → Bool) → List Call → Type 0
Only p = All (λ c. p c ≡ false)

then_run-Only :
    {A B : Type 0} (p : Call → Bool) (c : Call) (r : Result Raised A) (k : A → Run B)
    → p c ≡ false
    → ((a : A) → Only p (k a).0)
    → Only p (then_run c r k).0
then_run-Only p c (ok a) k h f = (h, f a)
then_run-Only p c (err e) k h f = (h, tt)

after_sign_in-Only :
    (p : Call → Bool) (signed password check : Result Raised (Unit {0})) (rest : Run String)
    → p Call.sign_in ≡ false
    → p Call.check_password ≡ false
    → (((m : String) × (signed ≡ err (session_password_needed m))) → p Call.get_password ≡ false)
    → Only p rest.0
    → Only p (after_sign_in signed password check rest).0
after_sign_in-Only p (ok _) password check rest s c g r = (s, r)
after_sign_in-Only p (err (session_password_needed m)) password check rest s c g r = (
  s,
  then_run-Only p Call.get_password password (λ _. then_run Call.check_password check (λ _. rest))
      (g (m, refl)) (λ _. then_run-Only p Call.check_password check (λ _. rest) c (λ _. r)),
)
after_sign_in-Only p (err (bad_request m)) password check rest s c g r = (s, tt)
after_sign_in-Only p (err (unexpected m)) password check rest s c g r = (s, tt)
after_sign_in-Only p (err (login_error m)) password check rest s c g r = (s, tt)
after_sign_in-Only p (err cancelled) password check rest s c g r = (s, tt)

login_body-Only :
    (p : Call → Bool) (s : Script)
    → p Call.send_code ≡ false
    → p Call.get_code ≡ false
    → p Call.sign_in ≡ false
    → p Call.check_password ≡ false
    → p Call.export_session ≡ false
    → (((m : String) × (s.sign_in ≡ err (session_password_needed m))) → p Call.get_password ≡ false)
    → Only p (login_body s).0
unfolding login_body
login_body-Only p s a b c d e g = then_run-Only p Call.send_code s.send_code _ a (λ _.
    then_run-Only p Call.get_code s.get_code _ b (λ _.
      after_sign_in-Only p s.sign_in s.get_password s.check_password
        (then_run Call.export_session s.export_session (λ text. ([], ok text))) c d g
        (then_run-Only p Call.export_session s.export_session (λ text. ([], ok text)) e (λ _. tt))))

-- A login whose connection fails makes no other call, and raises what the connection raised. Any other
-- login ends with a text, a LoginError or a cancellation; it disconnects once, as its last call; and it
-- asks for no password unless the sign-in said that one is needed.
pub interactive_login-IsSettled :
    (s : Script)
    → ((e : Raised) × (s.connect ≡ err e) × (interactive_login s ≡ (Call.connect ∷ [], err e)))
      ⊎ ((calls : List Call) × ((interactive_login s).0
            ≡ Call.connect ∷ calls ++ Call.disconnect ∷ [])
          × All (λ c. is_disconnect c ≡ false) calls
          × ((((m : String) × (s.sign_in ≡ err (session_password_needed m))) → ⊥)
              → All (λ c. asks_password c ≡ false) calls)
          × IsSettled (interactive_login s).1)
unfolding interactive_login
interactive_login-IsSettled s = elim (Result-cases s.connect) [
  | inr (e, h) ↦ inl (e, h, rw (h, interactive_login) refl)
  | inl (_, h) ↦ inr (
    (login_body s).0,
    rw (h, interactive_login) refl,
    login_body-Only is_disconnect s refl refl refl refl refl (λ _. refl),
    (λ unneeded.
        login_body-Only asks_password s refl refl refl refl refl
          (λ needed. absurd (unneeded needed))),
    rw (h, interactive_login) (translated-IsSettled (login_body s).1),
  )
]
