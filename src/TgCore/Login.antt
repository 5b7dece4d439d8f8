-- ===== src/TgCore/Login.antt =====
-- `interactive_login` of tg_conductor/tg_core/login.py. What Telegram and the prompts give is a script;
-- the run is the calls that were made, and how it ended.
pub mod Flow
use tg_conductor.Base.{◌+◌, String, List, [], ◌∷◌, ◌++◌, if◌then◌else◌}
use tg_conductor.Base.Result.{Result, ok, err}

-- A task that is cancelled raises no `Exception`.
pub data Raised : Type 0 where
  bad_request session_password_needed unexpected : String → Raised
  login_error : String → Raised
  cancelled : Raised

pub data Call : Type 0 where
  connect send_code get_code sign_in get_password check_password export_session disconnect : Call

pub record Script : Type 0 where
  pub connect : Result Raised (Unit {0})
  pub send_code : Result Raised (Unit {0})
  pub get_code : Result Raised (Unit {0})
  pub sign_in : Result Raised (Unit {0})
  pub get_password : Result Raised (Unit {0})
  pub check_password : Result Raised (Unit {0})
  pub export_session : Result Raised String

abbrev pub Run {ℓ} : Type ℓ → Type ℓ
Run A = List Call × Result Raised A

abbrev pub then_run {ℓ κ} : {A : Type ℓ} {B : Type κ} → Call → Result Raised A → (A → Run B) → Run B
then_run c (err e) k = (c ∷ [], err e)
then_run c (ok a) k = (c ∷ (k a).0, (k a).1)

-- a second factor is asked for only if the sign-in says that it is needed
abbrev pub after_sign_in :
    Result Raised (Unit {0})
    → Result Raised (Unit {0})
    → Result Raised (Unit {0})
    → Run String
    → Run String
after_sign_in (ok _) password check rest = (Call.sign_in ∷ rest.0, rest.1)
after_sign_in (err (session_password_needed m)) password check rest =
    let asked =
      then_run Call.get_password password (λ _. then_run Call.check_password check (λ _. rest)) in
    (Call.sign_in ∷ asked.0, asked.1)
after_sign_in (err e) password check rest = (Call.sign_in ∷ [], err e)

unfoldable pub login_body : Script → Run String
login_body s = then_run Call.send_code s.send_code (λ _. then_run Call.get_code s.get_code (λ _.
    after_sign_in s.sign_in s.get_password s.check_password
      (then_run Call.export_session s.export_session (λ text. ([], ok text)))))

abbrev pub as_login_error : Raised → Raised
as_login_error (bad_request m) = login_error m
as_login_error (login_error m) = login_error m
as_login_error cancelled = cancelled
as_login_error (session_password_needed m) = login_error m
as_login_error (unexpected m) = login_error m

abbrev pub translated : Result Raised String → Result Raised String
translated (ok text) = ok text
translated (err e) = err (as_login_error e)

unfoldable pub interactive_login : Script → Run String
unfolding login_body
interactive_login s =
    then_run Call.connect s.connect
      (λ _. let body = login_body s in (body.0 ++ Call.disconnect ∷ [], translated body.1))
