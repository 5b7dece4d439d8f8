-- ===== src/ConfigLoader/Sync/Validation.antt =====
-- What the files declare of a name, for the validation of tg_conductor/config_loader/sync.py.
use tg_conductor.Base.{
  ℕ, String, ◌≡◌, refl, sym, ap, ◌∙◌, Bool, true, false, not, ◌||◌, Option, some, List, [], ◌∷◌,
  ◌++◌, map, str_eq, if◌then◌else◌, filter, first,
}
use tg_conductor.Base.Result.{Result, ok, err}
use tg_conductor.Workflows.Schema.{Workflow}
use tg_conductor.Accounts.Repo.{Accounts, WorkflowValidationError, validate_account_ref}
use tg_conductor.ConfigLoader.Sync.{
  has_text, workflow_name, put_by, Validated, note, validate_all, error_names,
}
use tg_conductor.ConfigLoader.Sync.Dict.{
  named, has_text-append, first-put_by, names-put_by, UniqueTexts, UniqueTexts-put_by,
}

-- A name stands in a valid file, in files that are all invalid, or in none.
pub data Declared : Type 0 where
  defined : Workflow → Declared
  broken absent : Declared

abbrev pub is_absent : Declared → Bool
is_absent absent = true
is_absent _ = false

-- a later file's say over an earlier one's
abbrev pub over : Declared → Declared → Declared
over (defined wf) d = defined wf
over broken (defined wf) = defined wf
over broken _ = broken
over absent d = d

abbrev pub verdict : Workflow → Result WorkflowValidationError (Unit {0}) → Declared
verdict wf (ok _) = defined wf
verdict wf (err _) = broken

-- the workflow of the declaration, or what was there
abbrev pub or_found : Declared → Option Workflow → Option Workflow
or_found (defined wf) _ = some wf
or_found _ o = o

module _ (owner_id : ℕ) (accounts : Accounts) where
  abbrev pub says : String → Workflow → Declared
  says n wf =
      if str_eq wf.name n
      then verdict wf (validate_account_ref owner_id wf.account_id accounts)
      else absent

  abbrev pub declares : List Workflow → String → Declared
  declares [] n = absent
  declares (wf ∷ wfs) n = over (declares wfs n) (says n wf)

abbrev pub keep_names : Validated → List String
keep_names v = map workflow_name v.valid_by_name ++ error_names v.errors

-- What one file adds.
Noted : Workflow → Result WorkflowValidationError (Unit {0}) → Validated → Type 0
Noted wf r v =
    ((n : String)
      → first (filter (named workflow_name n) (note wf r v).valid_by_name)
        ≡ or_found (if str_eq wf.name n then verdict wf r else absent)
            (first (filter (named workflow_name n) v.valid_by_name)))
    × ((n : String)
        → has_text n (keep_names (note wf r v)) ≡ (has_text n (keep_names v) || str_eq wf.name n))
    × (UniqueTexts (map workflow_name v.valid_by_name)
        → UniqueTexts (map workflow_name (note wf r v).valid_by_name))

error_names-append :
    (es : List (String × WorkflowValidationError)) (name : String) (e : WorkflowValidationError)
    → error_names (es ++ (name, e) ∷ []) ≡ error_names es ++ name ∷ []
unfolding error_names
error_names-append [] name e = refl
error_names-append (x ∷ es) name e = ap (λ t. x.0 ∷ t) (error_names-append es name e)

swap_last : (a b c : Bool) → ((a || b) || c) ≡ ((a || c) || b)
swap_last true b c = refl
swap_last false true true = refl
swap_last false true false = refl
swap_last false false true = refl
swap_last false false false = refl

one_more : (a b c : Bool) → (a || (b || (c || false))) ≡ ((a || b) || c)
one_more true b c = refl
one_more false true c = refl
one_more false false true = refl
one_more false false false = refl

found_if :
    (b : Bool) (wf : Workflow) (o : Option Workflow)
    → (if b then some wf else o) ≡ or_found (if b then defined wf else absent) o
found_if true wf o = refl
found_if false wf o = refl

kept_if : (b : Bool) (o : Option Workflow) → o ≡ or_found (if b then broken else absent) o
kept_if true o = refl
kept_if false o = refl

note-Noted :
    (wf : Workflow) (r : Result WorkflowValidationError (Unit {0})) (v : Validated) → Noted wf r v
unfolding Noted note
note-Noted wf (ok _) v = (
  λ n.
      first-put_by workflow_name n wf v.valid_by_name
      ∙ found_if (str_eq wf.name n) wf (first (filter (named workflow_name n) v.valid_by_name)),
  λ n.
      has_text-append n (map workflow_name (put_by workflow_name wf v.valid_by_name))
        (error_names v.errors)
      ∙ ap (λ b. b || has_text n (error_names v.errors))
          (names-put_by workflow_name n wf v.valid_by_name)
      ∙ swap_last (has_text n (map workflow_name v.valid_by_name)) (str_eq wf.name n)
          (has_text n (error_names v.errors))
      ∙ ap (λ b. b || str_eq wf.name n)
          (sym (has_text-append n (map workflow_name v.valid_by_name) (error_names v.errors))),
  UniqueTexts-put_by workflow_name wf v.valid_by_name,
)
note-Noted wf (err e) v = (
  λ n. kept_if (str_eq wf.name n) (first (filter (named workflow_name n) v.valid_by_name)),
  λ n.
      has_text-append n (map workflow_name v.valid_by_name)
        (error_names (v.errors ++ (wf.name, e) ∷ []))
      ∙ ap (λ es. has_text n (map workflow_name v.valid_by_name) || has_text n es)
          (error_names-append v.errors wf.name e)
      ∙ ap (λ b. has_text n (map workflow_name v.valid_by_name) || b)
          (has_text-append n (error_names v.errors) (wf.name ∷ []))
      ∙ one_more (has_text n (map workflow_name v.valid_by_name))
          (has_text n (error_names v.errors)) (str_eq wf.name n)
      ∙ ap (λ b. b || str_eq wf.name n)
          (sym (has_text-append n (map workflow_name v.valid_by_name) (error_names v.errors))),
  λ u. u,
)

over_found :
    (d e : Declared) (o : Option Workflow) → or_found d (or_found e o) ≡ or_found (over d e) o
over_found (defined wf) e o = refl
over_found broken (defined wf) o = refl
over_found broken broken o = refl
over_found broken absent o = refl
over_found absent e o = refl

over_absent :
    (k b : Bool) (d : Declared) (wf : Workflow) (r : Result WorkflowValidationError (Unit {0}))
    → ((k || b) || not (is_absent d))
      ≡ (k || not (is_absent (over d (if b then verdict wf r else absent))))
over_absent true b d wf r = refl
over_absent false true (defined x) wf r = refl
over_absent false true broken wf (ok _) = refl
over_absent false true broken wf (err _) = refl
over_absent false true absent wf (ok _) = refl
over_absent false true absent wf (err _) = refl
over_absent false false (defined x) wf r = refl
over_absent false false broken wf r = refl
over_absent false false absent wf r = refl

module _ (owner_id : ℕ) (accounts : Accounts) where
  -- The validation against the declarations.
  pub record IsValidated (desired : List Workflow) (v v' : Validated) : Type 0 where
    pub finds :
        (n : String)
        → first (filter (named workflow_name n) v'.valid_by_name)
          ≡ or_found
              (declares owner_id accounts desired n)
              (first (filter (named workflow_name n) v.valid_by_name))
    pub keeps :
        (n : String)
        → has_text n (keep_names v')
          ≡ (has_text n (keep_names v) || not (is_absent (declares owner_id accounts desired n)))
    pub unique :
        UniqueTexts (map workflow_name v.valid_by_name)
        → UniqueTexts (map workflow_name v'.valid_by_name)

  pub validate_all-IsValidated :
      (desired : List Workflow) (v : Validated)
      → IsValidated desired v (validate_all owner_id accounts desired v)
  unfolding validate_all Noted
  validate_all-IsValidated [] v = record {
    finds = λ n. refl;
    keeps = λ n. or_false (has_text n (keep_names v));
    unique = λ u. u;
  }
    where
      or_false : (b : Bool) → b ≡ (b || false)
      or_false true = refl
      or_false false = refl
  validate_all-IsValidated (wf ∷ wfs) v =
      let r = validate_account_ref owner_id wf.account_id accounts in
      let one = note-Noted wf r v in
      let ih = validate_all-IsValidated wfs (note wf r v) in
      record {
        finds = λ n.
            ih.finds n
            ∙ ap (or_found (declares owner_id accounts wfs n)) (one.0 n)
            ∙ over_found (declares owner_id accounts wfs n) (says owner_id accounts n wf)
                (first (filter (named workflow_name n) v.valid_by_name));
        keeps = λ n.
            ih.keeps n
            ∙ ap (λ b. b || not (is_absent (declares owner_id accounts wfs n))) (one.1 n)
            ∙ over_absent (has_text n (keep_names v)) (str_eq wf.name n)
                (declares owner_id accounts wfs n) wf r;
        unique = λ u. ih.unique (one.2 u);
      }
