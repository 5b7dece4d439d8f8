-- ===== src/ConfigLoader/Reload/First.antt =====
-- A reload of tg_conductor/config_loader/reload.py, from the files to the table.
use tg_conductor.Base.{
  ℕ, String, ◌≡◌, refl, sym, ap, ◌∙◌, ◌⊎◌, inl, inr, false, Option, none, some, List, [], ◌∷◌, ◌++◌,
  str_eq, eq_iff, ◌==◌, if◌then◌else◌, is_some, Option-cases, str_cases,
}
use mathlib.Core.Path.{subst}
use tg_conductor.Base.Result.{Result, ok, err, Result-cases}
use tg_conductor.Scheduler.Models.{Jobs}
use tg_conductor.Workflows.Schema.{Workflow}
use tg_conductor.Workflows.Repo.{Workflows, SourceMismatch, get_by_name}
use tg_conductor.Workflows.Repo.Upsert.{IsKeyed}
use tg_conductor.Accounts.Repo.{Accounts, validate_account_ref}
use tg_conductor.ConfigLoader.Parser.{LoadResult}
use tg_conductor.ConfigLoader.Sync.{sync_to_db}
use tg_conductor.ConfigLoader.Sync.Validation.{
  Declared, defined, broken, absent, over, verdict, says, declares,
}
use tg_conductor.ConfigLoader.Sync.Refines.{catalog, reconciled, sync_to_db-reconciles}
use tg_conductor.ConfigLoader.Sync.Errors.{IsTaken, sync_to_db-fails_iff}
use tg_conductor.ConfigLoader.Reload.{
  ReloadResult, path_of, Deduped, dedupe, add_workflow, add_duplicate, execute_reload,
}

-- The first file of a name.
abbrev pub first_of : String → List (String × Workflow) → Option Workflow
first_of n [] = none
first_of n ((path, wf) ∷ loaded) =
    let rest = first_of n loaded in if str_eq wf.name n then some wf else rest

dedupe_first :
    (path : String) (wf : Workflow) (loaded : List (String × Workflow))
    (seen : List (String × String))
    → path_of wf.name seen ≡ none
    → dedupe ((path, wf) ∷ loaded) seen ≡ add_workflow wf (dedupe loaded ((wf.name, path) ∷ seen))
unfolding dedupe
dedupe_first path wf loaded seen h = rw (h, dedupe) refl

dedupe_again :
    (path p : String) (wf : Workflow) (loaded : List (String × Workflow))
    (seen : List (String × String))
    → path_of wf.name seen ≡ some p
    → dedupe ((path, wf) ∷ loaded) seen ≡ add_duplicate path wf.name p (dedupe loaded seen)
unfolding dedupe
dedupe_again path p wf loaded seen h = rw (h, dedupe) refl

module _ (owner_id : ℕ) (accounts : Accounts) where
  abbrev pub declared_by : Option Workflow → Declared
  declared_by none = absent
  declared_by (some wf) = verdict wf (validate_account_ref owner_id wf.account_id accounts)

  over_nothing : (d : Declared) → over d absent ≡ d
  over_nothing (defined wf) = refl
  over_nothing broken = refl
  over_nothing absent = refl

  -- What the files say of a name that none of the files before them had.
  abbrev first_says : String → List (String × Workflow) → List (String × String) → Declared
  first_says n loaded seen =
      if is_some (path_of n seen) then absent else declared_by (first_of n loaded)

  seen_before :
      (n path p : String) (wf : Workflow) (loaded : List (String × Workflow))
      (seen : List (String × String))
      → path_of wf.name seen ≡ some p
      → first_says n loaded seen ≡ first_says n ((path, wf) ∷ loaded) seen
  seen_before n path p wf loaded seen h = elim (str_cases wf.name n) [
    | inl e ↦
        let known : path_of n seen ≡ some p = subst (λ m. path_of m seen ≡ some p) e h in
        rw known refl
    | inr f ↦ rw f refl
  ]

  seen_first :
      (n path : String) (wf : Workflow) (loaded : List (String × Workflow))
      (seen : List (String × String))
      → path_of wf.name seen ≡ none
      → over (first_says n loaded ((wf.name, path) ∷ seen)) (says owner_id accounts n wf)
        ≡ first_says n ((path, wf) ∷ loaded) seen
  seen_first n path wf loaded seen h = elim (str_cases wf.name n) [
    | inl e ↦
        let unknown : path_of n seen ≡ none = subst (λ m. path_of m seen ≡ none) e h in
        rw (unknown, (eq_iff wf.name n).1 e) refl
    | inr f ↦ rw f (over_nothing (first_says n loaded seen))
  ]

  declares-dedupe :
      (n : String) (loaded : List (String × Workflow)) (seen : List (String × String))
      → declares owner_id accounts (dedupe loaded seen).workflows n ≡ first_says n loaded seen
  unfolding dedupe
  declares-dedupe n [] seen =
      elim (path_of n seen) as (λ p. absent ≡ (if is_some p then absent else absent)) [
        | none ↦ refl
        | some x ↦ refl
      ]
  declares-dedupe n ((path, wf) ∷ loaded) seen = elim (Option-cases (path_of wf.name seen)) [
    | inl h ↦
        ap (λ (d : Deduped). declares owner_id accounts d.workflows n)
          (dedupe_first path wf loaded seen h)
        ∙ ap (λ d. over d (says owner_id accounts n wf))
            (declares-dedupe n loaded ((wf.name, path) ∷ seen))
        ∙ seen_first n path wf loaded seen h
    | inr (p, h) ↦
        ap (λ (d : Deduped). declares owner_id accounts d.workflows n)
          (dedupe_again path p wf loaded seen h)
        ∙ declares-dedupe n loaded seen
        ∙ seen_before n path p wf loaded seen h
  ]

  -- What the first file of a name says.
  pub declared : LoadResult → String → Declared
  declared load n = declared_by (first_of n load.workflows)

module _ (owner_id utcnow : ℕ) (accounts : Accounts) (on_deleted : Option (List ℕ → Jobs → Jobs))
    (load : LoadResult) (w : Workflows) (jobs : Jobs) where
  abbrev result : Result SourceMismatch ReloadResult × Workflows × Jobs
  result = execute_reload owner_id utcnow accounts on_deleted load (w, jobs)

  -- The reload fails and changes nothing, because a valid first definition takes a name.
  abbrev pub Failed : Type 0
  Failed =
      (e : SourceMismatch) × (execute_reload owner_id utcnow accounts on_deleted load (w, jobs)
        ≡ (err e, w, jobs))
      × (n : String) × (wf : Workflow) × (declared owner_id accounts load n ≡ defined wf)
      × IsTaken owner_id n w

  -- The reload succeeds, and the table shows what the files say.
  abbrev pub Reloaded : Type 0
  Reloaded =
      (r : ReloadResult) × (w' : Workflows) × (jobs' : Jobs) × (execute_reload owner_id utcnow
          accounts on_deleted load (w, jobs)
        ≡ (ok r, w', jobs'))
      × IsKeyed w'
      × ((n : String)
          → catalog w' owner_id n
            ≡ reconciled (declared owner_id accounts load n) (catalog w owner_id n))
      × ((o : ℕ) (n : String) → (owner_id == o) ≡ false → get_by_name o n w' ≡ get_by_name o n w)

  -- On a table with its keys, a reload either fails and leaves the tables alone, and then the first
  -- file of some name is valid and the name belongs to a row that is not of the files; or it succeeds,
  -- the keys hold, every name of the owner stands for what its first file says (the definition if it
  -- is valid; what stood there if it is not; nothing if no file has the name and the row was of the
  -- files; else what stood there), and no row of another owner is touched.
  pub execute_reload_lem : IsKeyed w → Failed ⊎ Reloaded
  unfolding execute_reload declared
  execute_reload_lem k =
      let d = dedupe load.workflows [] in
      elim (Result-cases (sync_to_db owner_id utcnow accounts d.workflows on_deleted (w, jobs))) [
        | inl (x, h) ↦
            let (keyed, names, others) =
              sync_to_db-reconciles owner_id utcnow accounts d.workflows on_deleted w jobs k h in
            inr (
              record { sync = x.0; parse_errors = load.errors ++ d.errors },
              x.1,
              x.2,
              rw (h, execute_reload) refl,
              keyed,
              (λ n.
                  names n
                  ∙ ap (λ d. reconciled d (catalog w owner_id n))
                      (declares-dedupe owner_id accounts n load.workflows [])),
              others,
            )
        | inr (e, h) ↦
            let (n, wf, says, taken) =
              (sync_to_db-fails_iff owner_id utcnow accounts d.workflows on_deleted w jobs k).0
                (e, h) in
            inl (
              e,
              rw (h, execute_reload) refl,
              n,
              wf,
              sym (declares-dedupe owner_id accounts n load.workflows []) ∙ says,
              taken,
            )
      ]
