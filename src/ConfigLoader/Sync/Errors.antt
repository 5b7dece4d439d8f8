-- ===== src/ConfigLoader/Sync/Errors.antt =====
-- When sync_to_db of tg_conductor/config_loader/sync.py raises.
use tg_conductor.Base.{
  ℕ, String, ◌≡◌, refl, sym, ap, ◌∙◌, ◌↔◌, inl, inr, false, ◌&&◌, Option, none, some, List, [], ◌∷◌,
  map, str_eq, ◌==◌, Bool-cases, filter, first, str_eq_refl, str_cases,
}
use mathlib.Core.Path.{subst}
use mathlib.Core.Option.{some-injective}
use tg_conductor.Base.Result.{Result, ok, err, err-ne-ok, >>=-err, Result-cases}
use tg_conductor.Scheduler.Models.{Jobs}
use tg_conductor.Workflows.Schema.{Workflow}
use tg_conductor.Workflows.Repo.{
  yaml, source_eq, WorkflowRow, Workflows, SourceMismatch, wrong_source, get_by_name,
  list_for_owner, upsert_existing, upsert_by_source,
}
use tg_conductor.Workflows.Repo.Upsert.{IsKeyed, upsert_by_source-IsUpserted}
use tg_conductor.Accounts.Repo.{Accounts}
use tg_conductor.ConfigLoader.Sync.{
  workflow_name, row_name, none_validated, validate_all, Upserted, upsert_all, dict_by, sync_to_db,
}
use tg_conductor.ConfigLoader.Sync.Dict.{named, first_absent, UniqueTexts}
use tg_conductor.ConfigLoader.Sync.Validation.{
  Declared, defined, broken, absent, declares, or_found, validate_all-IsValidated,
}
use tg_conductor.ConfigLoader.Sync.Upserts.{and_false, fresh_text}

-- A name of which the table has a row that is not of the files.
pub IsTaken : ℕ → String → Workflows → Type 0
IsTaken owner_id n w =
    (r : WorkflowRow) × (get_by_name owner_id n w ≡ some r) × (source_eq r.source yaml ≡ false)

abbrev pub IsErr : {E A : Type 0} → Result E A → Type 0
IsErr {E} r = (e : E) × (r ≡ err e)

module _ (owner_id utcnow : ℕ) where
  upsert_fails :
      (wf : Workflow) (w : Workflows)
      → IsTaken owner_id wf.name w
      → upsert_by_source utcnow owner_id yaml wf w ≡ err (wrong_source wf.name)
  unfolding IsTaken upsert_by_source upsert_existing
  upsert_fails wf w (r, found, other) = rw found (rw other refl)

  failed_upsert :
      (wf : Workflow) (w : Workflows) {e : SourceMismatch}
      → upsert_by_source utcnow owner_id yaml wf w ≡ err e
      → IsTaken owner_id wf.name w
  unfolding IsTaken upsert_by_source upsert_existing
  failed_upsert wf w {e} h = at (get_by_name owner_id wf.name w) refl h
    where
      at :
          (m : Option WorkflowRow)
          → get_by_name owner_id wf.name w ≡ m
          → upsert_existing m utcnow owner_id yaml wf w ≡ err e
          → (r : WorkflowRow) × (get_by_name owner_id wf.name w ≡ some r)
            × (source_eq r.source yaml ≡ false)
      at none found h = absurd cc
      at (some r) found h = elim (Bool-cases (source_eq r.source yaml)) [
        | inl s ↦ absurd (ok_ne_err (rw s at h))
        | inr f ↦ (r, found, f)
      ]
        where
          ok_ne_err : {x : Workflows} → ok x ≡ err e → ⊥
          ok_ne_err h = cc

  -- a file whose name is taken, among those with different names
  Collides : List Workflow → Workflows → Type 0
  Collides wfs w =
      (n : String) × (wf : Workflow) × (first (filter (named workflow_name n) wfs) ≡ some wf)
      × IsTaken owner_id n w

  abbrev Missed : Workflow → Workflows → Workflows → Type 0
  Missed wf w v =
      (o : ℕ) (m : String)
      → (owner_id == o && str_eq wf.name m) ≡ false
      → get_by_name o m v ≡ get_by_name o m w

  misses :
      (wf : Workflow) (n : String)
      → str_eq wf.name n ≡ false
      → (owner_id == owner_id && str_eq wf.name n) ≡ false
  misses wf n = and_false (owner_id == owner_id) (str_eq wf.name n)

  still-IsTaken :
      (wf : Workflow) (w v : Workflows) (n : String)
      → Missed wf w v
      → str_eq wf.name n ≡ false
      → IsTaken owner_id n w
      → IsTaken owner_id n v
  unfolding IsTaken
  still-IsTaken wf w v n missed f (r, found, other) =
      (r, missed owner_id n (misses wf n f) ∙ found, other)

  was-IsTaken :
      (wf : Workflow) (w v : Workflows) (n : String)
      → Missed wf w v
      → str_eq wf.name n ≡ false
      → IsTaken owner_id n v
      → IsTaken owner_id n w
  unfolding IsTaken
  was-IsTaken wf w v n missed f (r, found, other) =
      (r, sym (missed owner_id n (misses wf n f)) ∙ found, other)

  upsert_all-fails :
      (existing : List String) (wfs : List Workflow) (w : Workflows)
      → IsKeyed w
      → Collides wfs w
      → IsErr (upsert_all owner_id utcnow existing wfs w)
  unfolding Collides upsert_all
  upsert_all-fails existing [] w k (n, wf, h, taken) = absurd cc
  upsert_all-fails existing (wf ∷ wfs) w k (n, d, h, taken) =
      elim (Result-cases (upsert_by_source utcnow owner_id yaml wf w)) [
        | inr (e, failed) ↦ (e, rw failed refl)
        | inl (v, done) ↦ elim (str_cases wf.name n) [
          | inl same ↦
              let fails = upsert_fails wf w (subst (λ m. IsTaken owner_id m w) (sym same) taken) in
              absurd (err-ne-ok (sym fails ∙ done))
          | inr f ↦
              let one = upsert_by_source-IsUpserted owner_id utcnow yaml wf w k done in
              let (e, failed) =
                upsert_all-fails existing wfs v one.keyed
                  (n, d, rw f at h, still-IsTaken wf w v n one.missed f taken) in
              (e, rw done (rw failed refl))
        ]
      ]

  earlier-Collides :
      (wf : Workflow) (wfs : List Workflow) (w v : Workflows)
      → Missed wf w v
      → UniqueTexts (map workflow_name (wf ∷ wfs))
      → Collides wfs v
      → Collides (wf ∷ wfs) w
  unfolding Collides
  earlier-Collides wf wfs w v missed u (n, d, h, taken) = elim (str_cases wf.name n) [
    | inl same ↦
        let gone =
          first_absent workflow_name wf.name wfs (fresh_text wf.name (map workflow_name wfs) u.0) in
        let here = subst (λ m. first (filter (named workflow_name m) wfs) ≡ some d) (sym same) h in
        absurd (some_none (sym here ∙ gone))
    | inr f ↦ (n, d, rw f h, was-IsTaken wf w v n missed f taken)
  ]
    where
      some_none : some d ≡ none → ⊥
      some_none h = cc

  failed_upsert_all :
      (existing : List String) (wfs : List Workflow) (w : Workflows)
      → IsKeyed w
      → UniqueTexts (map workflow_name wfs)
      → IsErr (upsert_all owner_id utcnow existing wfs w)
      → Collides wfs w
  unfolding Collides upsert_all
  failed_upsert_all existing [] w k u (e, h) = absurd cc
  failed_upsert_all existing (wf ∷ wfs) w k u (e, h) =
      elim (>>=-err (upsert_by_source utcnow owner_id yaml wf w) _ h) [
        | inl failed ↦ (wf.name, wf, rw (str_eq_refl wf.name) refl, failed_upsert wf w failed)
        | inr (v, done, rest) ↦
            let one = upsert_by_source-IsUpserted owner_id utcnow yaml wf w k done in
            elim (>>=-err (upsert_all owner_id utcnow existing wfs v) _ rest) [
              | inr (t, _, bad) ↦ absurd (ok_ne_err bad)
              | inl failed ↦
                  earlier-Collides wf wfs w v one.missed u
                    (failed_upsert_all existing wfs v one.keyed u.1 (e, failed))
            ]
      ]
    where
      ok_ne_err : {t : Upserted} {e : SourceMismatch} → ok t ≡ err e → ⊥
      ok_ne_err h = cc

-- On a table with its keys, a sync raises exactly when the last valid definition of some name has
-- the name of a row that is not of the files.
pub sync_to_db-fails_iff :
    (owner_id utcnow : ℕ) (accounts : Accounts) (desired : List Workflow)
    (on_deleted : Option (List ℕ → Jobs → Jobs)) (w : Workflows) (jobs : Jobs)
    → IsKeyed w
    → IsErr (sync_to_db owner_id utcnow accounts desired on_deleted (w, jobs)) ↔ (
        (n : String) × (wf : Workflow) × (declares owner_id accounts desired n ≡ defined wf)
        × IsTaken owner_id n w)
unfolding sync_to_db Collides
sync_to_db-fails_iff owner_id utcnow accounts desired on_deleted w jobs k =
    let v = validate_all owner_id accounts desired none_validated in
    let valid = validate_all-IsValidated owner_id accounts desired none_validated in
    let existing = dict_by row_name (list_for_owner owner_id false (some yaml) w) [] in
    (
      λ (e, h).
          elim (>>=-err (upsert_all owner_id utcnow (map row_name existing) v.valid_by_name w) _
            h) [
              | inr (t, _, bad) ↦ absurd (ok_ne_err bad)
              | inl failed ↦
                  let (n, wf, h, taken) =
                    failed_upsert_all owner_id utcnow (map row_name existing) v.valid_by_name w k
                      (valid.unique tt) (e, failed) in
                  (
                    n,
                    wf,
                    declared_of (declares owner_id accounts desired n) (sym (valid.finds n) ∙ h),
                    taken,
                  )
            ],
      λ (n, wf, d, taken).
          let (e, failed) =
            upsert_all-fails owner_id utcnow (map row_name existing) v.valid_by_name w k
              (n, wf, valid.finds n ∙ ap (λ d. or_found d none) d, taken) in
          (e, rw failed refl),
    )
  where
    ok_ne_err : {A E : Type 0} {t : A} {e : E} → ◌≡◌ {A = Result E A} (ok t) (err e) → ⊥
    ok_ne_err h = cc

    declared_of : {wf : Workflow} (d : Declared) → or_found d none ≡ some wf → d ≡ defined wf
    declared_of (defined x) h = ap defined (some-injective _ _ h)
    declared_of broken h = absurd cc
    declared_of absent h = absurd cc
