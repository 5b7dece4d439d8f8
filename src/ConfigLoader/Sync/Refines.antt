-- ===== src/ConfigLoader/Sync/Refines.antt =====
-- sync_to_db of tg_conductor/config_loader/sync.py against what the files declare.
use tg_conductor.Base.{
  ℕ, ◌≤◌, String, ◌≡◌, refl, sym, ap, ◌∙◌, ◌⊎◌, inl, inr, true, false, not, ◌&&◌, Option, none,
  some, List, [], ◌∷◌, map, arith, str_eq, eq_iff, ◌==◌, if◌then◌else◌, ==_iff, Bool-cases,
  and_split, elem, filter, first, keep_if, first-passes, first-filter-filter, filter-IsTable,
}
use mathlib.Core.Path.{subst}
use tg_conductor.Base.Result.{ok, ok-injective, >>=-ok}
use tg_conductor.Scheduler.Models.{Jobs}
use tg_conductor.Workflows.Schema.{Workflow}
use tg_conductor.Workflows.Repo.{
  yaml, source_eq, WorkflowRow, Workflows, has_name, get_by_name, list_for_owner,
}
use tg_conductor.Workflows.Repo.Upsert.{workflow_id, same_name, IsKeyed, Entry, entry, entry_of}
use tg_conductor.Accounts.Repo.{Accounts}
use tg_conductor.ConfigLoader.Sync.{
  has_text, workflow_name, row_name, row_id, gone_of, none_validated, validate_all, upsert_all,
  delete_all, dict_by, SyncReport, sync_to_db,
}
use tg_conductor.ConfigLoader.Sync.Dict.{named}
use tg_conductor.ConfigLoader.Sync.Validation.{
  Declared, defined, broken, absent, is_absent, declares, or_found, keep_names,
  validate_all-IsValidated,
}
use tg_conductor.ConfigLoader.Sync.Upserts.{IsWritten, and_false, upsert_all-IsWritten}
use tg_conductor.ConfigLoader.Sync.Deletes.{
  sole_name, existing_of, dict_by-existing, Goes, elem-Goes, elem-old, elem-gone,
}

abbrev pub shown : Option WorkflowRow → Option Entry
shown none = none
shown (some r) = some (entry_of r)

-- The table as its readers see it: what stands under a name of an owner.
abbrev pub catalog : Workflows → ℕ → String → Option Entry
catalog w owner_id name = shown (get_by_name owner_id name w)

-- What the declaration of a name makes of what stood there.
abbrev pub reconciled : Declared → Option Entry → Option Entry
reconciled (defined wf) _ = some (entry yaml wf)
reconciled broken e = e
reconciled absent none = none
reconciled absent (some e) = if source_eq e.source yaml then none else some e

-- The rows after the deletions.
get_by_name-delete_all :
    (o : ℕ) (n : String) (rows : List WorkflowRow) (w : Workflows)
    → IsKeyed w
    → get_by_name o n (delete_all rows w)
      ≡ keep_if (λ r. not (elem r.id (map row_id rows))) (get_by_name o n w)
unfolding get_by_name delete_all
get_by_name-delete_all o n rows w k =
    first-filter-filter same_name (has_name o n) (λ r. not (elem r.id (map row_id rows)))
      (sole_name o n) w.rows k.others

delete_all-IsKeyed :
    (rows : List WorkflowRow) (w : Workflows) → IsKeyed w → IsKeyed (delete_all rows w)
unfolding delete_all
delete_all-IsKeyed rows w k =
    filter-IsTable workflow_id same_name (λ r. not (elem r.id (map row_id rows))) w.rows w.next_id k

no_name :
    (n : String) (wfs : List Workflow)
    → first (filter (named workflow_name n) wfs) ≡ none
    → has_text n (map workflow_name wfs) ≡ false
no_name n [] h = refl
no_name n (wf ∷ wfs) h = elim (Bool-cases (str_eq wf.name n)) [
  | inl e ↦ absurd (some_none (rw e at h))
  | inr e ↦ rw e (no_name n wfs (rw e at h))
]
  where
    some_none : {x : Workflow} → some x ≡ none → ⊥
    some_none h = cc

module _ (owner_id : ℕ) (wfs : List Workflow) (keep : List String) (w u : Workflows) (k : IsKeyed w)
    (written : IsWritten owner_id wfs w u) where
  abbrev gone : List WorkflowRow
  gone = gone_of keep (existing_of owner_id w)

  -- the table after the deletions
  abbrev left : Workflows
  left = delete_all gone u

  left_stays :
      (o : ℕ) (n : String) (x : WorkflowRow)
      → get_by_name o n u ≡ some x
      → (elem x.id (map row_id gone) ≡ true → ⊥)
      → get_by_name o n left ≡ some x
  left_stays o n x h stays =
      get_by_name-delete_all o n gone u written.keyed
      ∙ elim (Bool-cases (elem x.id (map row_id gone))) [
        | inl t ↦ absurd (stays t)
        | inr f ↦ rw h (rw f refl)
      ]

  has_name_text :
      (o : ℕ) (n : String) (x : WorkflowRow)
      → get_by_name o n w ≡ some x
      → ((x.owner_id == o) ≡ true) × (x.name ≡ n)
  unfolding get_by_name
  has_name_text o n x h =
      let (own, name) =
        and_split (x.owner_id == o) (str_eq x.name n) (first-passes (has_name o n) w.rows h) in
      (own, (eq_iff x.name n).0 name)

  Goes-gone :
      (n : String) (x : WorkflowRow)
      → get_by_name owner_id n w ≡ some x
      → has_text n keep ≡ true
      → Goes owner_id keep w x
      → ⊥
  Goes-gone n x h kept goes =
      let named = (has_name_text owner_id n x h).1 in
      let unkept = subst (λ m. has_text m keep ≡ false) named goes.unkept in
      true_false (sym kept ∙ unkept)
    where
      true_false : true ≡ false → ⊥
      true_false h = cc

  kept_stays :
      (n : String) (x : WorkflowRow)
      → get_by_name owner_id n w ≡ some x
      → has_text n keep ≡ true
      → elem x.id (map row_id gone) ≡ true
      → ⊥
  kept_stays n x h kept t = Goes-gone n x h kept (elem-Goes owner_id keep w k owner_id n x h t)

  -- A name of the files that was written.
  left_defined :
      (n : String) (wf : Workflow)
      → first (filter (named workflow_name n) wfs) ≡ some wf
      → has_text n keep ≡ true
      → catalog left owner_id n ≡ some (entry yaml wf)
  left_defined n wf h kept =
      let (x, found, e, from) = written.hit n h in
      ap shown (left_stays owner_id n x found (λ t. stays x from t)) ∙ ap some e
    where
      stays :
          (x : WorkflowRow)
          → (w.next_id ≤ x.id)
            ⊎ ((r : WorkflowRow) × (get_by_name owner_id n w ≡ some r) × (r.id ≡ x.id))
          → elem x.id (map row_id gone) ≡ true
          → ⊥
      stays x (inl fresh) t =
          let old = elem-old owner_id keep w k x.id t in omega (arith, old, fresh)
      stays x (inr (r, found, i)) t =
          kept_stays n r found kept (subst (λ j. elem j (map row_id gone) ≡ true) (sym i) t)

  -- A name of no valid file, of any owner.
  left_other :
      (o : ℕ) (n : String)
      → (owner_id == o && has_text n (map workflow_name wfs)) ≡ false
      → (x : WorkflowRow) → get_by_name o n w ≡ some x
      → (Goes owner_id keep w x → ⊥)
      → get_by_name o n left ≡ some x
  left_other o n h x found stays =
      left_stays o n x (written.missed o n h ∙ found)
        (λ t. stays (elem-Goes owner_id keep w k o n x found t))

  left_none :
      (o : ℕ) (n : String)
      → (owner_id == o && has_text n (map workflow_name wfs)) ≡ false
      → get_by_name o n w ≡ none
      → get_by_name o n left ≡ none
  left_none o n h found =
      get_by_name-delete_all o n gone u written.keyed ∙ rw (written.missed o n h) (rw found refl)

  -- A name of no file.
  left_absent :
      (n : String) (x : WorkflowRow)
      → has_text n (map workflow_name wfs) ≡ false
      → has_text n keep ≡ false
      → get_by_name owner_id n w ≡ some x
      → catalog left owner_id n ≡ (if source_eq x.source yaml then none else some (entry_of x))
  left_absent n x h unkept found = elim (Bool-cases (source_eq x.source yaml)) [
    | inl s ↦
        let named = (has_name_text owner_id n x found).1 in
        let goes =
          elem-gone owner_id keep w k n x found s
            (subst (λ m. has_text m keep ≡ false) (sym named) unkept) in
        let away : get_by_name owner_id n left ≡ none =
          get_by_name-delete_all owner_id n gone u written.keyed
          ∙ ap (keep_if (λ r. not (elem r.id (map row_id gone)))) (
              written.missed owner_id n
                (and_false (owner_id == owner_id) (has_text n (map workflow_name wfs)) h)
              ∙ found)
          ∙ rw goes refl in
        rw s (ap shown away)
    | inr f ↦ rw f (
        ap shown (
          left_other owner_id n
            (and_false (owner_id == owner_id) (has_text n (map workflow_name wfs)) h) x found
            (λ goes. from_api goes f)))
  ]
    where
      from_api : Goes owner_id keep w x → source_eq x.source yaml ≡ false → ⊥
      from_api goes f = true_is_false (sym goes.of_files ∙ f)
        where
          true_is_false : true ≡ false → ⊥
          true_is_false h = cc

  left_foreign :
      (o : ℕ) (n : String) → (owner_id == o) ≡ false → get_by_name o n left ≡ get_by_name o n w
  left_foreign o n other = at (get_by_name o n w) refl
    where
      missed : (owner_id == o && has_text n (map workflow_name wfs)) ≡ false
      missed = rw other refl

      foreign : (x : WorkflowRow) → get_by_name o n w ≡ some x → Goes owner_id keep w x → ⊥
      foreign x found goes =
          let own : owner_id ≡ o =
            sym ((==_iff x.owner_id owner_id).0 goes.own)
            ∙ (==_iff x.owner_id o).0 (has_name_text o n x found).0 in
          let same = (==_iff owner_id o).1 own in absurd cc

      at :
          (m : Option WorkflowRow)
          → get_by_name o n w ≡ m
          → get_by_name o n left ≡ get_by_name o n w
      at none found = left_none o n missed found ∙ sym found
      at (some x) found = left_other o n missed x found (foreign x found) ∙ sym found

  -- All of it, for a name that was found valid, was only found invalid, or was not found.
  left-reconciled :
      (n : String) (d : Declared)
      → first (filter (named workflow_name n) wfs) ≡ or_found d none
      → has_text n keep ≡ not (is_absent d)
      → catalog left owner_id n ≡ reconciled d (catalog w owner_id n)
  left-reconciled n (defined wf) h kept = left_defined n wf h kept
  left-reconciled n broken h kept = at (get_by_name owner_id n w) refl
    where
      missed : (owner_id == owner_id && has_text n (map workflow_name wfs)) ≡ false
      missed =
          and_false (owner_id == owner_id) (has_text n (map workflow_name wfs)) (no_name n wfs h)

      at :
          (m : Option WorkflowRow)
          → get_by_name owner_id n w ≡ m
          → catalog left owner_id n ≡ catalog w owner_id n
      at none found = ap shown (left_none owner_id n missed found ∙ sym found)
      at (some x) found =
          ap shown (left_other owner_id n missed x found (Goes-gone n x found kept) ∙ sym found)
  left-reconciled n absent h kept = at (get_by_name owner_id n w) refl
    where
      at :
          (m : Option WorkflowRow)
          → get_by_name owner_id n w ≡ m
          → catalog left owner_id n ≡ reconciled absent (catalog w owner_id n)
      at none found =
          ap shown (
            left_none owner_id n
              (and_false (owner_id == owner_id) (has_text n (map workflow_name wfs))
                (no_name n wfs h))
              found)
          ∙ sym (ap (λ m. reconciled absent (shown m)) found)
      at (some x) found =
          left_absent n x (no_name n wfs h) kept found
          ∙ sym (ap (λ m. reconciled absent (shown m)) found)

-- If a sync succeeds on a table with its keys, the keys still hold, every name of the owner now
-- stands for what the files declare of it (the last valid definition; what stood there if all are
-- invalid; nothing if no file names it and the row came from the files; else what stood there), and
-- no row of another owner is touched.
pub sync_to_db-reconciles :
    (owner_id utcnow : ℕ) (accounts : Accounts) (desired : List Workflow)
    (on_deleted : Option (List ℕ → Jobs → Jobs)) (w : Workflows) (jobs : Jobs) {report : SyncReport}
    {w' : Workflows} {jobs' : Jobs}
    → IsKeyed w
    → sync_to_db owner_id utcnow accounts desired on_deleted (w, jobs) ≡ ok (report, w', jobs')
    → IsKeyed w'
      × ((n : String)
          → catalog w' owner_id n
            ≡ reconciled (declares owner_id accounts desired n) (catalog w owner_id n))
      × ((o : ℕ) (n : String) → (owner_id == o) ≡ false → get_by_name o n w' ≡ get_by_name o n w)
unfolding sync_to_db
sync_to_db-reconciles owner_id utcnow accounts desired on_deleted w jobs {w'} k h =
    let v = validate_all owner_id accounts desired none_validated in
    let valid = validate_all-IsValidated owner_id accounts desired none_validated in
    let existing = dict_by row_name (list_for_owner owner_id false (some yaml) w) [] in
    let (u, upserts, result) =
      >>=-ok (upsert_all owner_id utcnow (map row_name existing) v.valid_by_name w) _ h in
    let written =
      upsert_all-IsWritten owner_id utcnow (map row_name existing) v.valid_by_name w k
        (valid.unique tt) upserts in
    let table : delete_all (gone_of (keep_names v) (existing_of owner_id w)) u.workflows ≡ w' =
      ap (λ rows. delete_all (gone_of (keep_names v) rows) u.workflows)
        (sym (dict_by-existing owner_id w k))
      ∙ ap (λ t. t.1) (ok-injective result) in
    subst
      (λ t.
        IsKeyed t
        × ((n : String)
            → catalog t owner_id n
              ≡ reconciled (declares owner_id accounts desired n) (catalog w owner_id n))
        × ((o : ℕ) (n : String) → (owner_id == o) ≡ false → get_by_name o n t ≡ get_by_name o n w))
      table
      (
        delete_all-IsKeyed (gone_of (keep_names v) (existing_of owner_id w)) u.workflows
            written.keyed,
        λ n.
            left-reconciled owner_id v.valid_by_name (keep_names v) w u.workflows k written n
              (declares owner_id accounts desired n) (valid.finds n) (valid.keeps n),
        left_foreign owner_id v.valid_by_name (keep_names v) w u.workflows k written,
      )
