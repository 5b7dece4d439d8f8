-- ===== src/Workflows/Repo/Upsert.antt =====
-- `upsert_by_source` of tg_conductor/workflows/repo.py as a write to a table of definitions by name.
use tg_conductor.Base.{
  ℕ, ◌+◌, ◌≤◌, String, ◌≡◌, refl, sym, ap, ◌∙◌, ◌⊎◌, inl, inr, Bool, true, false, ◌&&◌, Option,
  none, some, [], ◌∷◌, ◌++◌, arith, str_eq, eq_iff, ◌==◌, if◌then◌else◌, ==_iff, Bool-cases,
  and_split, filter, update, first, mapped, otherwise, first-filter-append, first-filter-All,
  first-filter-update, ==_refl, str_eq_refl, first-passes, first-same, IsTable, update-IsTable,
  append-IsTable,
}
use mathlib.Core.Path.{subst}
use tg_conductor.Base.Result.{ok, ok-injective, err-ne-ok}
use tg_conductor.Workflows.Schema.{Trigger, ActionPlan, Workflow}
use tg_conductor.Workflows.Repo.{
  WorkflowSource, yaml, api, source_eq, WorkflowRow, Workflows, has_name, get_by_name, new_row,
  assign_row, upsert_existing, upsert_by_source,
}

abbrev pub workflow_id : WorkflowRow → ℕ
workflow_id r = r.id

abbrev pub same_name : WorkflowRow → WorkflowRow → Bool
same_name x y = has_name y.owner_id y.name x

-- The primary key, and the constraint on owner and name.
abbrev pub IsKeyed : Workflows → Type 0
IsKeyed w = IsTable workflow_id same_name w.rows w.next_id

-- A row without its bookkeeping.
pub record Entry : Type 0 where
  pub source : WorkflowSource
  pub account_id : ℕ
  pub enabled : Bool
  pub trigger : Trigger
  pub action_plan : ActionPlan

abbrev pub entry_of : WorkflowRow → Entry
entry_of r = record {
  source = r.source;
  account_id = r.account_id;
  enabled = r.enabled;
  trigger = r.trigger;
  action_plan = r.action_plan;
}

abbrev pub entry : WorkflowSource → Workflow → Entry
entry source wf = record {
  source = source;
  account_id = wf.account_id;
  enabled = wf.enabled;
  trigger = wf.trigger;
  action_plan = wf.action_plan;
}

-- A row of the table after writes is new to it, or the row of that name from before.
abbrev pub IsFrom : ℕ → String → Workflows → WorkflowRow → Type 0
IsFrom owner_id name w x =
    (w.next_id ≤ x.id)
    ⊎ ((e : WorkflowRow) × (get_by_name owner_id name w ≡ some e) × (e.id ≡ x.id))

abbrev pub Holds : ℕ → String → Entry → Workflows → Workflows → Type 0
Holds owner_id name e w w' =
    (x : WorkflowRow) × (get_by_name owner_id name w' ≡ some x)
    × (entry_of x ≡ e)
    × IsFrom owner_id name w x

pub record IsUpserted (owner_id : ℕ) (source : WorkflowSource) (wf : Workflow) (w w' : Workflows)
    : Type 0 where
  pub keyed : IsKeyed w'
  pub grows : w.next_id ≤ w'.next_id
  pub missed :
      (o : ℕ) (n : String)
      → (owner_id == o && str_eq wf.name n) ≡ false
      → get_by_name o n w' ≡ get_by_name o n w
  pub hit : Holds owner_id wf.name (entry source wf) w w'

source_eq-eq : (a b : WorkflowSource) → source_eq a b ≡ true → a ≡ b
source_eq-eq yaml yaml h = refl
source_eq-eq yaml api h = absurd (ground arith)
source_eq-eq api yaml h = absurd (ground arith)
source_eq-eq api api h = refl

-- Two lookups that find one row look for the same.
pub name_determined :
    (o : ℕ) (n : String) (o' : ℕ) (n' : String) (r : WorkflowRow)
    → has_name o n r ≡ true
    → has_name o' n' r ≡ true
    → (o' == o && str_eq n' n) ≡ true
name_determined o n o' n' r h h' =
    let (a, b) = and_split (r.owner_id == o) (str_eq r.name n) h in
    let (a', b') = and_split (r.owner_id == o') (str_eq r.name n') h' in
    let own : o' ≡ o = sym ((==_iff r.owner_id o').0 a') ∙ (==_iff r.owner_id o).0 a in
    let name : n' ≡ n = sym ((eq_iff r.name n').0 b') ∙ (eq_iff r.name n).0 b in
    rw ((==_iff o' o).1 own, (eq_iff n' n).1 name) refl

id_symmetric :
    (x y : WorkflowRow) → (workflow_id x == workflow_id y) ≡ (workflow_id y == workflow_id x)
id_symmetric x y = ground arith

-- Two lookups that find rows with one id find one row.
pub same_row :
    (p q : WorkflowRow → Bool) (w : Workflows) {x y : WorkflowRow}
    → IsKeyed w
    → first (filter p w.rows) ≡ some x
    → first (filter q w.rows) ≡ some y
    → x.id ≡ y.id
    → x ≡ y
same_row p q w {x} {y} k h g e =
    first-same (λ x y. workflow_id x == workflow_id y) id_symmetric p q w.rows k.ids h g
      ((==_iff x.id y.id).1 e)

module _ (owner_id utcnow : ℕ) (source : WorkflowSource) (wf : Workflow) (w : Workflows)
    (k : IsKeyed w) where
  added :
      get_by_name owner_id wf.name w ≡ none
      → IsUpserted owner_id source wf w (record w {
        rows = w.rows ++ new_row w.next_id utcnow owner_id source wf ∷ [];
        next_id = w.next_id + 1;
      })
  unfolding get_by_name
  added h = record {
    keyed =
        append-IsTable workflow_id same_name w.rows w.next_id row k refl
          (first-filter-All (has_name owner_id wf.name) w.rows h);
    grows = omega arith;
    missed = λ o n e.
        first-filter-append (has_name o n) w.rows (row ∷ [])
        ∙ rw e (none_after (first (filter (has_name o n) w.rows)));
    hit = (
      row,
      first-filter-append (has_name owner_id wf.name) w.rows (row ∷ [])
          ∙ rw h (rw (==_refl owner_id, str_eq_refl wf.name) refl),
      refl,
      inl (omega arith),
    );
  }
    where
      row : WorkflowRow
      row = new_row w.next_id utcnow owner_id source wf

      none_after : (o : Option WorkflowRow) → otherwise o none ≡ o
      none_after none = refl
      none_after (some x) = refl

  assigned :
      (e : WorkflowRow)
      → get_by_name owner_id wf.name w ≡ some e
      → source_eq e.source source ≡ true
      → IsUpserted owner_id source wf w
          (record w { rows = update (λ r. r.id == e.id) (assign_row utcnow wf) w.rows })
  unfolding get_by_name
  assigned e h s = record {
    keyed =
        update-IsTable workflow_id same_name (λ r. r.id == e.id) (assign_row utcnow wf) (λ r. refl)
          (λ x y. refl) (λ x y. refl) w.rows w.next_id k;
    grows = omega arith;
    missed = λ o n miss.
        first-filter-update (has_name o n) (λ r. r.id == e.id) (assign_row utcnow wf) (λ r. refl)
          w.rows
        ∙ unaffected o n miss (first (filter (has_name o n) w.rows)) refl;
    hit = (
      assign_row utcnow wf e,
      first-filter-update (has_name owner_id wf.name) (λ r. r.id == e.id) (assign_row utcnow wf)
            (λ r. refl) w.rows
          ∙ rw h (rw (==_refl e.id) refl),
      ap
          (λ c. record {
            source = c;
            account_id = wf.account_id;
            enabled = wf.enabled;
            trigger = wf.trigger;
            action_plan = wf.action_plan;
          })
          (source_eq-eq e.source source s),
      inr (e, h, refl),
    );
  }
    where
      other :
          (o : ℕ) (n : String)
          → (owner_id == o && str_eq wf.name n) ≡ false
          → (x : WorkflowRow) → first (filter (has_name o n) w.rows) ≡ some x
          → (x.id == e.id) ≡ false
      other o n miss x found = elim (Bool-cases (x.id == e.id)) [
        | inl t ↦
            let same : x ≡ e =
              same_row (has_name o n) (has_name owner_id wf.name) w k found h
                ((==_iff x.id e.id).0 t) in
            let named : has_name o n e ≡ true =
              subst (λ z. has_name o n z ≡ true) same (first-passes (has_name o n) w.rows found) in
            let hits =
              name_determined o n owner_id wf.name e named
                (first-passes (has_name owner_id wf.name) w.rows h) in
            absurd cc
        | inr f ↦ f
      ]

      unaffected :
          (o : ℕ) (n : String)
          → (owner_id == o && str_eq wf.name n) ≡ false
          → (m : Option WorkflowRow) → first (filter (has_name o n) w.rows) ≡ m
          → mapped (λ x. if x.id == e.id then assign_row utcnow wf x else x) m ≡ m
      unaffected o n miss none found = refl
      unaffected o n miss (some x) found = rw (other o n miss x found) refl

  existing-IsUpserted :
      (o : Option WorkflowRow)
      → get_by_name owner_id wf.name w ≡ o
      → {w' : Workflows} → upsert_existing o utcnow owner_id source wf w ≡ ok w'
      → IsUpserted owner_id source wf w w'
  unfolding upsert_existing
  existing-IsUpserted none h {w'} r =
      subst (IsUpserted owner_id source wf w) (ok-injective r) (added h)
  existing-IsUpserted (some e) h {w'} r = elim (Bool-cases (source_eq e.source source)) [
    | inl s ↦ subst (IsUpserted owner_id source wf w) (ok-injective (rw s at r)) (assigned e h s)
    | inr s ↦ absurd (err-ne-ok (rw s at r))
  ]

  -- After an upsert that succeeds, the name holds the definition, and no other lookup changes.
  pub upsert_by_source-IsUpserted :
      {w' : Workflows}
      → upsert_by_source utcnow owner_id source wf w ≡ ok w'
      → IsUpserted owner_id source wf w w'
  unfolding upsert_by_source
  upsert_by_source-IsUpserted r = existing-IsUpserted (get_by_name owner_id wf.name w) refl r
