-- ===== src/Actions/Executor/RoundRobin.antt =====
-- The round robin of `_select_steps` in tg_conductor/actions/executor.py.
use tg_conductor.Base.{
  ℕ, zero, suc, ◌+◌, ◌-◌, ◌%◌, ◌<◌, String, ◌≡◌, refl, sym, ap, ◌∙◌, inl, inr, Bool, ◌&&◌, Option,
  none, some, List, [], ◌∷◌, arith, ◌==◌, Bool-cases, length, filter, update, first,
}
use native.Mathlib.Nat.{mod-lt}
use mathlib.Core.Path.{subst}
use tg_conductor.Workflows.Schema.{ActionStep, Variant, round_robin}
use tg_conductor.Workflows.Repo.{WorkflowRow, Workflows, get_by_id, counter_of, bump_rr_counter}
use tg_conductor.Actions.World.{Outcome, World, Backend, Act, pure, ◌>>=◌}
use tg_conductor.Actions.Executor.{variant_label, nth_variant, bump, chosen_variant, select_steps}

nth_in_range :
    (vs : List Variant) (i : ℕ) → i < length vs → (x : Variant) × (nth_variant vs i ≡ some x)
nth_in_range [] i h = absurd (omega (arith, h))
nth_in_range (v ∷ vs) zero h = (v, refl)
nth_in_range (v ∷ vs) (suc i) h = nth_in_range vs i (omega (arith, h))

abbrev applied : (WorkflowRow → WorkflowRow) → Option WorkflowRow → Option WorkflowRow
applied f none = none
applied f (some r) = some (f r)

first-filter-update :
    (p : WorkflowRow → Bool) (f : WorkflowRow → WorkflowRow)
    → ((r : WorkflowRow) → p (f r) ≡ p r)
    → (rows : List WorkflowRow)
    → first (filter p (update p f rows)) ≡ applied f (first (filter p rows))
first-filter-update p f same [] = refl
first-filter-update p f same (r ∷ rows) = elim (Bool-cases (p r)) [
  | inl e ↦ rw e (rw (same r) (rw e refl))
  | inr e ↦ rw e (rw e (first-filter-update p f same rows))
]

abbrev bumped_row : ℕ → WorkflowRow → WorkflowRow
bumped_row utcnow r = record r { rr_counter = r.rr_counter + 1; updated_at = utcnow }

bump_rr_counter_lem :
    (i o utcnow : ℕ) (w : Workflows) (row : WorkflowRow)
    → get_by_id i o w ≡ some row
    → ((bump_rr_counter i o utcnow w).0 ≡ some (row.rr_counter + 1))
      × (get_by_id i o (bump_rr_counter i o utcnow w).1 ≡ some (bumped_row utcnow row))
unfolding bump_rr_counter get_by_id
bump_rr_counter_lem i o utcnow w row h = (
  ap counter_of h,
  first-filter-update (λ r. r.id == i && r.owner_id == o) (bumped_row utcnow) (λ r. refl) w.rows
      ∙ ap (applied (bumped_row utcnow)) h,
)

module _ {T : Type 0} (b : Backend T) (utcnow : ℕ) (steps : List ActionStep) (v : Variant)
    (vs : List Variant) where
  abbrev pub selection : Act T (List ActionStep × Option String)
  selection = select_steps b utcnow steps (v ∷ vs) (some round_robin)

  -- the world after so many selections
  abbrev pub after : ℕ → World T → World T
  after zero w = w
  after (suc k) w = after k (selection w).1

  -- The selection in a world is the variant of this turn.
  abbrev pub IsTurn : ℕ → World T → Type 0
  IsTurn n w =
      (x : Variant) × (nth_variant (v ∷ vs) (n % length (v ∷ vs)) ≡ some x)
      × ((selection w).0 ≡ Outcome.done (x.steps, some (variant_label x (n % length (v ∷ vs)))))

  module _ (commits : (t : T) → (b.commit t).0 ≡ Outcome.done tt) where
    selection_eq :
        (w : World T) (row : WorkflowRow)
        → get_by_id w.ctx.workflow_id w.ctx.owner_id w.workflows ≡ some row
        → selection w
          ≡ chosen_variant b
              (row.rr_counter % length (v ∷ vs))
              (nth_variant (v ∷ vs) (row.rr_counter % length (v ∷ vs)))
              (record w {
                workflows = (bump_rr_counter w.ctx.workflow_id w.ctx.owner_id utcnow w.workflows).1;
                outside = (b.commit w.outside).1;
              })
    unfolding select_steps bump ◌>>=◌
    selection_eq w row h =
        let counted =
          (bump_rr_counter_lem w.ctx.workflow_id w.ctx.owner_id utcnow w.workflows row h).0 in
        let minus : (row.rr_counter + 1) - 1 ≡ row.rr_counter = omega arith in
        rw (commits w.outside) (rw counted (rw minus refl))

    abbrev advanced : World T → World T
    advanced w = record w {
      workflows = (bump_rr_counter w.ctx.workflow_id w.ctx.owner_id utcnow w.workflows).1;
      outside = (b.commit w.outside).1;
    }

    one-IsTurn :
        (w : World T) (row : WorkflowRow)
        → get_by_id w.ctx.workflow_id w.ctx.owner_id w.workflows ≡ some row
        → IsTurn row.rr_counter w × ((selection w).1 ≡ advanced w)
    unfolding pure
    one-IsTurn w row h =
        let index : ℕ = row.rr_counter % length (v ∷ vs) in
        let found = nth_in_range (v ∷ vs) index (mod-lt row.rr_counter (omega arith)) in
        let chosen =
          selection_eq w row h
          ∙ ap (λ (o : Option Variant). chosen_variant b index o (advanced w)) found.1 in
        ((found.0, found.1, ap (λ p. p.0) chosen), ap (λ p. p.1) chosen)

    -- If every transaction commits and the workflow is there, its selections take turns: the one after
    -- `k` others is the variant at the row's counter plus `k`, modulo the number of variants, which is
    -- in range, with its label.
    pub round_robin_turns :
        (k : ℕ) (w : World T) (row : WorkflowRow)
        → get_by_id w.ctx.workflow_id w.ctx.owner_id w.workflows ≡ some row
        → IsTurn (row.rr_counter + k) (after k w)
    round_robin_turns zero w row h =
        let same : row.rr_counter + 0 ≡ row.rr_counter = omega arith in
        rw same (one-IsTurn w row h).0
    round_robin_turns (suc k) w row h =
        let next =
          (bump_rr_counter_lem w.ctx.workflow_id w.ctx.owner_id utcnow w.workflows row h).1 in
        let shift : (row.rr_counter + 1) + k ≡ row.rr_counter + suc k = omega arith in
        subst (λ (n : ℕ). IsTurn n (after k (selection w).1)) shift
          (subst (λ (u : World T). IsTurn ((row.rr_counter + 1) + k) (after k u))
            (sym (one-IsTurn w row h).1)
            (round_robin_turns k (advanced w) (bumped_row utcnow row) next))
