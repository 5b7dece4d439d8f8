-- ===== src/Ai/Usage/Reports.antt =====
-- The reports of tg_conductor/ai/repo.py, row by row.
use tg_conductor.Base.{ℕ, ◌≡◌, refl, sym, ap, ◌∙◌, Option, List, [], ◌∷◌, arith}
use Prim.Native.Nat.{Ordering, compare}
use Prim.Native.String.{compare as compare_string}
use tg_conductor.Ai.Usage.{
  UsageRow, UsageEvents, Totals, no_usage, of_row, plus, selected, add_to, group_by, day_of,
  kind_of, aggregate_by_day, aggregate_by_kind,
}

Totals-ext :
    (a b : Totals) → a.calls ≡ b.calls → a.units ≡ b.units → a.cost_micros ≡ b.cost_micros → a ≡ b
Totals-ext a b h k l = rw (h, k, l) refl

pub plus_assoc : (a b c : Totals) → plus (plus a b) c ≡ plus a (plus b c)
plus_assoc a b c =
    Totals-ext (plus (plus a b) c) (plus a (plus b c)) (omega arith) (omega arith) (omega arith)

pub plus_comm : (a b : Totals) → plus a b ≡ plus b a
plus_comm a b = Totals-ext (plus a b) (plus b a) (omega arith) (omega arith) (omega arith)

pub plus_none : (a : Totals) → plus no_usage a ≡ a
plus_none a = Totals-ext (plus no_usage a) a (omega arith) (omega arith) (omega arith)

-- The totals of rows, and of groups.
abbrev pub usage_of : List UsageRow → Totals
usage_of [] = no_usage
usage_of (r ∷ rs) = plus (of_row r) (usage_of rs)

abbrev pub sum_of {ℓ} : {K : Type ℓ} → List (K × Totals) → Totals
sum_of [] = no_usage
sum_of ((k, t) ∷ gs) = plus t (sum_of gs)

module _ {K : Type 0} (order : K → K → Ordering) where
  sum_of-add_to :
      (k : K) (r : UsageRow) (gs : List (K × Totals))
      → sum_of (add_to order k r gs) ≡ plus (of_row r) (sum_of gs)
  sum_of-add_to k r [] = refl
  sum_of-add_to k r ((j, t) ∷ gs) =
      elim (order k j)
        as (λ o.
          sum_of (elim o [
            | Ordering.lt ↦ (k, of_row r) ∷ (j, t) ∷ gs
            | Ordering.eq ↦ (j, plus (of_row r) t) ∷ gs
            | Ordering.gt ↦ (j, t) ∷ add_to order k r gs
          ])
          ≡ plus (of_row r) (plus t (sum_of gs))) [
            | Ordering.lt ↦ refl
            | Ordering.eq ↦ plus_assoc (of_row r) t (sum_of gs)
            | Ordering.gt ↦
                ap (plus t) (sum_of-add_to k r gs)
                ∙ sym (plus_assoc t (of_row r) (sum_of gs))
                ∙ ap (λ x. plus x (sum_of gs)) (plus_comm t (of_row r))
                ∙ plus_assoc (of_row r) t (sum_of gs)
          ]

  pub sum_of-group_by :
      (key : UsageRow → K) (rs : List UsageRow) → sum_of (group_by order key rs) ≡ usage_of rs
  sum_of-group_by key [] = refl
  sum_of-group_by key (r ∷ rs) =
      sum_of-add_to (key r) r (group_by order key rs)
      ∙ ap (plus (of_row r)) (sum_of-group_by key rs)

-- Both reports of an owner over a period add up to the rows that were written in it.
pub reports_add_up :
    (owner_id : ℕ) (since until : Option ℕ) (t : UsageEvents)
    → (sum_of (aggregate_by_day owner_id since until t)
        ≡ usage_of (selected owner_id since until t))
      × (sum_of (aggregate_by_kind owner_id since until t)
          ≡ usage_of (selected owner_id since until t))
unfolding aggregate_by_day aggregate_by_kind
reports_add_up owner_id since until t = (
  sum_of-group_by compare day_of (selected owner_id since until t),
  sum_of-group_by compare_string kind_of (selected owner_id since until t),
)
