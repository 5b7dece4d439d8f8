-- ===== src/Base/Lists/Find.antt =====
-- `scalar_one_or_none` of a SELECT: the first row that passes its WHERE, through writes.
use mathlib.Core.Path.{◌≡◌, refl, ◌∙◌}
use mathlib.Core.Logic.{◌≢◌, inl, inr}
use mathlib.Core.Bool.{Bool, true, false, not, ◌&&◌}
use mathlib.Core.Option.{Option, none, some}
use mathlib.Core.List.{List, [], ◌∷◌, ◌++◌}
use native.Mathlib.Omega.{arith}
use tg_conductor.Base.Tests.{if◌then◌else◌, Bool-cases}
use tg_conductor.Base.Lists.Measure.{All}
use tg_conductor.Base.Lists.Table.{filter, update}

abbrev pub first {ℓ} : {A : Type ℓ} → List A → Option A
first [] = none
first (x ∷ xs) = some x

module _ {ℓ} {A : Type ℓ} where
  abbrev pub mapped : (A → A) → Option A → Option A
  mapped f none = none
  mapped f (some x) = some (f x)

  abbrev pub otherwise : Option A → Option A → Option A
  otherwise none y = y
  otherwise (some x) y = some x

  pub first-filter-append :
      (p : A → Bool) (xs ys : List A)
      → first (filter p (xs ++ ys)) ≡ otherwise (first (filter p xs)) (first (filter p ys))
  first-filter-append p [] ys = refl
  first-filter-append p (x ∷ xs) ys = elim (Bool-cases (p x)) [
    | inl e ↦ rw e refl
    | inr e ↦ rw e (first-filter-append p xs ys)
  ]

  pub first-filter-All :
      (p : A → Bool) (xs : List A) → first (filter p xs) ≡ none → All (λ x. p x ≡ false) xs
  first-filter-All p [] h = tt
  first-filter-All p (x ∷ xs) h = elim (Bool-cases (p x)) [
    | inl e ↦ absurd (step (rw e at h))
    | inr e ↦ (e, first-filter-All p xs (rw e at h))
  ]
    where
      step : {y : A} → some y ≢ none
      step h = cc

  pub All-first-filter :
      (p : A → Bool) (xs : List A) → All (λ x. p x ≡ false) xs → first (filter p xs) ≡ none
  All-first-filter p [] h = refl
  All-first-filter p (x ∷ xs) h = rw h.0 (All-first-filter p xs h.1)

  -- An UPDATE that leaves the test alone.
  pub first-filter-update :
      (p q : A → Bool) (f : A → A)
      → ((x : A) → p (f x) ≡ p x)
      → (xs : List A)
      → first (filter p (update q f xs))
        ≡ mapped (λ x. if q x then f x else x) (first (filter p xs))
  first-filter-update p q f same [] = refl
  first-filter-update p q f same (x ∷ xs) = elim (Bool-cases (p x)) [
    | inl e ↦ rw (kept e) (rw e refl)
    | inr e ↦ later (q x) e (first-filter-update p q f same xs)
  ]
    where
      kept : p x ≡ true → p (if q x then f x else x) ≡ true
      kept e = elim (q x) as (λ b. p (if b then f x else x) ≡ true) [
        | true ↦ same x ∙ e
        | false ↦ e
      ]

      later :
          (b : Bool)
          → p x ≡ false
          → first (filter p (update q f xs))
            ≡ mapped (λ x. if q x then f x else x) (first (filter p xs))
          → first (filter p ((if b then f x else x) ∷ update q f xs))
            ≡ mapped (λ x. if q x then f x else x) (first (filter p (x ∷ xs)))
      later true e ih = rw (same x) (rw e ih)
      later false e ih = rw e ih

  pub first-filter_kept :
      (p q : A → Bool) (xs : List A)
      → All (λ x. p x && not (q x) ≡ false) xs
      → first (filter p (filter q xs)) ≡ first (filter p xs)
  first-filter_kept p q [] h = refl
  first-filter_kept p q (x ∷ xs) h = elim (Bool-cases (q x)) [
    | inl e ↦ rw e (shared (p x) (first-filter_kept p q xs h.1))
    | inr e ↦ rw e (rw (absent e h.0) (first-filter_kept p q xs h.1))
  ]
    where
      absent : q x ≡ false → p x && not (q x) ≡ false → p x ≡ false
      absent e m = ground arith

      shared :
          (b : Bool)
          → first (filter p (filter q xs)) ≡ first (filter p xs)
          → first (if b then x ∷ filter p (filter q xs) else filter p (filter q xs))
            ≡ first (if b then x ∷ filter p xs else filter p xs)
      shared true ih = refl
      shared false ih = ih
