-- ===== src/Base/Lists/Lookup.antt =====
-- Lookups by a key in rows of which no two share it.
use Prim.Native.Nat.{ℕ}
use mathlib.Core.Path.{◌≡◌, refl, sym, ap, ◌∙◌}
use mathlib.Core.Logic.{inl, inr}
use mathlib.Core.Bool.{Bool, true, false}
use mathlib.Core.Option.{Option, none, some, some-injective}
use mathlib.Core.List.{List, [], ◌∷◌}
use mathlib.Core.Path.{subst}
use tg_conductor.Base.Tests.{leb, if◌then◌else◌, Bool-cases}
use tg_conductor.Base.Lists.Measure.{All, All-map_weaken}
use tg_conductor.Base.Lists.Table.{filter}
use tg_conductor.Base.Lists.Sort.{insert_by, sort_by, All-insert_by, All-sort_by}
use tg_conductor.Base.Lists.Find.{first, All-first-filter}
use tg_conductor.Base.Lists.Constraints.{Unique, All-filter-All}

module _ {ℓ} {A : Type ℓ} where
  abbrev pub keep_if : (A → Bool) → Option A → Option A
  keep_if q none = none
  keep_if q (some x) = if q x then some x else none

  -- What is found passes the test, and has whatever all rows have.
  pub All-first :
      (P : A → Type 0) (p : A → Bool) (xs : List A) {x : A}
      → first (filter p xs) ≡ some x
      → All P xs
      → P x × (p x ≡ true)
  All-first P p [] h a = absurd cc
  All-first P p (y ∷ ys) {x} h a = elim (Bool-cases (p y)) [
    | inl e ↦
        let same : y ≡ x = some-injective y x (rw e at h) in
        subst (λ z. P z × (p z ≡ true)) same (a.0, e)
    | inr e ↦ All-first P p ys (rw e at h) a.1
  ]

  nothing : (xs : List A) → All (λ x. Unit {0}) xs
  nothing [] = tt
  nothing (x ∷ xs) = (tt, nothing xs)

  pub first-passes :
      (p : A → Bool) (xs : List A) {x : A} → first (filter p xs) ≡ some x → p x ≡ true
  first-passes p xs h = (All-first (λ x. Unit {0}) p xs h (nothing xs)).1

module _ {ℓ} {A : Type ℓ} (same : A → A → Bool) where
  no : false ≡ true → ⊥
  no h = cc

  -- Two lookups that find rows with one key find one row.
  pub first-same :
      ((x y : A) → same x y ≡ same y x)
      → (p q : A → Bool) (xs : List A) {x y : A} → Unique same xs
      → first (filter p xs) ≡ some x
      → first (filter q xs) ≡ some y
      → same x y ≡ true
      → x ≡ y
  first-same symmetric p q [] u h k s = absurd cc
  first-same symmetric p q (z ∷ zs) {x} {y} u h k s = elim (Bool-cases (p z)) [
    | inl e ↦ elim (Bool-cases (q z)) [
      | inl f ↦ sym (some-injective z x (rw e at h)) ∙ some-injective z y (rw f at k)
      | inr f ↦
          let zx : z ≡ x = some-injective z x (rw e at h) in
          let zy = (All-first (λ r. same z r ≡ false) q zs (rw f at k) u.0).0 in
          absurd (no (sym zy ∙ ap (λ r. same r y) zx ∙ s))
    ]
    | inr e ↦ elim (Bool-cases (q z)) [
      | inl f ↦
          let zy : z ≡ y = some-injective z y (rw f at k) in
          let zx = (All-first (λ r. same z r ≡ false) p zs (rw e at h) u.0).0 in
          absurd (no (sym zx ∙ symmetric z x ∙ ap (same x) zy ∙ s))
      | inr f ↦ first-same symmetric p q zs u.1 (rw e at h) (rw f at k) s
    ]
  ]

  -- A DELETE, where at most one row passes the test of the lookup.
  pub first-filter-filter :
      (p q : A → Bool)
      → ((x y : A) → p x ≡ true → p y ≡ true → same x y ≡ true)
      → (xs : List A) → Unique same xs
      → first (filter p (filter q xs)) ≡ keep_if q (first (filter p xs))
  first-filter-filter p q sole [] u = refl
  first-filter-filter p q sole (x ∷ xs) u = elim (Bool-cases (p x)) [
    | inl e ↦ rw e (hit (q x) e (rest e))
    | inr e ↦ miss (q x) e (first-filter-filter p q sole xs u.1)
  ]
    where
      others : p x ≡ true → (y : A) → same x y ≡ false → p y ≡ false
      others e y f = elim (Bool-cases (p y)) [
        | inl t ↦ absurd (no (sym f ∙ sole x y e t))
        | inr t ↦ t
      ]

      rest : p x ≡ true → first (filter p (filter q xs)) ≡ none
      rest e = All-first-filter p (filter q xs) (
          All-filter-All same (λ y. p y ≡ false) q xs
            (All-map_weaken (λ y. same x y ≡ false) (λ y. p y ≡ false) (others e) xs u.0))

      hit :
          (b : Bool)
          → p x ≡ true
          → first (filter p (filter q xs)) ≡ none
          → first (filter p (if b then x ∷ filter q xs else filter q xs))
            ≡ (if b then some x else none)
      hit true e h = rw e refl
      hit false e h = h

      miss :
          (b : Bool)
          → p x ≡ false
          → first (filter p (filter q xs)) ≡ keep_if q (first (filter p xs))
          → first (filter p (if b then x ∷ filter q xs else filter q xs))
            ≡ keep_if q (first (filter p (x ∷ xs)))
      miss true e ih = rw e ih
      miss false e ih = rw e ih

module _ {ℓ} {A : Type ℓ} (same : A → A → Bool) (k : A → ℕ) where
  Unique-insert_by :
      ((x y : A) → same x y ≡ same y x)
      → (x : A) (xs : List A) → All (λ y. same x y ≡ false) xs
      → Unique same xs
      → Unique same (insert_by k x xs)
  Unique-insert_by symmetric x [] f h = (tt, tt)
  Unique-insert_by symmetric x (y ∷ ys) f h = elim (Bool-cases (leb (k x) (k y))) [
    | inl e ↦ rw e (f, h)
    | inr e ↦ rw e (
      All-insert_by k (λ r. same y r ≡ false) x ys (symmetric y x ∙ f.0) h.0,
      Unique-insert_by symmetric x ys f.1 h.1,
    )
  ]

  pub Unique-sort_by :
      ((x y : A) → same x y ≡ same y x)
      → (xs : List A) → Unique same xs
      → Unique same (sort_by k xs)
  Unique-sort_by symmetric [] h = tt
  Unique-sort_by symmetric (x ∷ xs) h =
      Unique-insert_by symmetric x (sort_by k xs) (All-sort_by k (λ r. same x r ≡ false) xs h.0)
        (Unique-sort_by symmetric xs h.1)
