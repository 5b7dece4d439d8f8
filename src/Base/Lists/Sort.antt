-- ===== src/Base/Lists/Sort.antt =====
-- A stable insertion sort by a numeric key: `ORDER BY key` with ties in table order.
use Prim.Native.Nat.{ℕ, suc, ◌≤◌}
use mathlib.Core.Path.{◌≡◌, refl, ap, ◌∙◌}
use mathlib.Core.Bool.{true, false}
use mathlib.Core.List.{List, [], ◌∷◌}
use mathlib.Core.Logic.{inl, inr}
use native.Mathlib.Omega.{arith}
use tg_conductor.Base.Tests.{leb, if◌then◌else◌, Bool-cases, leb→le, not_leb→lt}
use tg_conductor.Base.Lists.Measure.{length, All, All-map_weaken}

module _ {ℓ} {A : Type ℓ} (key : A → ℕ) where
  abbrev pub insert_by : A → List A → List A
  insert_by x [] = x ∷ []
  insert_by x (y ∷ ys) =
      let rest = insert_by x ys in if leb (key x) (key y) then x ∷ y ∷ ys else y ∷ rest

  abbrev pub sort_by : List A → List A
  sort_by [] = []
  sort_by (x ∷ xs) = insert_by x (sort_by xs)

  -- ORDER BY ... DESC
  abbrev pub insert_desc : A → List A → List A
  insert_desc x [] = x ∷ []
  insert_desc x (y ∷ ys) =
      let rest = insert_desc x ys in if leb (key y) (key x) then x ∷ y ∷ ys else y ∷ rest

  abbrev pub sort_desc : List A → List A
  sort_desc [] = []
  sort_desc (x ∷ xs) = insert_desc x (sort_desc xs)

  abbrev pub IsSortedBy : List A → Type 0
  IsSortedBy [] = Unit
  IsSortedBy (x ∷ xs) = All (λ y. key x ≤ key y) xs × IsSortedBy xs

  pub length-insert_by : (x : A) (xs : List A) → length (insert_by x xs) ≡ suc (length xs)
  length-insert_by x [] = refl
  length-insert_by x (y ∷ ys) = ground (arith, length-insert_by x ys)

  pub length-sort_by : (xs : List A) → length (sort_by xs) ≡ length xs
  length-sort_by [] = refl
  length-sort_by (x ∷ xs) = length-insert_by x (sort_by xs) ∙ ap suc (length-sort_by xs)

  All-le_trans :
      (x y : A) (ys : List A)
      → key x ≤ key y
      → All (λ z. key y ≤ key z) ys
      → All (λ z. key x ≤ key z) ys
  All-le_trans x y ys h =
      All-map_weaken (λ z. key y ≤ key z) (λ z. key x ≤ key z) (λ z k. omega arith) ys

module _ {ℓ κ} {A : Type ℓ} (key : A → ℕ) (P : A → Type κ) where
  pub All-insert_by : (x : A) (xs : List A) → P x → All P xs → All P (insert_by key x xs)
  All-insert_by x [] h hs = (h, tt)
  All-insert_by x (y ∷ ys) h hs =
      elim (leb (key x) (key y))
        as (λ b. All P (if b then x ∷ y ∷ ys else y ∷ insert_by key x ys)) [
          | true ↦ (h, hs)
          | false ↦ (hs.0, All-insert_by x ys h hs.1)
        ]

  pub All-sort_by : (xs : List A) → All P xs → All P (sort_by key xs)
  All-sort_by [] h = tt
  All-sort_by (x ∷ xs) h = All-insert_by x (sort_by key xs) h.0 (All-sort_by xs h.1)

  pub insert_by-All : (x : A) (xs : List A) → All P (insert_by key x xs) → P x × All P xs
  insert_by-All x [] h = (h.0, tt)
  insert_by-All x (y ∷ ys) h = elim (Bool-cases (leb (key x) (key y))) [
    | inl e ↦ rw e at h
    | inr e ↦
        let h' : P y × All P (insert_by key x ys) = rw e at h in
        let ih = insert_by-All x ys h'.1 in (ih.0, (h'.0, ih.1))
  ]

  pub sort_by-All : (xs : List A) → All P (sort_by key xs) → All P xs
  sort_by-All [] h = tt
  sort_by-All (x ∷ xs) h =
      let split = insert_by-All x (sort_by key xs) h in (split.0, sort_by-All xs split.1)

module _ {ℓ} {A : Type ℓ} (key : A → ℕ) where
  insert_by-IsSortedBy :
      (x : A) (xs : List A) → IsSortedBy key xs → IsSortedBy key (insert_by key x xs)
  insert_by-IsSortedBy x [] h = (tt, tt)
  insert_by-IsSortedBy x (y ∷ ys) h = elim (Bool-cases (leb (key x) (key y))) [
    | inl le ↦
        rw le (
          ((leb→le (key x) (key y) le), All-le_trans key x y ys (leb→le (key x) (key y) le) h.0),
          h,
        )
    | inr gt ↦ rw gt (
      All-insert_by key (λ z. key y ≤ key z) x ys (omega (arith, not_leb→lt (key x) (key y) gt))
          h.0,
      insert_by-IsSortedBy x ys h.1,
    )
  ]

  pub sort_by-IsSortedBy : (xs : List A) → IsSortedBy key (sort_by key xs)
  sort_by-IsSortedBy [] = tt
  sort_by-IsSortedBy (x ∷ xs) = insert_by-IsSortedBy x (sort_by key xs) (sort_by-IsSortedBy xs)
