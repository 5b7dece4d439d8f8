-- ===== src/Base/Lists/Every.antt =====
-- What holds of every row that SELECT keeps, or that UPDATE leaves.
use Prim.Native.Nat.{◌≤◌}
use mathlib.Core.Path.{◌≡◌}
use mathlib.Core.Logic.{inl, inr}
use mathlib.Core.Bool.{Bool, true}
use mathlib.Core.List.{List, [], ◌∷◌, map}
use native.Mathlib.Omega.{arith}
use tg_conductor.Base.Tests.{if◌then◌else◌, Bool-cases}
use tg_conductor.Base.Lists.Measure.{length, All}
use tg_conductor.Base.Lists.Table.{filter, update}

module _ {ℓ} {A : Type ℓ} where
  pub length-filter_mono :
      (p q : A → Bool)
      → ((r : A) → p r ≡ true → q r ≡ true)
      → (xs : List A) → length (filter p xs) ≤ length (filter q xs)
  length-filter_mono p q h [] = omega arith
  length-filter_mono p q h (x ∷ xs) = ground (arith, h x, length-filter_mono p q h xs)

module _ {ℓ κ} {A : Type ℓ} where
  pub filter-All :
      (p : A → Bool) (P : A → Type κ) (xs : List A)
      → All P (filter p xs)
      → All (λ r. p r ≡ true → P r) xs
  filter-All p P [] h = tt
  filter-All p P (x ∷ xs) h = elim (Bool-cases (p x)) [
    | inl e ↦
        let h' : P x × All P (filter p xs) = rw e at h in ((λ _. h'.0), filter-All p P xs h'.1)
    | inr e ↦ let h' : All P (filter p xs) = rw e at h in ((λ t. cc), filter-All p P xs h')
  ]

  -- What holds of the rows that pass a test holds of what a SELECT with it returns.
  pub All-filter_of :
      (p : A → Bool) (P : A → Type κ) (xs : List A)
      → All (λ r. p r ≡ true → P r) xs
      → All P (filter p xs)
  All-filter_of p P [] h = tt
  All-filter_of p P (x ∷ xs) h = elim (Bool-cases (p x)) [
    | inl e ↦ rw e (h.0 e, All-filter_of p P xs h.1)
    | inr e ↦ rw e (All-filter_of p P xs h.1)
  ]

module _ {ℓ κ μ} {A : Type ℓ} {B : Type μ} where
  pub All-map :
      (f : A → B) (P : B → Type κ) (xs : List A) → All (λ x. P (f x)) xs → All P (map f xs)
  All-map f P [] h = tt
  All-map f P (x ∷ xs) h = (h.0, All-map f P xs h.1)

module _ {ℓ κ} {A : Type ℓ} where
  -- What holds of the rows as an UPDATE leaves them holds of the updated table.
  pub update-All :
      (p : A → Bool) (f : A → A) (Q : A → Type κ) (xs : List A)
      → All (λ r. Q (if p r then f r else r)) xs
      → All Q (update p f xs)
  update-All p f Q [] h = tt
  update-All p f Q (x ∷ xs) h = (h.0, update-All p f Q xs h.1)

  pub All-both : (P Q : A → Type κ) (xs : List A) → All P xs → All Q xs → All (λ x. P x × Q x) xs
  All-both P Q [] h k = tt
  All-both P Q (x ∷ xs) h k = ((h.0, k.0), All-both P Q xs h.1 k.1)

  pub All-update :
      (p : A → Bool) (f : A → A) (Q : A → Type κ) (xs : List A)
      → All Q (update p f xs)
      → All (λ r. Q (if p r then f r else r)) xs
  All-update p f Q [] h = tt
  All-update p f Q (x ∷ xs) h = (h.0, All-update p f Q xs h.1)
