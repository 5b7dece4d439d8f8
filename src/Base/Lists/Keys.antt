-- ===== src/Base/Lists/Keys.antt =====
-- Rows with a primary key: no two rows share it, and what `key IN (SELECT key ...)` selects.
use Prim.Native.Nat.{ℕ, zero, suc, ◌+◌, ◌≤◌}
use mathlib.Core.Path.{◌≡◌, refl, sym, ap, ◌∙◌}
use mathlib.Core.Logic.{◌≢◌, inl, inr}
use mathlib.Core.Bool.{Bool, true, false, ◌||◌}
use mathlib.Core.List.{List, [], ◌∷◌, map}
use native.Mathlib.Omega.{arith}
use tg_conductor.Base.Tests.{leb, ◌==◌, if◌then◌else◌, Bool-cases}
use tg_conductor.Base.Lists.Measure.{length, take, All, All-map_weaken, elem}
use tg_conductor.Base.Lists.Table.{filter, update}
use tg_conductor.Base.Lists.Sort.{insert_by, sort_by, IsSortedBy, All-insert_by, All-sort_by}

module _ {ℓ} {A : Type ℓ} (key : A → ℕ) where
  abbrev pub Fresh : ℕ → List A → Type 0
  Fresh i = All (λ r. key r ≢ i)

  abbrev pub Distinct : List A → Type 0
  Distinct [] = Unit
  Distinct (x ∷ xs) = Fresh (key x) xs × Distinct xs

  -- An UPDATE that leaves the key alone.
  pub Fresh-update :
      (p : A → Bool) (f : A → A)
      → ((r : A) → key (f r) ≡ key r)
      → (i : ℕ) (xs : List A) → Fresh i xs
      → Fresh i (update p f xs)
  Fresh-update p f same i [] h = tt
  Fresh-update p f same i (x ∷ xs) h = (
    elim (p x) as (λ b. key (if b then f x else x) ≢ i) [ true ↦ rw (same x) h.0 | false ↦ h.0 ],
    Fresh-update p f same i xs h.1,
  )

  pub Distinct-update :
      (p : A → Bool) (f : A → A)
      → ((r : A) → key (f r) ≡ key r)
      → (xs : List A) → Distinct xs
      → Distinct (update p f xs)
  Distinct-update p f same [] h = tt
  Distinct-update p f same (x ∷ xs) h = (
    elim (p x) as (λ b. Fresh (key (if b then f x else x)) (update p f xs)) [
      | true ↦ rw (same x) (Fresh-update p f same (key x) xs h.0)
      | false ↦ Fresh-update p f same (key x) xs h.0
    ],
    Distinct-update p f same xs h.1,
  )

  pub elem-take :
      (i n : ℕ) (xs : List A) → elem i (map key (take n xs)) ≡ true → elem i (map key xs) ≡ true
  elem-take i zero xs h = absurd (ground arith)
  elem-take i (suc n) [] h = absurd (ground arith)
  elem-take i (suc n) (x ∷ xs) h = ground (arith, elem-take i n xs)

  elem-insert_by :
      (k : A → ℕ) (i : ℕ) (x : A) (xs : List A)
      → elem i (map key (insert_by k x xs)) ≡ (i == key x || elem i (map key xs))
  elem-insert_by k i x [] = refl
  elem-insert_by k i x (y ∷ ys) = ground (arith, elem-insert_by k i x ys)

  pub elem-sort_by :
      (k : A → ℕ) (i : ℕ) (xs : List A) → elem i (map key (sort_by k xs)) ≡ elem i (map key xs)
  elem-sort_by k i [] = refl
  elem-sort_by k i (x ∷ xs) =
      elem-insert_by k i x (sort_by k xs) ∙ ap (λ b. i == key x || b) (elem-sort_by k i xs)

  elem-filter-Fresh :
      (p : A → Bool) (i : ℕ) (xs : List A) → Fresh i xs → elem i (map key (filter p xs)) ≡ false
  elem-filter-Fresh p i [] h = refl
  elem-filter-Fresh p i (x ∷ xs) h = ground (arith, elem-filter-Fresh p i xs h.1, h.0)

  elem-filter_cons :
      (p : A → Bool) (x : A) (xs : List A) (r : A)
      → key r ≢ key x
      → (elem (key r) (map key (filter p xs)) ≡ true → p r ≡ true)
      → elem (key r) (map key (filter p (x ∷ xs))) ≡ true
      → p r ≡ true
  elem-filter_cons p x xs r ne ih h = ground arith

  -- With distinct keys, a row whose key a SELECT returned is the row that it selected.
  pub key_of_filter :
      (p : A → Bool) (xs : List A)
      → Distinct xs
      → All (λ r. elem (key r) (map key (filter p xs)) ≡ true → p r ≡ true) xs
  key_of_filter p [] h = tt
  key_of_filter p (x ∷ xs) h = (
    λ e. ground (arith, elem-filter-Fresh p (key x) xs h.0),
    step xs h.0 (key_of_filter p xs h.1),
  )
    where
      step :
          (ys : List A)
          → Fresh (key x) ys
          → All (λ r. elem (key r) (map key (filter p xs)) ≡ true → p r ≡ true) ys
          → All (λ r. elem (key r) (map key (filter p (x ∷ xs))) ≡ true → p r ≡ true) ys
      step [] f ih = tt
      step (y ∷ ys) f ih = (elem-filter_cons p x xs y f.0 ih.0, step ys f.1 ih.1)

  one_of_key : (i : ℕ) (xs : List A) → Fresh i xs → length (filter (λ r. key r == i) xs) ≡ 0
  one_of_key i [] h = refl
  one_of_key i (x ∷ xs) h = ground (arith, one_of_key i xs h.1, h.0)

  at_most_one : (i : ℕ) (xs : List A) → Distinct xs → length (filter (λ r. key r == i) xs) ≤ 1
  at_most_one i [] h = omega arith
  at_most_one i (x ∷ xs) h = elim (Bool-cases (key x == i)) [
    | inl e ↦
        let same : key x ≡ i = ground arith in
        rw e (omega (arith, one_of_key i xs (rw same at h.0)))
    | inr e ↦ rw e (at_most_one i xs h.1)
  ]

  filter_or :
      (p q : A → Bool) (xs : List A)
      → length (filter (λ r. p r || q r) xs) ≤ length (filter p xs) + length (filter q xs)
  filter_or p q [] = omega arith
  filter_or p q (x ∷ xs) = ground (arith, filter_or p q xs)

  none_of_nil : (xs : List A) → length (filter (λ r. elem (key r) []) xs) ≡ 0
  none_of_nil [] = refl
  none_of_nil (x ∷ xs) = none_of_nil xs

  -- No more rows than keys that are asked for.
  pub length-filter-elem :
      (ids : List ℕ) (xs : List A)
      → Distinct xs
      → length (filter (λ r. elem (key r) ids) xs) ≤ length ids
  length-filter-elem [] xs h = omega (arith, none_of_nil xs)
  length-filter-elem (i ∷ ids) xs h = omega (
    arith,
    filter_or (λ r. key r == i) (λ r. elem (key r) ids) xs,
    at_most_one i xs h,
    length-filter-elem ids xs h,
  )

  -- What a LIMIT cuts off a sorted list is no smaller than what it keeps.
  pub take-le_rest :
      (k : A → ℕ) (n : ℕ) (xs : List A)
      → IsSortedBy k xs
      → All (λ r. elem (key r) (map key (take n xs)) ≡ false → All (λ c. k c ≤ k r) (take n xs)) xs
  take-le_rest k zero xs h = nothing xs
    where
      nothing : (ys : List A) → All (λ r. elem (key r) [] ≡ false → Unit {0}) ys
      nothing [] = tt
      nothing (y ∷ ys) = (λ _. tt, nothing ys)
  take-le_rest k (suc n) [] h = tt
  take-le_rest k (suc n) (x ∷ xs) h =
      (λ e. absurd (ground arith), step xs h.0 (take-le_rest k n xs h.1))
    where
      step :
          (ys : List A)
          → All (λ y. k x ≤ k y) ys
          → All
              (λ r. elem (key r) (map key (take n xs)) ≡ false → All (λ c. k c ≤ k r) (take n xs))
              ys
          → All
              (λ r.
                elem (key r) (map key (take (suc n) (x ∷ xs))) ≡ false
                → All (λ c. k c ≤ k r) (take (suc n) (x ∷ xs)))
              ys
      step [] f ih = tt
      step (y ∷ ys) f ih = (λ e. (f.0, ih.0 (ground arith)), step ys f.1 ih.1)

module _ {ℓ} {A : Type ℓ} (key k : A → ℕ) where
  Distinct-insert_by :
      (x : A) (xs : List A)
      → Fresh key (key x) xs
      → Distinct key xs
      → Distinct key (insert_by k x xs)
  Distinct-insert_by x [] f h = (tt, tt)
  Distinct-insert_by x (y ∷ ys) f h = elim (Bool-cases (leb (k x) (k y))) [
    | inl e ↦ rw e (f, h)
    | inr e ↦ rw e (
      All-insert_by k (λ r. key r ≢ key y) x ys (λ p. f.0 (sym p)) h.0,
      Distinct-insert_by x ys f.1 h.1,
    )
  ]

  pub Distinct-sort_by : (xs : List A) → Distinct key xs → Distinct key (sort_by k xs)
  Distinct-sort_by [] h = tt
  Distinct-sort_by (x ∷ xs) h =
      Distinct-insert_by x (sort_by k xs) (All-sort_by k (λ r. key r ≢ key x) xs h.0)
        (Distinct-sort_by xs h.1)

module _ {ℓ} {A : Type ℓ} (key : A → ℕ) where
  pub Distinct-filter : (p : A → Bool) (xs : List A) → Distinct key xs → Distinct key (filter p xs)
  Distinct-filter p [] h = tt
  Distinct-filter p (x ∷ xs) h = elim (Bool-cases (p x)) [
    | inl e ↦ rw e (All-filter_keep (λ r. key r ≢ key x) xs h.0, Distinct-filter p xs h.1)
    | inr e ↦ rw e (Distinct-filter p xs h.1)
  ]
    where
      All-filter_keep : (P : A → Type 0) (ys : List A) → All P ys → All P (filter p ys)
      All-filter_keep P [] h = tt
      All-filter_keep P (y ∷ ys) h = elim (Bool-cases (p y)) [
        | inl e ↦ rw e (h.0, All-filter_keep P ys h.1)
        | inr e ↦ rw e (All-filter_keep P ys h.1)
      ]

  elem-head_ne : (i j : ℕ) (js : List ℕ) → i ≢ j → elem i (j ∷ js) ≡ true → elem i js ≡ true
  elem-head_ne i j js ne h = ground arith

  -- Every row's key is among the keys of the rows.
  pub elem_self : (xs : List A) → All (λ r. elem (key r) (map key xs) ≡ true) xs
  elem_self [] = tt
  elem_self (x ∷ xs) = (
    ground arith,
    All-map_weaken (λ r. elem (key r) (map key xs) ≡ true)
        (λ r. elem (key r) (map key (x ∷ xs)) ≡ true) (λ r h. ground arith) xs (elem_self xs),
  )

  -- With distinct keys, a row whose key a LIMIT kept is the row that it kept.
  pub key_of_take :
      (P : A → Type 0) (n : ℕ) (xs : List A)
      → Distinct key xs
      → All P (take n xs)
      → All (λ r. elem (key r) (map key (take n xs)) ≡ true → P r) xs
  key_of_take P zero xs d h = nothing xs
    where
      nothing : (ys : List A) → All (λ r. elem (key r) [] ≡ true → P r) ys
      nothing [] = tt
      nothing (y ∷ ys) = ((λ e. cc), nothing ys)
  key_of_take P (suc n) [] d h = tt
  key_of_take P (suc n) (x ∷ xs) d h = ((λ _. h.0), step xs d.0 (key_of_take P n xs d.1 h.1))
    where
      step :
          (ys : List A)
          → Fresh key (key x) ys
          → All (λ r. elem (key r) (map key (take n xs)) ≡ true → P r) ys
          → All (λ r. elem (key r) (map key (take (suc n) (x ∷ xs))) ≡ true → P r) ys
      step [] f ih = tt
      step (y ∷ ys) f ih =
          ((λ e. ih.0 (elem-head_ne (key y) (key x) (map key (take n xs)) f.0 e)), step ys f.1 ih.1)
