-- ===== src/Base/Lists/Constraints.antt =====
-- Rows of which no two are the same under a test, as a UNIQUE constraint asks.
use Prim.Native.Nat.{ℕ, ◌+◌, ◌<◌}
use mathlib.Core.Path.{◌≡◌, refl, ◌∙◌}
use mathlib.Core.Logic.{inl, inr}
use mathlib.Core.Bool.{Bool, true, false}
use mathlib.Core.List.{List, [], ◌∷◌, ◌++◌}
use native.Mathlib.Omega.{arith}
use tg_conductor.Base.Tests.{◌==◌, if◌then◌else◌, Bool-cases}
use tg_conductor.Base.Lists.Measure.{All, All-append, All-map_weaken}
use tg_conductor.Base.Lists.Every.{update-All}
use tg_conductor.Base.Lists.Table.{filter, update}

module _ {ℓ} {A : Type ℓ} (same : A → A → Bool) where
  abbrev pub Unique : List A → Type 0
  Unique [] = Unit
  Unique (x ∷ xs) = All (λ y. same x y ≡ false) xs × Unique xs

  All-snoc :
      (x : A) (xs : List A) (r : A)
      → All (λ y. same x y ≡ false) xs
      → same x r ≡ false
      → All (λ y. same x y ≡ false) (xs ++ r ∷ [])
  All-snoc x [] r h e = (e, tt)
  All-snoc x (y ∷ ys) r h e = (h.0, All-snoc x ys r h.1 e)

  pub Unique-append :
      (xs : List A) (r : A) → Unique xs → All (λ x. same x r ≡ false) xs → Unique (xs ++ r ∷ [])
  Unique-append [] r u h = (tt, tt)
  Unique-append (x ∷ xs) r u h = (All-snoc x xs r u.0 h.0, Unique-append xs r u.1 h.1)

  pub Unique-update :
      (p : A → Bool) (f : A → A)
      → ((x y : A) → same (f x) y ≡ same x y)
      → ((x y : A) → same x (f y) ≡ same x y)
      → (xs : List A) → Unique xs
      → Unique (update p f xs)
  Unique-update p f left right [] u = tt
  Unique-update p f left right (x ∷ xs) u =
      (others (p x) xs u.0, Unique-update p f left right xs u.1)
    where
      one :
          (b c : Bool) (y : A)
          → same x y ≡ false
          → same (if b then f x else x) (if c then f y else y) ≡ false
      one true true y h = left x (f y) ∙ right x y ∙ h
      one true false y h = left x y ∙ h
      one false true y h = right x y ∙ h
      one false false y h = h

      others :
          (b : Bool) (ys : List A)
          → All (λ y. same x y ≡ false) ys
          → All (λ y. same (if b then f x else x) y ≡ false) (update p f ys)
      others b [] h = tt
      others b (y ∷ ys) h = (one b (p y) y h.0, others b ys h.1)

  pub All-filter-All :
      (P : A → Type 0) (p : A → Bool) (xs : List A) → All P xs → All P (filter p xs)
  All-filter-All P p [] h = tt
  All-filter-All P p (x ∷ xs) h = elim (Bool-cases (p x)) [
    | inl e ↦ rw e (h.0, All-filter-All P p xs h.1)
    | inr e ↦ rw e (All-filter-All P p xs h.1)
  ]

  pub Unique-filter : (p : A → Bool) (xs : List A) → Unique xs → Unique (filter p xs)
  Unique-filter p [] u = tt
  Unique-filter p (x ∷ xs) u = elim (Bool-cases (p x)) [
    | inl e ↦ rw e (All-filter-All (λ y. same x y ≡ false) p xs u.0, Unique-filter p xs u.1)
    | inr e ↦ rw e (Unique-filter p xs u.1)
  ]

module _ {ℓ} {A : Type ℓ} (key : A → ℕ) (same : A → A → Bool) where
  -- Rows with a primary key, below the next one, and another UNIQUE constraint.
  pub record IsTable (rows : List A) (next_id : ℕ) : Type 0 where
    pub ids : Unique (λ x y. key x == key y) rows
    pub below : All (λ r. key r < next_id) rows
    pub others : Unique same rows

  pub update-IsTable :
      (p : A → Bool) (f : A → A)
      → ((r : A) → key (f r) ≡ key r)
      → ((x y : A) → same (f x) y ≡ same x y)
      → ((x y : A) → same x (f y) ≡ same x y)
      → (rows : List A) (next_id : ℕ) → IsTable rows next_id
      → IsTable (update p f rows) next_id
  update-IsTable p f keeps left right rows next_id t = record {
    ids =
        Unique-update (λ x y. key x == key y) p f (λ x y. rw (keeps x) refl)
          (λ x y. rw (keeps y) refl) rows t.ids;
    below =
        update-All p f (λ r. key r < next_id) rows
          (All-map_weaken (λ r. key r < next_id) (λ r. key (if p r then f r else r) < next_id) one
            rows t.below);
    others = Unique-update same p f left right rows t.others;
  }
    where
      one : (r : A) → key r < next_id → key (if p r then f r else r) < next_id
      one r h = elim (p r) as (λ b. key (if b then f r else r) < next_id) [
        | true ↦ rw (keeps r) h
        | false ↦ h
      ]

  pub append-IsTable :
      (rows : List A) (next_id : ℕ) (r : A)
      → IsTable rows next_id
      → key r ≡ next_id
      → All (λ x. same x r ≡ false) rows
      → IsTable (rows ++ r ∷ []) (next_id + 1)
  append-IsTable rows next_id r t n h = record {
    ids =
        Unique-append (λ x y. key x == key y) rows r t.ids
          (All-map_weaken (λ x. key x < next_id) (λ x. (key x == key r) ≡ false)
            (λ x b. ground arith) rows t.below);
    below =
        All-append (λ x. key x < next_id + 1) rows (r ∷ [])
          (All-map_weaken (λ x. key x < next_id) (λ x. key x < next_id + 1) (λ x b. omega arith)
            rows t.below)
          (omega arith, tt);
    others = Unique-append same rows r t.others h;
  }

  pub filter-IsTable :
      (p : A → Bool) (rows : List A) (next_id : ℕ)
      → IsTable rows next_id
      → IsTable (filter p rows) next_id
  filter-IsTable p rows next_id t = record {
    ids = Unique-filter (λ x y. key x == key y) p rows t.ids;
    below = All-filter-All same (λ r. key r < next_id) p rows t.below;
    others = Unique-filter same p rows t.others;
  }
