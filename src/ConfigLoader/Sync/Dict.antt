-- ===== src/ConfigLoader/Sync/Dict.antt =====
-- Dicts by name, as tg_conductor/config_loader/sync.py builds them.
use tg_conductor.Base.{
  String, ◌≡◌, refl, sym, ap, ◌∙◌, inl, inr, Bool, true, false, ◌||◌, Option, none, some, List, [],
  ◌∷◌, ◌++◌, map, arith, str_eq, eq_iff, if◌then◌else◌, Bool-cases, All, filter, update, first,
  otherwise, first-filter-append, str_eq_refl, str_cases, Unique, Unique-append,
}
use mathlib.Core.List.{append_assoc, append-nil}
use mathlib.Core.Path.{subst}
use tg_conductor.ConfigLoader.Sync.{has_text, put_by, dict_by}

pub has_text-append :
    (s : String) (xs ys : List String) → has_text s (xs ++ ys) ≡ (has_text s xs || has_text s ys)
has_text-append s [] ys = refl
has_text-append s (x ∷ xs) ys = ground (arith, has_text-append s xs ys)

-- No text twice.
abbrev pub UniqueTexts : List String → Type 0
UniqueTexts = Unique str_eq

has_text-All :
    (s : String) (xs : List String) → has_text s xs ≡ false → All (λ t. str_eq t s ≡ false) xs
has_text-All s [] h = tt
has_text-All s (x ∷ xs) h = elim (Bool-cases (str_eq x s)) [
  | inl e ↦ absurd (ground arith)
  | inr e ↦ (e, has_text-All s xs (rw e at h))
]

module _ {ℓ} {A : Type ℓ} (name : A → String) where
  abbrev pub named : String → A → Bool
  named n x = str_eq (name x) n

  map-append : (xs ys : List A) → map name (xs ++ ys) ≡ map name xs ++ map name ys
  map-append [] ys = refl
  map-append (x ∷ xs) ys = ap (λ t. name x ∷ t) (map-append xs ys)

  -- Rows of one name replaced by another of that name.
  first-replace :
      (n : String) (x : A) (d : List A)
      → first (filter (named n) (update (named (name x)) (λ _. x) d)) ≡ (
          if named n x
          then if has_text (name x) (map name d) then some x else none
          else first (filter (named n) d))
  first-replace n x [] = elim (Bool-cases (named n x)) [ inl e ↦ rw e refl | inr e ↦ rw e refl ]
  first-replace n x (y ∷ ys) = elim (str_cases (name y) (name x)) [
    | inl same ↦ replaced same (first-replace n x ys)
    | inr differs ↦ kept differs (first-replace n x ys)
  ]
    where
      replaced :
          name y ≡ name x
          → first (filter (named n) (update (named (name x)) (λ _. x) ys)) ≡ (
              if named n x
              then if has_text (name x) (map name ys) then some x else none
              else first (filter (named n) ys))
          → first (filter (named n) (update (named (name x)) (λ _. x) (y ∷ ys))) ≡ (
              if named n x
              then if has_text (name x) (map name (y ∷ ys)) then some x else none
              else first (filter (named n) (y ∷ ys)))
      replaced same ih =
          rw (same, str_eq_refl (name x))
            (elim (Bool-cases (named n x)) [ inl e ↦ rw e refl | inr e ↦ rw e (rw e at ih) ])

      apart : str_eq (name y) (name x) ≡ false → named n x ≡ true → named n y ≡ false
      apart d e = elim (str_cases (name y) n) [
        | inl f ↦
            let same : name y ≡ name x = f ∙ sym ((eq_iff (name x) n).0 e) in
            let hits = (eq_iff (name y) (name x)).1 same in absurd cc
        | inr f ↦ f
      ]

      kept :
          str_eq (name y) (name x) ≡ false
          → first (filter (named n) (update (named (name x)) (λ _. x) ys)) ≡ (
              if named n x
              then if has_text (name x) (map name ys) then some x else none
              else first (filter (named n) ys))
          → first (filter (named n) (update (named (name x)) (λ _. x) (y ∷ ys))) ≡ (
              if named n x
              then if has_text (name x) (map name (y ∷ ys)) then some x else none
              else first (filter (named n) (y ∷ ys)))
      kept d ih = rw d (elim (Bool-cases (named n x)) [
        | inl e ↦ rw (apart d e, e) (rw e at ih)
        | inr e ↦ elim (Bool-cases (named n y)) [
          | inl f ↦ rw (e, f) refl
          | inr f ↦ rw (e, f) (rw e at ih)
        ]
      ])

  pub first_absent :
      (s : String) (d : List A)
      → has_text s (map name d) ≡ false
      → first (filter (named s) d) ≡ none
  first_absent s [] h = refl
  first_absent s (y ∷ ys) h = elim (Bool-cases (str_eq (name y) s)) [
    | inl e ↦ absurd (ground arith)
    | inr e ↦ rw e (first_absent s ys (rw e at h))
  ]

  appended :
      (n : String) (x : A) (d : List A)
      → has_text (name x) (map name d) ≡ false
      → otherwise (first (filter (named n) d)) (first (filter (named n) (x ∷ [])))
        ≡ (if named n x then some x else first (filter (named n) d))
  appended n x d e = elim (Bool-cases (named n x)) [
    | inl f ↦
        let none_there =
          first_absent n d
            (subst (λ s. has_text s (map name d) ≡ false) ((eq_iff (name x) n).0 f) e) in
        rw (f, none_there) refl
    | inr f ↦ rw f (last_none (first (filter (named n) d)))
  ]
    where
      last_none : (o : Option A) → otherwise o none ≡ o
      last_none none = refl
      last_none (some y) = refl

  -- What a name finds after `d[x.name] = x`.
  pub first-put_by :
      (n : String) (x : A) (d : List A)
      → first (filter (named n) (put_by name x d))
        ≡ (if named n x then some x else first (filter (named n) d))
  first-put_by n x d = elim (Bool-cases (has_text (name x) (map name d))) [
    | inl e ↦ rw e (first-replace n x d ∙ rw e refl)
    | inr e ↦ rw e (first-filter-append (named n) d (x ∷ []) ∙ appended n x d e)
  ]

  names-replace : (x : A) (d : List A) → map name (update (named (name x)) (λ _. x) d) ≡ map name d
  names-replace x [] = refl
  names-replace x (y ∷ ys) = elim (str_cases (name y) (name x)) [
    | inl e ↦ rw (e, str_eq_refl (name x)) (ap (λ t. name x ∷ t) (names-replace x ys))
    | inr e ↦ rw e (ap (λ t. name y ∷ t) (names-replace x ys))
  ]

  pub UniqueTexts-put_by :
      (x : A) (d : List A) → UniqueTexts (map name d) → UniqueTexts (map name (put_by name x d))
  UniqueTexts-put_by x d u = elim (Bool-cases (has_text (name x) (map name d))) [
    | inl e ↦ rw e (subst UniqueTexts (sym (names-replace x d)) u)
    | inr e ↦ rw e (
        subst UniqueTexts (sym (map-append d (x ∷ [])))
          (Unique-append str_eq (map name d) (name x) u (has_text-All (name x) (map name d) e)))
  ]

  -- The names are those from before and the new one.
  pub names-put_by :
      (n : String) (x : A) (d : List A)
      → has_text n (map name (put_by name x d)) ≡ (has_text n (map name d) || named n x)
  names-put_by n x d = elim (Bool-cases (has_text (name x) (map name d))) [
    | inl e ↦ rw e (ap (has_text n) (names-replace x d) ∙ covered e)
    | inr e ↦ rw e (
        ap (has_text n) (map-append d (x ∷ []))
        ∙ has_text-append n (map name d) (name x ∷ [])
        ∙ ap (λ b. has_text n (map name d) || b) (or_false (named n x)))
  ]
    where
      or_false : (b : Bool) → (b || false) ≡ b
      or_false true = refl
      or_false false = refl

      covered :
          has_text (name x) (map name d) ≡ true
          → has_text n (map name d) ≡ (has_text n (map name d) || named n x)
      covered e = elim (Bool-cases (named n x)) [
        | inl f ↦ rw (subst (λ s. has_text s (map name d) ≡ true) ((eq_iff (name x) n).0 f) e) refl
        | inr f ↦ rw f (sym (or_false (has_text n (map name d))))
      ]

  name_in :
      (P : String → Type 0) (x : A) (d xs : List A) → All P (map name (d ++ x ∷ xs)) → P (name x)
  name_in P x [] xs h = h.0
  name_in P x (y ∷ ys) xs h = name_in P x ys xs h.1

  new_name :
      (x : A) (d xs : List A)
      → UniqueTexts (map name (d ++ x ∷ xs))
      → has_text (name x) (map name d) ≡ false
  new_name x [] xs u = refl
  new_name x (y ∷ ys) xs u =
      rw (name_in (λ t. str_eq (name y) t ≡ false) x ys xs u.0) (new_name x ys xs u.1)

  -- A dict of values with different names is their list.
  pub dict_by-UniqueTexts :
      (xs d : List A) → UniqueTexts (map name (d ++ xs)) → dict_by name xs d ≡ d ++ xs
  dict_by-UniqueTexts [] d u = sym (append-nil d)
  dict_by-UniqueTexts (x ∷ xs) d u = rw (new_name x d xs u) (
      dict_by-UniqueTexts xs (d ++ x ∷ []) (subst (λ l. UniqueTexts (map name l)) (sym shift) u)
      ∙ shift)
    where
      shift : (d ++ x ∷ []) ++ xs ≡ d ++ x ∷ xs
      shift = append_assoc d (x ∷ []) xs
