-- ===== src/ConfigLoader/Sync/Deletes.antt =====
-- Which rows tg_conductor/config_loader/sync.py deletes.
use tg_conductor.Base.{
  ℕ, ◌<◌, String, ◌≡◌, refl, sym, ◌∙◌, ◌⊎◌, inl, inr, Bool, true, false, not, ◌&&◌, ◌||◌, some,
  List, [], ◌∷◌, map, arith, str_eq, eq_iff, ◌==◌, ==_iff, Bool-cases, and_split, All,
  All-map_weaken, elem, filter, All-filter, sort_by, All-sort_by, sort_by-All, filter-All,
  All-filter_of, first, ==_refl, str_eq_refl, str_cases, Unique, Unique-filter, All-first,
  Unique-sort_by,
}
use tg_conductor.Workflows.Repo.{
  yaml, source_eq, from_source, WorkflowRow, Workflows, has_name, get_by_name, list_for_owner,
}
use tg_conductor.Workflows.Repo.Upsert.{same_name, IsKeyed, same_row}
use mathlib.Core.Path.{subst}
use tg_conductor.ConfigLoader.Sync.{has_text, row_name, row_id, dict_by, gone_of}
use tg_conductor.ConfigLoader.Sync.Dict.{UniqueTexts, dict_by-UniqueTexts}

pub sole_name :
    (o : ℕ) (n : String) (x y : WorkflowRow)
    → has_name o n x ≡ true
    → has_name o n y ≡ true
    → same_name x y ≡ true
sole_name o n x y h g =
    let (a, b) = and_split (x.owner_id == o) (str_eq x.name n) h in
    let (c, d) = and_split (y.owner_id == o) (str_eq y.name n) g in
    let own : x.owner_id ≡ y.owner_id =
      (==_iff x.owner_id o).0 a ∙ sym ((==_iff y.owner_id o).0 c) in
    let name : x.name ≡ y.name = (eq_iff x.name n).0 b ∙ sym ((eq_iff y.name n).0 d) in
    rw ((==_iff x.owner_id y.owner_id).1 own, (eq_iff x.name y.name).1 name) refl

name_symmetric : (x y : WorkflowRow) → same_name x y ≡ same_name y x
name_symmetric x y = and_flip (str_cases x.name y.name)
  where
    owners : (x.owner_id == y.owner_id) ≡ (y.owner_id == x.owner_id)
    owners = ground arith

    and_flip : (x.name ≡ y.name) ⊎ (str_eq x.name y.name ≡ false) → same_name x y ≡ same_name y x
    and_flip (inl e) =
        rw ((eq_iff x.name y.name).1 e, (eq_iff y.name x.name).1 (sym e)) (rw owners refl)
    and_flip (inr f) = elim (str_cases y.name x.name) [
      | inl e ↦ let hits = (eq_iff x.name y.name).1 (sym e) in absurd cc
      | inr g ↦ rw (f, g) (rw owners refl)
    ]

-- Every row is found under its own name.
own_row :
    (rows : List WorkflowRow)
    → Unique same_name rows
    → All (λ (y : WorkflowRow). first (filter (has_name y.owner_id y.name) rows) ≡ some y) rows
own_row [] u = tt
own_row (x ∷ xs) u =
    (rw (==_refl x.owner_id, str_eq_refl x.name) refl, later xs u.0 (own_row xs u.1))
  where
    later :
        (ys : List WorkflowRow)
        → All (λ y. same_name x y ≡ false) ys
        → All (λ (y : WorkflowRow). first (filter (has_name y.owner_id y.name) xs) ≡ some y) ys
        → All
            (λ (y : WorkflowRow). first (filter (has_name y.owner_id y.name) (x ∷ xs)) ≡ some y)
            ys
    later [] f h = tt
    later (y ∷ ys) f h = (rw f.0 h.0, later ys f.1 h.1)

names_of_owner :
    (o : ℕ) (xs : List WorkflowRow)
    → Unique same_name xs
    → All (λ (r : WorkflowRow). (r.owner_id == o) ≡ true) xs
    → UniqueTexts (map row_name xs)
names_of_owner o [] u h = tt
names_of_owner o (x ∷ xs) u h = (others xs u.0 h.1, names_of_owner o xs u.1 h.1)
  where
    others :
        (ys : List WorkflowRow)
        → All (λ y. same_name x y ≡ false) ys
        → All (λ (r : WorkflowRow). (r.owner_id == o) ≡ true) ys
        → All (λ t. str_eq x.name t ≡ false) (map row_name ys)
    others [] f g = tt
    others (y ∷ ys) f g =
        let own : x.owner_id ≡ y.owner_id =
          (==_iff x.owner_id o).0 h.0 ∙ sym ((==_iff y.owner_id o).0 g.0) in
        (rw ((==_iff x.owner_id y.owner_id).1 own) at f.0, others ys f.1 g.1)

abbrev pub is_yaml_of : ℕ → WorkflowRow → Bool
is_yaml_of owner_id =
    λ r. r.owner_id == owner_id && (not false || r.enabled) && from_source (some yaml) r

yaml_split :
    (owner_id : ℕ) (r : WorkflowRow)
    → is_yaml_of owner_id r ≡ true
    → ((r.owner_id == owner_id) ≡ true) × (source_eq r.source yaml ≡ true)
yaml_split owner_id r h = ground arith

abbrev pub existing_of : ℕ → Workflows → List WorkflowRow
existing_of owner_id w = sort_by (λ (r : WorkflowRow). r.id) (filter (is_yaml_of owner_id) w.rows)

-- The dict of the rows by name is their list.
pub dict_by-existing :
    (owner_id : ℕ) (w : Workflows)
    → IsKeyed w
    → dict_by row_name (list_for_owner owner_id false (some yaml) w) [] ≡ existing_of owner_id w
unfolding list_for_owner
dict_by-existing owner_id w k = dict_by-UniqueTexts row_name (existing_of owner_id w) [] (
    names_of_owner owner_id (existing_of owner_id w)
      (Unique-sort_by same_name (λ (r : WorkflowRow). r.id) name_symmetric
        (filter (is_yaml_of owner_id) w.rows)
        (Unique-filter same_name (is_yaml_of owner_id) w.rows k.others))
      (All-sort_by (λ (r : WorkflowRow). r.id)
        (λ (r : WorkflowRow). (r.owner_id == owner_id) ≡ true) (filter (is_yaml_of owner_id) w.rows)
        (All-map_weaken (λ r. is_yaml_of owner_id r ≡ true)
          (λ (r : WorkflowRow). (r.owner_id == owner_id) ≡ true)
          (λ r h. (yaml_split owner_id r h).0) (filter (is_yaml_of owner_id) w.rows)
          (All-filter (is_yaml_of owner_id) w.rows))))

-- A row that goes, as the table has it.
pub record Goes (owner_id : ℕ) (keep : List String) (w : Workflows) (y : WorkflowRow) : Type 0 where
  pub own : (y.owner_id == owner_id) ≡ true
  pub of_files : source_eq y.source yaml ≡ true
  pub unkept : has_text y.name keep ≡ false
  pub found : first (filter (has_name y.owner_id y.name) w.rows) ≡ some y

elem_some :
    (P : WorkflowRow → Type 0) (i : ℕ) (ys : List WorkflowRow)
    → All P ys
    → elem i (map row_id ys) ≡ true
    → (y : WorkflowRow) × P y × (y.id ≡ i)
elem_some P i [] h e = absurd (ground arith)
elem_some P i (y ∷ ys) h e = elim (Bool-cases (i == y.id)) [
  | inl t ↦ (y, h.0, sym ((==_iff i y.id).0 t))
  | inr f ↦ elem_some P i ys h.1 (rw f at e)
]

elem_none :
    (p : WorkflowRow → Bool) (i : ℕ) (ys : List WorkflowRow)
    → elem i (map row_id (filter p ys)) ≡ false
    → All (λ (y : WorkflowRow). p y ≡ true → (i == y.id) ≡ false) ys
elem_none p i [] h = tt
elem_none p i (y ∷ ys) h = elim (Bool-cases (p y)) [
  | inl t ↦
      let h' : (i == y.id || elem i (map row_id (filter p ys))) ≡ false = rw t at h in
      (
        λ _. or_left (i == y.id) (elem i (map row_id (filter p ys))) h',
        elem_none p i ys (or_right (i == y.id) (elem i (map row_id (filter p ys))) h'),
      )
  | inr f ↦ (λ t. absurd cc, elem_none p i ys (rw f at h))
]
  where
    or_left : (a b : Bool) → (a || b) ≡ false → a ≡ false
    or_left true b h = h
    or_left false b h = refl

    or_right : (a b : Bool) → (a || b) ≡ false → b ≡ false
    or_right true b h = absurd cc
    or_right false b h = h

module _ (owner_id : ℕ) (keep : List String) (w : Workflows) (k : IsKeyed w) where
  abbrev gone : List WorkflowRow
  gone = gone_of keep (existing_of owner_id w)

  gone-Goes : All (Goes owner_id keep w) gone
  gone-Goes =
      All-filter_of (λ (r : WorkflowRow). not (has_text r.name keep)) (Goes owner_id keep w)
        (existing_of owner_id w)
        (All-sort_by (λ (r : WorkflowRow). r.id)
          (λ (r : WorkflowRow). not (has_text r.name keep) ≡ true → Goes owner_id keep w r)
          (filter (is_yaml_of owner_id) w.rows)
          (All-filter_of (is_yaml_of owner_id)
            (λ (r : WorkflowRow). not (has_text r.name keep) ≡ true → Goes owner_id keep w r) w.rows
            (All-map_weaken
              (λ (y : WorkflowRow). first (filter (has_name y.owner_id y.name) w.rows) ≡ some y)
              (λ (r : WorkflowRow).
                is_yaml_of owner_id r ≡ true
                → not (has_text r.name keep) ≡ true
                → Goes owner_id keep w r)
              one w.rows (own_row w.rows k.others))))
    where
      is_false : (b : Bool) → not b ≡ true → b ≡ false
      is_false false h = refl
      is_false true h = absurd cc

      one :
          (r : WorkflowRow)
          → first (filter (has_name r.owner_id r.name) w.rows) ≡ some r
          → is_yaml_of owner_id r ≡ true
          → not (has_text r.name keep) ≡ true
          → Goes owner_id keep w r
      one r f q g =
          let (own, of_files) = yaml_split owner_id r q in
          record {
            own = own;
            of_files = of_files;
            unkept = is_false (has_text r.name keep) g;
            found = f;
          }

  -- A row of the table whose id is among those that go, goes.
  pub elem-Goes :
      (o : ℕ) (n : String) (x : WorkflowRow)
      → get_by_name o n w ≡ some x
      → elem x.id (map row_id gone) ≡ true
      → Goes owner_id keep w x
  unfolding get_by_name
  elem-Goes o n x h e =
      let (y, goes, same) = elem_some (Goes owner_id keep w) x.id gone gone-Goes e in
      subst (Goes owner_id keep w)
        (same_row (has_name y.owner_id y.name) (has_name o n) w k goes.found h same) goes

  -- An id that no row has yet does not go.
  pub elem-old : (i : ℕ) → elem i (map row_id gone) ≡ true → i < w.next_id
  elem-old i e =
      let (y, goes, same) = elem_some (Goes owner_id keep w) i gone gone-Goes e in
      let b =
        (All-first (λ (r : WorkflowRow). r.id < w.next_id) (has_name y.owner_id y.name) w.rows
          goes.found k.below).0 in
      omega (arith, b, same)

  -- A row of the files that is not kept goes.
  pub elem-gone :
      (n : String) (x : WorkflowRow)
      → get_by_name owner_id n w ≡ some x
      → source_eq x.source yaml ≡ true
      → has_text x.name keep ≡ false
      → elem x.id (map row_id gone) ≡ true
  unfolding get_by_name
  elem-gone n x h s f = elim (Bool-cases (elem x.id (map row_id gone))) [
    | inl t ↦ t
    | inr e ↦
        let others =
          filter-All (is_yaml_of owner_id)
            (λ (y : WorkflowRow). not (has_text y.name keep) ≡ true → (x.id == y.id) ≡ false) w.rows
            (sort_by-All (λ (r : WorkflowRow). r.id)
              (λ (y : WorkflowRow). not (has_text y.name keep) ≡ true → (x.id == y.id) ≡ false)
              (filter (is_yaml_of owner_id) w.rows)
              (elem_none (λ (r : WorkflowRow). not (has_text r.name keep)) x.id
                (existing_of owner_id w) e)) in
        let (own, named) =
          All-first
            (λ (y : WorkflowRow).
              is_yaml_of owner_id y ≡ true
              → not (has_text y.name keep) ≡ true
              → (x.id == y.id) ≡ false)
            (has_name owner_id n) w.rows h others in
        let mine = (and_split (x.owner_id == owner_id) (str_eq x.name n) named).0 in
        let differs : (x.id == x.id) ≡ false = own (rw (mine, s) refl) (rw f refl) in
        let same = ==_refl x.id in absurd cc
  ]
