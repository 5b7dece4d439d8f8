-- ===== src/ConfigLoader/Sync/Upserts.antt =====
-- The upserts of tg_conductor/config_loader/sync.py, one after another.
use tg_conductor.Base.{
  ℕ, ◌≤◌, String, ◌≡◌, refl, sym, ap, ◌∙◌, inl, inr, Bool, true, false, not, ◌&&◌, ◌||◌, some, List,
  [], ◌∷◌, map, arith, str_eq, eq_iff, ◌==◌, All, filter, first, str_cases,
}
use mathlib.Core.Path.{subst}
use mathlib.Core.Option.{some-injective}
use tg_conductor.Base.Result.{ok, ok-injective, >>=-ok, ◌>>=◌}
use tg_conductor.Workflows.Schema.{Workflow}
use tg_conductor.Workflows.Repo.{yaml, Workflows, get_by_name, upsert_by_source}
use tg_conductor.Workflows.Repo.Upsert.{
  IsKeyed, entry, Holds, IsUpserted, upsert_by_source-IsUpserted,
}
use tg_conductor.ConfigLoader.Sync.{has_text, workflow_name, Upserted, reported, upsert_all}
use tg_conductor.ConfigLoader.Sync.Dict.{named, UniqueTexts}

pub record IsWritten (owner_id : ℕ) (wfs : List Workflow) (w w' : Workflows) : Type 0 where
  pub keyed : IsKeyed w'
  pub grows : w.next_id ≤ w'.next_id
  pub missed :
      (o : ℕ) (n : String)
      → (owner_id == o && has_text n (map workflow_name wfs)) ≡ false
      → get_by_name o n w' ≡ get_by_name o n w
  pub hit :
      (n : String) {d : Workflow}
      → first (filter (named workflow_name n) wfs) ≡ some d
      → Holds owner_id n (entry yaml d) w w'

none-IsWritten : (owner_id : ℕ) (w : Workflows) → IsKeyed w → IsWritten owner_id [] w w
none-IsWritten owner_id w k = record {
  keyed = k;
  grows = omega arith;
  missed = λ o n h. refl;
  hit = λ n h. absurd cc;
}

and_or : (a s t : Bool) → (a && (s || t)) ≡ false → ((a && s) ≡ false) × ((a && t) ≡ false)
and_or false s t h = (refl, refl)
and_or true true t h = absurd cc
and_or true false t h = (refl, h)

pub and_false : (a b : Bool) → b ≡ false → (a && b) ≡ false
and_false true b h = h
and_false false b h = refl

pub fresh_text :
    (s : String) (ts : List String) → All (λ t. str_eq s t ≡ false) ts → has_text s ts ≡ false
fresh_text s [] h = refl
fresh_text s (t ∷ ts) h = elim (str_cases t s) [
  | inl e ↦ let hits = (eq_iff s t).1 (sym e) in let misses = h.0 in absurd cc
  | inr f ↦ rw f (fresh_text s ts h.1)
]

module _ (owner_id : ℕ) (wf : Workflow) (wfs : List Workflow) (w v w' : Workflows) where
  more-IsWritten :
      IsUpserted owner_id yaml wf w v
      → IsWritten owner_id wfs v w'
      → UniqueTexts (map workflow_name (wf ∷ wfs))
      → IsWritten owner_id (wf ∷ wfs) w w'
  more-IsWritten one rest u = record {
    keyed = rest.keyed;
    grows = omega (arith, one.grows, rest.grows);
    missed = λ o n h. rest.missed o n (tests_of o n h).1 ∙ one.missed o n (tests_of o n h).0;
    hit = λ n {d} h. elim (str_cases wf.name n) [
      | inl e ↦ subst (λ m. Holds owner_id m (entry yaml d) w w') e (here n d e h)
      | inr f ↦ later n d f (rest.hit n (rw f at h))
    ];
  }
    where
      tests_of :
          (o : ℕ) (n : String)
          → (owner_id == o && has_text n (map workflow_name (wf ∷ wfs))) ≡ false
          → ((owner_id == o && str_eq wf.name n) ≡ false)
            × ((owner_id == o && has_text n (map workflow_name wfs)) ≡ false)
      tests_of o n h =
          and_or (owner_id == o) (str_eq wf.name n) (has_text n (map workflow_name wfs)) h

      alone : (owner_id == owner_id && has_text wf.name (map workflow_name wfs)) ≡ false
      alone =
          and_false (owner_id == owner_id) (has_text wf.name (map workflow_name wfs))
            (fresh_text wf.name (map workflow_name wfs) u.0)

      here :
          (n : String) (wf' : Workflow)
          → wf.name ≡ n
          → first (filter (named workflow_name n) (wf ∷ wfs)) ≡ some wf'
          → Holds owner_id wf.name (entry yaml wf') w w'
      here n wf' e h =
          let same : wf ≡ wf' = some-injective wf wf' (rw ((eq_iff wf.name n).1 e) at h) in
          (
            one.hit.0,
            rest.missed owner_id wf.name alone ∙ one.hit.1,
            one.hit.2 ∙ ap (entry yaml) same,
            one.hit.3,
          )

      later :
          (n : String) (wf' : Workflow)
          → str_eq wf.name n ≡ false
          → Holds owner_id n (entry yaml wf') v w'
          → Holds owner_id n (entry yaml wf') w w'
      later n wf' f (x, g, e, from) = (
        x,
        g,
        e,
        elim from [
          | inl fresh ↦ inl (omega (arith, one.grows, fresh))
          | inr (r, found, i) ↦ inr (
            r,
            sym (one.missed owner_id n (and_false (owner_id == owner_id) (str_eq wf.name n) f))
                ∙ found,
            i,
          )
        ],
      )

pub upsert_all-IsWritten :
    (owner_id utcnow : ℕ) (existing : List String) (wfs : List Workflow) (w : Workflows)
    {u : Upserted}
    → IsKeyed w
    → UniqueTexts (map workflow_name wfs)
    → upsert_all owner_id utcnow existing wfs w ≡ ok u
    → IsWritten owner_id wfs w u.workflows
unfolding upsert_all
upsert_all-IsWritten owner_id utcnow existing [] w {u} k q h =
    subst (λ (t : Upserted). IsWritten owner_id [] w t.workflows) (ok-injective h)
      (none-IsWritten owner_id w k)
upsert_all-IsWritten owner_id utcnow existing (wf ∷ wfs) w {u} k q h =
    let (v, first_ok, tail_ok) =
      >>=-ok (upsert_by_source utcnow owner_id yaml wf w)
        (λ v. upsert_all owner_id utcnow existing wfs v >>= λ t.
          ok (reported (not (has_text wf.name existing)) wf.name t))
        h in
    let (t, rest_ok, same) =
      >>=-ok (upsert_all owner_id utcnow existing wfs v)
        (λ t. ok (reported (not (has_text wf.name existing)) wf.name t)) tail_ok in
    let one = upsert_by_source-IsUpserted owner_id utcnow yaml wf w k first_ok in
    let table : t.workflows ≡ u.workflows =
      sym (unreported (not (has_text wf.name existing)) wf.name t)
      ∙ ap (λ (x : Upserted). x.workflows) (ok-injective same) in
    subst (IsWritten owner_id (wf ∷ wfs) w) table (
      more-IsWritten owner_id wf wfs w v t.workflows one
        (upsert_all-IsWritten owner_id utcnow existing wfs v one.keyed q.1 rest_ok) q)
  where
    unreported :
        (b : Bool) (name : String) (t : Upserted) → (reported b name t).workflows ≡ t.workflows
    unreported true name t = refl
    unreported false name t = refl
