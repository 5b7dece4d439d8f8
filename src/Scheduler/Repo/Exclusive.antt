-- ===== src/Scheduler/Repo/Exclusive.antt =====
-- Claims against one another and across tenants, for tg_conductor/scheduler/repo.py.
use tg_conductor.Base.{
  ℕ, ◌≡◌, refl, ap, inl, inr, Bool, true, false, not, List, [], ◌∷◌, map, arith, ◌==◌,
  if◌then◌else◌, Bool-cases, All, All-map_weaken, elem, filter, update, Distinct, key_of_filter,
  All-filter_of, All-map, update-All, All-update,
}
use tg_conductor.Scheduler.Models.{JobRow}
use tg_conductor.Scheduler.Repo.Claim.{
  start_row, skip_row, is_claimable, ids_of, is_stale, is_due, claim, claim_due_jobs,
}
use tg_conductor.Scheduler.Repo.Claims.{
  job_id, outcome, chosen, claim_due_jobs_eq, two_updates, chosen_due,
}

module _ (now now' : ℕ) (first second : List ℕ) (rows : List JobRow) where
  abbrev taken : List ℕ
  taken = ids_of (filter (is_claimable first) rows)

  started_unclaimable : (r : JobRow) → is_claimable second (start_row now r) ≡ false
  started_unclaimable r = ground arith

  -- a row that the first claim returned is running when the second comes
  not_again :
      (r : JobRow)
      → (elem r.id taken ≡ true → is_claimable first r ≡ true)
      → is_claimable second (if is_claimable first r then start_row now r else r) ≡ true
      → elem (if is_claimable first r then start_row now r else r).id taken ≡ false
  not_again r h = elim (Bool-cases (is_claimable first r)) [
    | inl c ↦ rw c (λ e. cc (started_unclaimable r))
    | inr n ↦ rw n (λ e. elim (Bool-cases (elem r.id taken)) [ inl t ↦ cc (h t) | inr f ↦ f ])
  ]

  ids_started : (xs : List JobRow) → ids_of (map (start_row now) xs) ≡ ids_of xs
  ids_started [] = refl
  ids_started (x ∷ xs) = ap (λ (t : List ℕ). x.id ∷ t) (ids_started xs)

  -- With distinct ids, two claims in a row, over any two candidate lists, never return one job twice,
  -- whatever the lists have in common: the second UPDATE tests the status again.
  pub claims_exclusive :
      Distinct job_id rows
      → All
          (λ (r : JobRow). elem r.id (ids_of (claim now first rows).0) ≡ false)
          (claim now' second (claim now first rows).1).0
  unfolding claim
  claims_exclusive d = rw (ids_started (filter (is_claimable first) rows)) (
      All-map (start_row now') (λ (r : JobRow). elem r.id taken ≡ false)
        (filter (is_claimable second) (update (is_claimable first) (start_row now) rows))
        (All-filter_of (is_claimable second) (λ (r : JobRow). elem r.id taken ≡ false)
          (update (is_claimable first) (start_row now) rows)
          (update-All (is_claimable first) (start_row now)
            (λ r. is_claimable second r ≡ true → elem r.id taken ≡ false) rows
            (All-map_weaken (λ r. elem r.id taken ≡ true → is_claimable first r ≡ true)
              (λ r.
                is_claimable second (if is_claimable first r then start_row now r else r) ≡ true
                → elem (if is_claimable first r then start_row now r else r).id taken ≡ false)
              not_again rows (key_of_filter job_id (is_claimable first) rows d)))))

module _ (owner_id now batch_size window : ℕ) where
  abbrev pub is_foreign : JobRow → Bool
  is_foreign r = not (r.owner_id == owner_id)

  abbrev after_retire : JobRow → JobRow
  after_retire r = if is_stale owner_id now window r then skip_row now r else r

  abbrev Listed : List ℕ → JobRow → Type 0
  Listed ids r =
      elem (after_retire r).id ids ≡ true → is_due owner_id now window (after_retire r) ≡ true

  same_row :
      (ids : List ℕ) (r : JobRow)
      → Listed ids r
      → is_foreign r ≡ true
      → outcome owner_id now window ids r ≡ r
  same_row ids r h f = ground arith

  owner-outcome :
      (ids : List ℕ) (r : JobRow) → (outcome owner_id now window ids r).owner_id ≡ r.owner_id
  owner-outcome ids r = ground arith

  filter-outcome :
      (ids : List ℕ) (rows : List JobRow)
      → All (Listed ids) rows
      → filter is_foreign (map (outcome owner_id now window ids) rows) ≡ filter is_foreign rows
  filter-outcome ids [] h = refl
  filter-outcome ids (r ∷ rows) h = elim (Bool-cases (is_foreign r)) [
    | inl f ↦
        rw (same_row ids r h.0 f)
          (rw f (ap (λ (t : List JobRow). r ∷ t) (filter-outcome ids rows h.1)))
    | inr n ↦ rw (owner-outcome ids r) (rw n (filter-outcome ids rows h.1))
  ]

  -- With distinct ids, a claim for one owner leaves the rows of every other owner as they were, though
  -- its claiming UPDATE names no owner.
  pub claim-tenant_isolation :
      (rows : List JobRow)
      → Distinct job_id rows
      → filter is_foreign (claim_due_jobs owner_id now batch_size window rows).1
        ≡ filter is_foreign rows
  claim-tenant_isolation rows d = rw (claim_due_jobs_eq owner_id now batch_size window rows) (
      rw
        (two_updates owner_id now batch_size window (chosen owner_id now batch_size window rows)
          rows)
        (filter-outcome (chosen owner_id now batch_size window rows) rows (
          All-update (is_stale owner_id now window) (skip_row now)
            (λ r.
              elem r.id (chosen owner_id now batch_size window rows) ≡ true
              → is_due owner_id now window r ≡ true)
            rows (chosen_due owner_id now batch_size window rows d))))
