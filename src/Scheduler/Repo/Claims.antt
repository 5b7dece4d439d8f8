-- ===== src/Scheduler/Repo/Claims.antt =====
-- What `claim_due_jobs` of tg_conductor/scheduler/repo.py claims, retires and leaves.
use tg_conductor.Base.{
  ℕ, ◌+◌, ◌≤◌, ◌≡◌, refl, sym, ap, Bool, true, some, List, [], ◌∷◌, map, arith, if◌then◌else◌,
  and_split, length, take, length-take-le, length-map, All, All-map_weaken, elem, filter, update,
  sort_by, Distinct, Distinct-update, elem-take, elem-sort_by, key_of_filter, length-filter-elem,
  length-filter_mono, All-filter_of, All-map,
}
use tg_conductor.Scheduler.Models.{running, is_pending, JobRow}
use tg_conductor.Scheduler.Repo.Claim.{
  skip_row, start_row, is_claimable, ids_of, claim, claim_if_any, is_stale, is_due, claim_due_jobs,
}

abbrev pub job_id : JobRow → ℕ
job_id r = r.id

claim_nothing : (now : ℕ) (rows : List JobRow) → claim now [] rows ≡ ([], rows)
unfolding claim
claim_nothing now [] = refl
claim_nothing now (r ∷ rows) =
    ap (λ (t : List JobRow × List JobRow). (t.0, r ∷ t.1)) (claim_nothing now rows)

-- The early return changes nothing: an empty claim is what the UPDATE would do.
claim_if_any_lem :
    (now : ℕ) (ids : List ℕ) (rows : List JobRow) → claim_if_any now ids rows ≡ claim now ids rows
claim_if_any_lem now [] rows = sym (claim_nothing now rows)
claim_if_any_lem now (i ∷ ids) rows = refl

pub claim-Distinct :
    (now : ℕ) (ids : List ℕ) (rows : List JobRow)
    → Distinct job_id rows
    → Distinct job_id (claim now ids rows).1
unfolding claim
claim-Distinct now ids rows d =
    Distinct-update job_id (is_claimable ids) (start_row now) (λ r. refl) rows d

-- Where a job goes in one claim.
abbrev pub outcome : ℕ → ℕ → ℕ → List ℕ → JobRow → JobRow
outcome owner_id now window ids r =
    if is_stale owner_id now window r
    then skip_row now r
    else if is_claimable ids r
    then start_row now r
    else r

module _ (owner_id now batch_size window : ℕ) where
  -- the table after phase A, and the ids that the candidate SELECT returns
  abbrev pub fresh_rows : List JobRow → List JobRow
  fresh_rows rows = update (is_stale owner_id now window) (skip_row now) rows

  abbrev pub due_rows : List JobRow → List JobRow
  due_rows rows = sort_by (λ (r : JobRow). r.fire_at) (filter (is_due owner_id now window) rows)

  abbrev pub chosen : List JobRow → List ℕ
  chosen rows = ids_of (take batch_size (due_rows (fresh_rows rows)))

  pub two_updates :
      (ids : List ℕ) (rows : List JobRow)
      → update (is_claimable ids) (start_row now) (fresh_rows rows)
        ≡ map (outcome owner_id now window ids) rows
  two_updates ids [] = refl
  two_updates ids (r ∷ rows) = ground (arith, two_updates ids rows)

  pub claim_due_jobs_eq :
      (rows : List JobRow)
      → claim_due_jobs owner_id now batch_size window rows ≡ (
        record {
          claimed = map (start_row now) (filter (is_claimable (chosen rows)) (fresh_rows rows));
          skipped = map (skip_row now) (filter (is_stale owner_id now window) rows);
        },
        update (is_claimable (chosen rows)) (start_row now) (fresh_rows rows),
      )
  unfolding claim_due_jobs
  claim_due_jobs_eq rows = rw (claim_if_any_lem now (chosen rows) (fresh_rows rows))

  abbrev pub is_late : JobRow → Bool
  is_late = is_stale owner_id now window

  pub fresh-Distinct :
      (rows : List JobRow) → Distinct job_id rows → Distinct job_id (fresh_rows rows)
  fresh-Distinct rows d = Distinct-update job_id is_late (skip_row now) (λ r. refl) rows d

  -- A row of the table whose id was chosen is due, since ids are distinct.
  pub chosen_due :
      (rows : List JobRow)
      → Distinct job_id rows
      → All
          (λ r. elem r.id (chosen rows) ≡ true → is_due owner_id now window r ≡ true)
          (fresh_rows rows)
  chosen_due rows d =
      let table = fresh_rows rows in
      let due = is_due owner_id now window in
      All-map_weaken (λ r. elem r.id (ids_of (filter due table)) ≡ true → due r ≡ true)
        (λ r. elem r.id (chosen rows) ≡ true → due r ≡ true)
        (λ r h e. h (
          rw (← elem-sort_by job_id (λ (q : JobRow). q.fire_at) r.id (filter due table))
            (elem-take job_id r.id batch_size (due_rows table) e)))
        table (key_of_filter job_id due table (fresh-Distinct rows d))

  -- What the claimed rows are.
  abbrev pub IsClaimed : JobRow → Type 0
  IsClaimed r =
      (r.status ≡ running)
      × (r.started_at ≡ some now)
      × (r.owner_id ≡ owner_id)
      × (r.fire_at ≤ now)
      × (now ≤ r.fire_at + window)

  started-IsClaimed :
      (r : JobRow) → is_due owner_id now window r ≡ true → IsClaimed (start_row now r)
  started-IsClaimed r h = ground arith

  -- With distinct ids, the claim returns at most `batch_size` rows, each of this owner, running from
  -- now on, and due: its time has come, and lies at most the compensation window back.
  pub claimed_due :
      (rows : List JobRow)
      → Distinct job_id rows
      → (length (claim_due_jobs owner_id now batch_size window rows).0.claimed ≤ batch_size)
        × All IsClaimed (claim_due_jobs owner_id now batch_size window rows).0.claimed
  claimed_due rows d =
      let table = fresh_rows rows in
      let claimable = is_claimable (chosen rows) in
      rw (claim_due_jobs_eq rows) (
        omega (
          arith,
          length-map (start_row now) (filter claimable table),
          length-filter_mono claimable (λ r. elem r.id (chosen rows))
              (λ r h. (and_split (elem r.id (chosen rows)) (is_pending r.status) h).0) table,
          length-filter-elem job_id (chosen rows) table (fresh-Distinct rows d),
          length-map job_id (take batch_size (due_rows table)),
          length-take-le batch_size (due_rows table),
        ),
        All-map (start_row now) IsClaimed (filter claimable table) (
            All-filter_of claimable (λ r. IsClaimed (start_row now r)) table
              (All-map_weaken
                (λ r. elem r.id (chosen rows) ≡ true → is_due owner_id now window r ≡ true)
                (λ r. claimable r ≡ true → IsClaimed (start_row now r))
                (λ r h e.
                  started-IsClaimed r
                    (h (and_split (elem r.id (chosen rows)) (is_pending r.status) e).0))
                table (chosen_due rows d))),
      )
