-- ===== src/Scheduler/Repo/Waiting.antt =====
-- Which due jobs `claim_due_jobs` of tg_conductor/scheduler/repo.py leaves waiting.
use tg_conductor.Base.{
  ℕ, ◌≤◌, ◌<◌, ◌≡◌, refl, inl, inr, Bool, true, false, List, [], ◌∷◌, map, arith, leb,
  if◌then◌else◌, leb→le, not_leb→lt, Bool-cases, and_split, length, take, take_all, All,
  All-map_weaken, elem, filter, length-sort_by, sort_by-IsSortedBy, sort_by-All, Distinct,
  Distinct-filter, Distinct-sort_by, key_of_take, elem_self, take-le_rest, filter-All,
  All-filter_of, All-map, update-All, All-both,
}
use tg_conductor.Scheduler.Models.{is_pending, JobRow}
use tg_conductor.Scheduler.Repo.Claim.{start_row, is_claimable, ids_of, is_due, claim_due_jobs}
use tg_conductor.Scheduler.Repo.Claims.{
  job_id, fresh_rows, due_rows, chosen, claim_due_jobs_eq, fresh-Distinct, chosen_due,
}

module _ (owner_id now batch_size window : ℕ) where
  abbrev due : JobRow → Bool
  due = is_due owner_id now window

  -- phase A retires no job that is due
  filter-due_fresh :
      (rows : List JobRow)
      → filter due (fresh_rows owner_id now batch_size window rows) ≡ filter due rows
  filter-due_fresh [] = refl
  filter-due_fresh (r ∷ rows) = ground (arith, filter-due_fresh rows)

  module _ (rows : List JobRow) (d : Distinct job_id rows) where
    abbrev table : List JobRow
    table = fresh_rows owner_id now batch_size window rows

    abbrev ordered : List JobRow
    ordered = due_rows owner_id now batch_size window table

    abbrev ids : List ℕ
    ids = chosen owner_id now batch_size window rows

    -- every chosen row of the table fires no later than `r`
    abbrev NoLater : JobRow → JobRow → Type 0
    NoLater r c = elem c.id ids ≡ true → c.fire_at ≤ r.fire_at

    ordered-Distinct : Distinct job_id ordered
    ordered-Distinct =
        Distinct-sort_by job_id (λ (r : JobRow). r.fire_at) (filter due table)
          (Distinct-filter job_id due table (fresh-Distinct owner_id now batch_size window rows d))

    earlier_chosen :
        (r : JobRow)
        → All (λ c. c.fire_at ≤ r.fire_at) (take batch_size ordered)
        → All (NoLater r) table
    earlier_chosen r h =
        All-map_weaken (λ c. (elem c.id ids ≡ true → due c ≡ true) × (due c ≡ true → NoLater r c))
          (NoLater r) (λ c k e. k.1 (k.0 e) e) table
          (All-both (λ c. elem c.id ids ≡ true → due c ≡ true) (λ c. due c ≡ true → NoLater r c)
            table (chosen_due owner_id now batch_size window rows d)
            (filter-All due (NoLater r) table (
              sort_by-All (λ (q : JobRow). q.fire_at) (NoLater r) (filter due table)
                (key_of_take job_id (λ c. c.fire_at ≤ r.fire_at) batch_size ordered ordered-Distinct
                  h))))

    -- a due row that was not chosen fires no earlier than any chosen one
    not_chosen_later : All (λ r. due r ≡ true → elem r.id ids ≡ false → All (NoLater r) table) table
    not_chosen_later =
        filter-All due (λ r. elem r.id ids ≡ false → All (NoLater r) table) table
          (sort_by-All (λ (q : JobRow). q.fire_at)
            (λ r. elem r.id ids ≡ false → All (NoLater r) table) (filter due table)
            (All-map_weaken
              (λ r.
                elem r.id ids ≡ false → All (λ c. c.fire_at ≤ r.fire_at) (take batch_size ordered))
              (λ r. elem r.id ids ≡ false → All (NoLater r) table) (λ r h e. earlier_chosen r (h e))
              ordered
              (take-le_rest job_id (λ (q : JobRow). q.fire_at) batch_size ordered
                (sort_by-IsSortedBy (λ (q : JobRow). q.fire_at) (filter due table)))))

    All-chosen :
        length (filter due table) ≤ batch_size
        → All (λ r. due r ≡ true → elem r.id ids ≡ true) table
    All-chosen h =
        let keeps : take batch_size ordered ≡ ordered =
          take_all batch_size ordered
            (omega (arith, length-sort_by (λ (q : JobRow). q.fire_at) (filter due table))) in
        rw keeps (
          filter-All due (λ r. elem r.id (ids_of ordered) ≡ true) table
            (sort_by-All (λ (q : JobRow). q.fire_at) (λ r. elem r.id (ids_of ordered) ≡ true)
              (filter due table) (elem_self job_id ordered)))

    -- what is still waiting after the claim
    abbrev pub Waits : List JobRow → JobRow → Type 0
    Waits claimed r =
        due r ≡ true
        → (batch_size < length (filter due rows))
          × All (λ (c : JobRow). c.fire_at ≤ r.fire_at) claimed

    abbrev claimed_rows : List JobRow
    claimed_rows = map (start_row now) (filter (is_claimable ids) table)

    claimed-NoLater :
        (r : JobRow)
        → All (NoLater r) table
        → All (λ (c : JobRow). c.fire_at ≤ r.fire_at) claimed_rows
    claimed-NoLater r h =
        All-map (start_row now) (λ (c : JobRow). c.fire_at ≤ r.fire_at)
          (filter (is_claimable ids) table)
          (All-filter_of (is_claimable ids) (λ c. c.fire_at ≤ r.fire_at) table
            (All-map_weaken (NoLater r) (λ c. is_claimable ids c ≡ true → c.fire_at ≤ r.fire_at)
              (λ c k e. k (and_split (elem c.id ids) (is_pending c.status) e).0) table h))

    not_claimed : (r : JobRow) → is_claimable ids r ≡ false → due r ≡ true → elem r.id ids ≡ false
    not_claimed r n e = ground arith

    started_not_due : (r : JobRow) → due (start_row now r) ≡ false
    started_not_due r = ground arith

    batch_full :
        (r : JobRow)
        → (length (filter due table) ≤ batch_size → due r ≡ true → elem r.id ids ≡ true)
        → due r ≡ true
        → elem r.id ids ≡ false
        → batch_size < length (filter due rows)
    batch_full r kept e n = elim (Bool-cases (leb (length (filter due table)) batch_size)) [
      | inl small ↦
          absurd (ground (arith, kept (leb→le (length (filter due table)) batch_size small) e))
      | inr big ↦
          rw (filter-due_fresh rows) at (not_leb→lt (length (filter due table)) batch_size big)
    ]

    Waits-one :
        (r : JobRow)
        → (due r ≡ true → elem r.id ids ≡ false → All (NoLater r) table)
        → (length (filter due table) ≤ batch_size → due r ≡ true → elem r.id ids ≡ true)
        → Waits claimed_rows (if is_claimable ids r then start_row now r else r)
    Waits-one r later kept = elim (Bool-cases (is_claimable ids r)) [
      | inl c ↦ rw c (λ e. cc (started_not_due r))
      | inr n ↦ rw n (λ e.
          let out : elem r.id ids ≡ false = not_claimed r n e in
          (batch_full r kept e out, claimed-NoLater r (later e out)))
    ]

    Waits-All :
        (xs : List JobRow)
        → All (λ r. due r ≡ true → elem r.id ids ≡ false → All (NoLater r) table) xs
        → (length (filter due table) ≤ batch_size
            → All (λ r. due r ≡ true → elem r.id ids ≡ true) xs)
        → All (λ r. Waits claimed_rows (if is_claimable ids r then start_row now r else r)) xs
    Waits-All [] later kept = tt
    Waits-All (x ∷ xs) later kept =
        (Waits-one x later.0 (λ h. (kept h).0), Waits-All xs later.1 (λ h. (kept h).1))

  -- With distinct ids, a due job is still waiting after the claim only if more jobs were due than the
  -- batch takes, and then every claimed job fires no later than it: none is overtaken.
  pub claim-no_starvation :
      (rows : List JobRow)
      → Distinct job_id rows
      → All
          (λ r.
            is_due owner_id now window r ≡ true
            → (batch_size < length (filter (is_due owner_id now window) rows))
              × All
                  (λ (c : JobRow). c.fire_at ≤ r.fire_at)
                  (claim_due_jobs owner_id now batch_size window rows).0.claimed)
          (claim_due_jobs owner_id now batch_size window rows).1
  claim-no_starvation rows d = rw (claim_due_jobs_eq owner_id now batch_size window rows) (
      update-All (is_claimable (ids rows d)) (start_row now) (Waits rows d (claimed_rows rows d))
        (table rows d)
        (Waits-All rows d (table rows d) (not_chosen_later rows d) (All-chosen rows d)))
