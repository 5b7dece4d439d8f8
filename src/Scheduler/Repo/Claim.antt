-- ===== src/Scheduler/Repo/Claim.antt =====
-- `claim_due_jobs` of tg_conductor/scheduler/repo.py. SELECT and the claiming UPDATE are functions of
-- their own, so that another dispatcher's claim can stand between them.
use tg_conductor.Base.{
  ℕ, ◌-◌, Bool, ◌&&◌, some, List, [], ◌∷◌, map, ltb, leb, ◌==◌, take, elem, filter, update, sort_by,
}
use tg_conductor.Scheduler.Models.{running, skipped, is_pending, JobRow}

pub record ClaimResult : Type 0 where
  pub claimed : List JobRow
  pub skipped : List JobRow

abbrev pub skip_row : ℕ → JobRow → JobRow
skip_row now r = record r {
  status = skipped;
  skip_reason = some "missed_window";
  finished_at = some now;
}

abbrev pub start_row : ℕ → JobRow → JobRow
start_row now r = record r { status = running; started_at = some now }

abbrev pub is_claimable : List ℕ → JobRow → Bool
is_claimable ids r = elem r.id ids && is_pending r.status

abbrev pub ids_of : List JobRow → List ℕ
ids_of = map (λ (r : JobRow). r.id)

-- Phase B, the claim, with the second test of the status: the rows returned, and the table.
unfoldable pub claim : ℕ → List ℕ → List JobRow → List JobRow × List JobRow
claim now ids rows = (
  map (start_row now) (filter (is_claimable ids) rows),
  update (is_claimable ids) (start_row now) rows,
)

-- `if not candidate_ids: return`
abbrev pub claim_if_any : ℕ → List ℕ → List JobRow → List JobRow × List JobRow
claim_if_any now [] rows = ([], rows)
claim_if_any now (i ∷ ids) rows = claim now (i ∷ ids) rows

-- Times are not negative, so a cutoff that stops at 0 retires the same rows.
abbrev pub is_stale : ℕ → ℕ → ℕ → JobRow → Bool
is_stale owner_id now window r =
    r.owner_id == owner_id && is_pending r.status && ltb r.fire_at (now - window)

abbrev pub is_due : ℕ → ℕ → ℕ → JobRow → Bool
is_due owner_id now window r =
    r.owner_id == owner_id
    && is_pending r.status
    && leb r.fire_at now
    && leb (now - window) r.fire_at

-- Phase A: the rows returned, and the table.
unfoldable pub retire : ℕ → ℕ → ℕ → List JobRow → List JobRow × List JobRow
retire owner_id now window rows = (
  map (skip_row now) (filter (is_stale owner_id now window) rows),
  update (is_stale owner_id now window) (skip_row now) rows,
)

-- Phase B, candidate selection.
unfoldable pub candidates : ℕ → ℕ → ℕ → ℕ → List JobRow → List JobRow
candidates owner_id now batch_size window rows =
    take batch_size (sort_by (λ (r : JobRow). r.fire_at) (filter (is_due owner_id now window) rows))

unfoldable pub claim_due_jobs : ℕ → ℕ → ℕ → ℕ → List JobRow → ClaimResult × List JobRow
unfolding retire candidates claim
claim_due_jobs owner_id now batch_size window rows =
    let (retired, rows') = retire owner_id now window rows in
    let (taken, rows'') =
      claim_if_any now (ids_of (candidates owner_id now batch_size window rows')) rows' in
    (record { claimed = taken; skipped = retired }, rows'')
