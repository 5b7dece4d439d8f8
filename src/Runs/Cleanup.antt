-- ===== src/Runs/Cleanup.antt =====
-- tg_conductor/runs/cleanup.py: events past their time to live are deleted. Days are whole
-- microseconds; a time to live of 0 or less is `none`.
use tg_conductor.Base.{
  ℕ, zero, suc, ◌+◌, ◌*◌, ◌≤◌, ◌≡◌, refl, ◌∙◌, Bool, true, false, not, Option, none, some, List, [],
  ◌∷◌, ◌++◌, arith, ltb, if◌then◌else◌, length, All, filter, filter-filter, ◌<◌, leb, ap,
}

-- a row of `run_events`, for the purge
pub record StoredEvent : Type 0 where
  pub id : ℕ
  pub run_id : ℕ
  pub ts : ℕ

-- `timedelta(days=...)`
abbrev pub days : ℕ → ℕ
days n = n * 86400000000

-- `ts < now - ttl`
abbrev pub is_expired : ℕ → ℕ → StoredEvent → Bool
is_expired ttl_days now r = ltb (r.ts + days ttl_days) now

-- `_disabled`
abbrev pub ttl_disabled : Option ℕ → Bool
ttl_disabled none = true
ttl_disabled (some zero) = true
ttl_disabled (some (suc n)) = false

abbrev pub days_or_zero : Option ℕ → ℕ
days_or_zero none = 0
days_or_zero (some n) = n

-- the row count, and the table
unfoldable pub purge_expired_events : Option ℕ → ℕ → List StoredEvent → ℕ × List StoredEvent
purge_expired_events ttl_days now rows = if ttl_disabled ttl_days then (0, rows) else (
  length (filter (is_expired (days_or_zero ttl_days) now) rows),
  filter (λ r. not (is_expired (days_or_zero ttl_days) now r)) rows,
)

-- one pass of the loop; `commits` says whether its transaction does, and an exception is logged
unfoldable pub purge_tick : Option ℕ → ℕ → Bool → List StoredEvent → List StoredEvent
unfolding purge_expired_events
purge_tick ttl_days now commits rows =
    if ttl_disabled ttl_days
    then rows
    else if commits
    then (purge_expired_events ttl_days now rows).1
    else rows

unfoldable pub run_ticks : Option ℕ → List (ℕ × Bool) → List StoredEvent → List StoredEvent
unfolding purge_tick
run_ticks ttl_days [] rows = rows
run_ticks ttl_days ((now, commits) ∷ ticks) rows =
    run_ticks ttl_days ticks (purge_tick ttl_days now commits rows)

-- A time to live, if it is positive.
abbrev PositiveDays : Option ℕ → ℕ → Type 0
PositiveDays ttl_days n = (ttl_days ≡ some n) × (0 < n)

module _ (n : ℕ) where
  -- Is an event at most n days of 24 hours old, in microseconds?
  abbrev pub lives : ℕ → StoredEvent → Bool
  lives last r = leb last (r.ts + n * (24 * 60 * 60 * 1000000))

  lives_earlier :
      (last now : ℕ) (r : StoredEvent) → now ≤ last → lives last r ≡ true → lives now r ≡ true
  lives_earlier last now r h k = ground (arith, h, k)

  not_expired : (last : ℕ) (r : StoredEvent) → not (is_expired n last r) ≡ lives last r
  not_expired last r = ground arith

  filter-lives :
      (last : ℕ) (rows : List StoredEvent)
      → filter (λ r. not (is_expired n last r)) rows ≡ filter (λ r. lives last r) rows
  filter-lives last [] = refl
  filter-lives last (r ∷ rows) = rw (not_expired last r, filter-lives last rows) refl

  purge-lives :
      (ttl_days : Option ℕ) (now : ℕ) (rows : List StoredEvent)
      → PositiveDays ttl_days n
      → purge_tick ttl_days now true rows ≡ filter (λ r. lives now r) rows
  unfolding purge_tick purge_expired_events
  purge-lives none now rows h = absurd cc
  purge-lives (some zero) now rows h = absurd (zero_days (h.0) h.1)
    where
      zero_days : some zero ≡ some n → 0 < n → ⊥
      zero_days e p = grind arith
  purge-lives (some (suc m)) now rows h = rw (days_of h.0) (filter-lives now rows)
    where
      days_of : some (suc m) ≡ some n → suc m ≡ n
      days_of e = cc

  -- Whenever the passes of the cleaner came and whether their transactions committed, with a time to
  -- live of n > 0 days, a pass that comes no earlier than they and commits leaves exactly the events
  -- that are at most n times 24 hours old at that moment, in their order.
  pub run_ticks-lives :
      (ttl_days : Option ℕ) (last : ℕ) (ticks : List (ℕ × Bool)) (rows : List StoredEvent)
      → ttl_days ≡ some n
      → 0 < n
      → All (λ (t : ℕ × Bool). t.0 ≤ last) ticks
      → run_ticks ttl_days (ticks ++ (last, true) ∷ []) rows ≡ filter (λ r. lives last r) rows
  unfolding run_ticks purge_tick
  run_ticks-lives ttl_days last [] rows e p h = purge-lives ttl_days last rows (e, p)
  run_ticks-lives ttl_days last ((now, true) ∷ ticks) rows e p h =
      run_ticks-lives ttl_days last ticks (purge_tick ttl_days now true rows) e p h.1
      ∙ ap (λ (l : List StoredEvent). filter (λ r. lives last r) l)
          (purge-lives ttl_days now rows (e, p))
      ∙ filter-filter (lives last) (lives now) (λ r k. lives_earlier last now r h.0 k) rows
  run_ticks-lives ttl_days last ((now, false) ∷ ticks) rows e p h =
      ap (λ (l : List StoredEvent). run_ticks ttl_days (ticks ++ (last, true) ∷ []) l)
        (rolled_back ttl_days)
      ∙ run_ticks-lives ttl_days last ticks rows e p h.1
    where
      rolled_back : (t : Option ℕ) → purge_tick t now false rows ≡ rows
      rolled_back none = refl
      rolled_back (some zero) = refl
      rolled_back (some (suc m)) = refl
