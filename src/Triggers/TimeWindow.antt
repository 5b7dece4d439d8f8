-- ===== src/Triggers/TimeWindow.antt =====
-- `expand` of tg_conductor/triggers/time_window.py. All times have one time zone, so that they are wall
-- clock times, in microseconds, and a difference is one of wall clocks. `uniform k free` is the value
-- that the draw `rng.uniform(0.0, free)` gives when `k` more draws follow; `parse_duration` has made
-- `min_gap` positive.
pub mod Spacing
use tg_conductor.Base.{
  ℕ, zero, suc, ◌+◌, ◌-◌, ◌*◌, ◌/◌, min, Option, none, some, List, [], ◌∷◌, ltb, leb, ◌==◌,
  if◌then◌else◌, sort_by,
}
use tg_conductor.Workflows.Schema.{Count, exactly, between, CountRange}

-- `_sample_count`, with the value that `rng.randint` draws
unfoldable pub sample_count : (ℕ → ℕ → ℕ) → Count → ℕ
sample_count randint (exactly n) = n
sample_count randint (between r) = randint r.min r.max

-- `max(window_start, now)`, and nothing once the window is over
unfoldable pub effective_start : ℕ → ℕ → Option ℕ → Option ℕ
effective_start window_start window_end none = some window_start
effective_start window_start window_end (some now) =
    if leb window_end now then none else some (if ltb window_start now then now else window_start)

-- the count that fits: `n`, or `window // min_gap + 1` where the gaps alone are longer than the window
unfoldable pub feasible_count : ℕ → ℕ → ℕ → ℕ
feasible_count window n min_gap = if ltb window ((n - 1) * min_gap) then window / min_gap + 1 else n

-- `[eff_start + offsets[i] + i * min_gap for i in range(n)]`, from index `i` on
unfoldable pub place : ℕ → ℕ → ℕ → List ℕ → List ℕ
place start min_gap i [] = []
place start min_gap i (offset ∷ offsets) =
    (start + (offset + i * min_gap)) ∷ place start min_gap (suc i) offsets

-- `n` draws of `rng.uniform(0.0, free_space)`
unfoldable pub draws : (ℕ → ℕ → ℕ) → ℕ → ℕ → List ℕ
draws uniform free zero = []
draws uniform free (suc n) = uniform n free ∷ draws uniform free n

-- past the window, with its effective start
unfoldable pub expand_from : (ℕ → ℕ → ℕ) → ℕ → ℕ → ℕ → ℕ → List ℕ
unfolding feasible_count place draws
expand_from uniform start window n min_gap =
    let m = feasible_count window n min_gap in
    let free = window - (m - 1) * min_gap in
    place start min_gap 0 (sort_by (λ (x : ℕ). x) (draws uniform free m))

-- The guards of `expand`: the window is over or empty, or nothing is to be drawn.
unfoldable pub expand_at : (ℕ → ℕ → ℕ) → Option ℕ → ℕ → ℕ → ℕ → List ℕ
unfolding expand_from
expand_at uniform none window_end n min_gap = []
expand_at uniform (some start) window_end n min_gap =
    if leb window_end start
    then []
    else if n == 0
    then []
    else expand_from uniform start (window_end - start) n min_gap

module _ (randint uniform : ℕ → ℕ → ℕ) where
  unfoldable pub expand : Count → ℕ → ℕ → ℕ → Option ℕ → List ℕ
  unfolding expand_at effective_start sample_count
  expand count min_gap window_start window_end now =
      expand_at uniform (effective_start window_start window_end now) window_end
        (sample_count randint count) min_gap
