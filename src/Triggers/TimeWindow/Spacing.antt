-- ===== src/Triggers/TimeWindow/Spacing.antt =====
-- What `expand` of tg_conductor/triggers/time_window.py schedules: where, how far apart, how many.
use tg_conductor.Base.{
  ℕ, zero, suc, ◌+◌, ◌-◌, ◌*◌, ◌/◌, ◌≤◌, ◌<◌, ◌≡◌, refl, ap, ◌∙◌, inl, inr, false, Option, none,
  some, List, [], ◌∷◌, arith, ltb, leb, ◌==◌, if◌then◌else◌, ltb→lt, not_ltb→le, not_leb→lt,
  Bool-cases, length, All, All-map_weaken, sort_by, IsSortedBy, length-sort_by, sort_by-IsSortedBy,
  All-sort_by,
}
use tg_conductor.Workflows.Schema.{Count}
use tg_conductor.Triggers.TimeWindow.{
  sample_count, feasible_count, place, draws, expand_from, expand_at, expand,
}

-- Each time is at least `gap` after the one before it.
abbrev pub Spaced : ℕ → List ℕ → Type 0
Spaced gap [] = Unit
Spaced gap (t ∷ []) = Unit
Spaced gap (t ∷ u ∷ ts) = (t + gap ≤ u) × Spaced gap (u ∷ ts)

pub record IsSchedule (start finish gap : ℕ) (fires : List ℕ) : Type 0 where
  pub within : All (λ (t : ℕ). (start ≤ t) × (t ≤ finish)) fires
  pub spaced : Spaced gap fires

mul_mono : (i k gap : ℕ) → i ≤ k → i * gap ≤ k * gap
mul_mono i k gap h = grind arith

suc_mul : (i gap : ℕ) → suc i * gap ≡ i * gap + gap
suc_mul i gap = grind arith

place-Spaced :
    (start gap i : ℕ) (offsets : List ℕ)
    → IsSortedBy (λ (x : ℕ). x) offsets
    → Spaced gap (place start gap i offsets)
unfolding place
place-Spaced start gap i [] h = tt
place-Spaced start gap i (x ∷ []) h = tt
place-Spaced start gap i (x ∷ y ∷ ys) h =
    (omega (arith, suc_mul i gap, h.0.0), place-Spaced start gap (suc i) (y ∷ ys) h.1)

place-within :
    (start gap free k i : ℕ) (offsets : List ℕ)
    → length offsets + i ≤ suc k
    → All (λ (x : ℕ). x ≤ free) offsets
    → All (λ (t : ℕ). (start ≤ t) × (t ≤ start + (free + k * gap))) (place start gap i offsets)
unfolding place
place-within start gap free k i [] n h = tt
place-within start gap free k i (x ∷ xs) n h = (
  (omega arith, omega (arith, mul_mono i k gap (omega arith), h.0)),
  place-within start gap free k (suc i) xs (omega arith) h.1,
)

length-place :
    (start gap i : ℕ) (offsets : List ℕ) → length (place start gap i offsets) ≡ length offsets
unfolding place
length-place start gap i [] = refl
length-place start gap i (x ∷ xs) = ap suc (length-place start gap (suc i) xs)

length-draws : (uniform : ℕ → ℕ → ℕ) (free n : ℕ) → length (draws uniform free n) ≡ n
unfolding draws
length-draws uniform free zero = refl
length-draws uniform free (suc n) = ap suc (length-draws uniform free n)

draws-le :
    (uniform : ℕ → ℕ → ℕ)
    → ((k free : ℕ) → uniform k free ≤ free)
    → (free n : ℕ) → All (λ (x : ℕ). x ≤ free) (draws uniform free n)
unfolding draws
draws-le uniform h free zero = tt
draws-le uniform h free (suc n) = (h n free, draws-le uniform h free n)

div_fits : (w gap : ℕ) → (w / gap) * gap ≤ w
div_fits w gap = grind arith

div_next : (w gap : ℕ) → 0 < gap → w < (w / gap + 1) * gap
div_next w gap h = grind arith

div_less : (w n gap : ℕ) → w < (n - 1) * gap → w / gap + 1 ≤ n
div_less w n gap h = grind (arith, div_fits w gap)

pred_of_suc : (x : ℕ) → x + 1 - 1 ≡ x
pred_of_suc x = omega arith

-- the gaps alone fit
feasible_fits : (window n gap : ℕ) → (feasible_count window n gap - 1) * gap ≤ window
unfolding feasible_count
feasible_fits window n gap = elim (Bool-cases (ltb window ((n - 1) * gap))) [
  | inl e ↦ rw e (rw (pred_of_suc (window / gap)) (div_fits window gap))
  | inr e ↦ rw e (not_ltb→le window ((n - 1) * gap) e)
]

gap_pos : (w n gap : ℕ) → w < n * gap → 0 < gap
gap_pos w n zero h = grind arith
gap_pos w n (suc gap) h = omega arith

-- How many times fit the request: all that were asked for, or one gap more would not fit.
pub record IsMost (window n gap m : ℕ) : Type 0 where
  pub some_fire : 0 < m
  pub asked : m ≤ n
  pub fits : (m - 1) * gap ≤ window
  pub no_more : m < n → window < m * gap

feasible-IsMost : (window n gap : ℕ) → 0 < n → IsMost window n gap (feasible_count window n gap)
unfolding feasible_count
feasible-IsMost window n gap h = elim (Bool-cases (ltb window ((n - 1) * gap))) [
  | inl e ↦
      let short : window < (n - 1) * gap = ltb→lt window ((n - 1) * gap) e in
      rw e (record {
        some_fire = omega arith;
        asked = div_less window n gap short;
        fits = rw (pred_of_suc (window / gap)) (div_fits window gap);
        no_more = λ _. div_next window gap (gap_pos window (n - 1) gap short);
      })
  | inr e ↦ rw e (record {
    some_fire = h;
    asked = omega arith;
    fits = not_ltb→le window ((n - 1) * gap) e;
    no_more = λ l. absurd (omega arith);
  })
]

-- the times that a window which is still open is given
module _ (uniform : ℕ → ℕ → ℕ) where
  from_IsSchedule :
      ((k free : ℕ) → uniform k free ≤ free)
      → (start finish n gap : ℕ) → start ≤ finish
      → 0 < n
      → IsSchedule start finish gap (expand_from uniform start (finish - start) n gap)
  unfolding expand_from
  from_IsSchedule bounded start finish n gap ordered some_wanted =
      let window : ℕ = finish - start in
      let m : ℕ = feasible_count window n gap in
      let free : ℕ = window - (m - 1) * gap in
      let offsets : List ℕ = draws uniform free m in
      let most = feasible-IsMost window n gap some_wanted in
      let last : start + (free + (m - 1) * gap) ≡ finish = omega (arith, most.fits) in
      record {
        within =
            All-map_weaken (λ (t : ℕ). (start ≤ t) × (t ≤ start + (free + (m - 1) * gap)))
              (λ (t : ℕ). (start ≤ t) × (t ≤ finish)) (λ t h. (h.0, omega (arith, h.1, last)))
              (place start gap 0 (sort_by (λ (x : ℕ). x) offsets))
              (place-within start gap free (m - 1) 0 (sort_by (λ (x : ℕ). x) offsets)
                (omega (
                  arith,
                  length-sort_by (λ (x : ℕ). x) offsets,
                  length-draws uniform free m,
                  most.some_fire,
                ))
                (All-sort_by (λ (x : ℕ). x) (λ (x : ℕ). x ≤ free) offsets
                  (draws-le uniform bounded free m)));
        spaced =
            place-Spaced start gap 0 (sort_by (λ (x : ℕ). x) offsets)
              (sort_by-IsSortedBy (λ (x : ℕ). x) offsets);
      }

  length-expand_from :
      (start window n gap : ℕ)
      → length (expand_from uniform start window n gap) ≡ feasible_count window n gap
  unfolding expand_from
  length-expand_from start window n gap =
      let m : ℕ = feasible_count window n gap in
      let offsets : List ℕ = draws uniform (window - (m - 1) * gap) m in
      length-place start gap 0 (sort_by (λ (x : ℕ). x) offsets)
      ∙ length-sort_by (λ (x : ℕ). x) offsets
      ∙ length-draws uniform (window - (m - 1) * gap) m

  at-IsSchedule :
      ((k free : ℕ) → uniform k free ≤ free)
      → (start finish n gap : ℕ)
      → IsSchedule start finish gap (expand_at uniform (some start) finish n gap)
  unfolding expand_at
  at-IsSchedule bounded start finish n gap = elim (Bool-cases (leb finish start)) [
    | inl over ↦ rw over (record { within = tt; spaced = tt })
    | inr open_ ↦ rw open_ (elim (Bool-cases (n == 0)) [
      | inl z ↦ rw z (record { within = tt; spaced = tt })
      | inr nz ↦ rw nz (
          from_IsSchedule bounded start finish n gap (omega (arith, not_leb→lt finish start open_))
            (ground arith))
    ])
  ]

  at-IsMost :
      (start finish n gap : ℕ)
      → start < finish
      → 0 < n
      → IsMost (finish - start) n gap (length (expand_at uniform (some start) finish n gap))
  unfolding expand_at
  at-IsMost start finish n gap open_ wanted =
      let still : leb finish start ≡ false = ground arith in
      let any_ : (n == 0) ≡ false = ground arith in
      rw still (
        rw any_ (
          rw (length-expand_from start (finish - start) n gap)
            (feasible-IsMost (finish - start) n gap wanted)))

-- the start of the window, or `now` if that is later
abbrev pub later : ℕ → Option ℕ → ℕ
later window_start none = window_start
later window_start (some now) = if ltb window_start now then now else window_start

module _ (randint uniform : ℕ → ℕ → ℕ) where
  -- If each draw of `uniform` lies in its range, then every time that a window is given lies between
  -- its start, or now if that is later, and its end, and is at least `min_gap` after the one before.
  pub expand-IsSchedule :
      ((k free : ℕ) → uniform k free ≤ free)
      → (count : Count) (min_gap window_start window_end : ℕ) (now : Option ℕ)
      → IsSchedule
          (later window_start now)
          window_end
          min_gap
          (expand randint uniform count min_gap window_start window_end now)
  unfolding expand
  expand-IsSchedule bounded count min_gap ws we none =
      at-IsSchedule uniform bounded ws we (sample_count randint count) min_gap
  expand-IsSchedule bounded count min_gap ws we (some now) = elim (Bool-cases (leb we now)) [
    | inl over ↦ rw over (record { within = tt; spaced = tt })
    | inr open_ ↦ rw open_ (
        at-IsSchedule uniform bounded (later ws (some now)) we (sample_count randint count) min_gap)
  ]

  -- Where the window is still open and the sampled count is not 0, as many times are given as were
  -- sampled, or else as many as fit: one more would not leave the gaps in what is left of the window.
  pub length-expand :
      (count : Count) (min_gap window_start window_end : ℕ) (now : Option ℕ)
      → later window_start now < window_end
      → 0 < sample_count randint count
      → IsMost
          (window_end - later window_start now)
          (sample_count randint count)
          min_gap
          (length (expand randint uniform count min_gap window_start window_end now))
  unfolding expand
  length-expand count min_gap ws we none open_ wanted =
      at-IsMost uniform ws we (sample_count randint count) min_gap open_ wanted
  length-expand count min_gap ws we (some now) open_ wanted =
      let still : leb we now ≡ false = ground arith in
      rw still (
        at-IsMost uniform (later ws (some now)) we (sample_count randint count) min_gap open_
          wanted)
