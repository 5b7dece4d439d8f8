-- ===== src/Api/Lifespan/Supervisor/Bursts.antt =====
-- Bursts of crashes under `_supervise_task` of tg_conductor/api/lifespan.py.
use tg_conductor.Base.{
  ℕ, ◌+◌, ◌-◌, ◌≤◌, ◌<◌, ◌≡◌, refl, ap, ◌∙◌, inl, inr, true, Option, some, List, [], ◌∷◌, ◌++◌,
  arith, ltb, ltb→lt, lt→ltb, not_ltb→le, Bool-cases, length, length-append, All, filter,
  filter-append, length-filter_mono, filter-filter,
}
use tg_conductor.Api.Lifespan.Supervisor.{
  TaskRun, completed, cancelled, crashed, End, graceful, was_cancelled, gave_up, recent,
  failures_at, supervise,
}

module _ (failure_window max_failures : ℕ) where
  -- the crashes of a burst
  abbrev pub all_crashed : List ℕ → List TaskRun
  all_crashed [] = []
  all_crashed (t ∷ ts) = crashed t ∷ all_crashed ts

  -- Crashes up to a time, and less than the window before it.
  abbrev pub IsBurst : ℕ → List ℕ → Type 0
  IsBurst last = All (λ t. (t ≤ last) × (last < t + failure_window))

  abbrev Ends : Option End × List ℕ → Type 0
  Ends r = (e : End) × (r.0 ≡ some e)

  within :
      (last t : ℕ)
      → t ≤ last
      → last < t + failure_window
      → recent failure_window max_failures last t ≡ true
  within last t h k = lt→ltb (last - t) failure_window (omega arith)

  -- The crashes that count at the last time count at an earlier one.
  earlier :
      (last now t : ℕ)
      → now ≤ last
      → recent failure_window max_failures last t ≡ true
      → recent failure_window max_failures now t ≡ true
  earlier last now t h e =
      lt→ltb (now - t) failure_window (omega (arith, ltb→lt (last - t) failure_window e))

  kept_of :
      (last now : ℕ) (ts : List ℕ)
      → now ≤ last
      → filter
          (recent failure_window max_failures last)
          (filter (recent failure_window max_failures now) ts)
        ≡ filter (recent failure_window max_failures last) ts
  kept_of last now ts h =
      filter-filter (recent failure_window max_failures last)
        (recent failure_window max_failures now) (λ t e. earlier last now t h e) ts

  -- how many crashes count at the last time
  abbrev counted : ℕ → List ℕ → ℕ
  counted last failures = length (filter (recent failure_window max_failures last) failures)

  counted-failures_at :
      (last now : ℕ) (failures : List ℕ)
      → now ≤ last
      → last < now + failure_window
      → counted last (failures_at failure_window max_failures now failures)
        ≡ counted last failures + 1
  counted-failures_at last now failures h k =
      ap length (
        filter-append (recent failure_window max_failures last)
          (filter (recent failure_window max_failures now) failures) (now ∷ []))
      ∙ rw (kept_of last now failures h) (
          rw (within last now h k)
            (length-append (filter (recent failure_window max_failures last) failures) (now ∷ [])))

  counted-le :
      (last now : ℕ) (failures : List ℕ)
      → now ≤ last
      → counted last failures + 1 ≤ length (failures_at failure_window max_failures now failures)
  counted-le last now failures h = omega (
    arith,
    length-append (filter (recent failure_window max_failures now) failures) (now ∷ []),
    length-filter_mono (recent failure_window max_failures last)
        (recent failure_window max_failures now) (λ t e. earlier last now t h e) failures,
  )

  burst-Ends :
      (last seen : ℕ) (burst : List ℕ) (runs : List TaskRun) (failures : List ℕ)
      → IsBurst last burst
      → seen ≤ counted last failures
      → seen ≤ max_failures
      → max_failures < seen + length burst
      → Ends (supervise failure_window max_failures (all_crashed burst ++ runs) failures)
  unfolding supervise
  burst-Ends last seen [] runs failures b c h k = absurd (omega arith)
  burst-Ends last seen (now ∷ burst) runs failures b c h k =
      let count = length (failures_at failure_window max_failures now failures) in
      let more = counted-le last now failures b.0.0 in
      let still = counted-failures_at last now failures b.0.0 b.0.1 in
      elim (Bool-cases (ltb max_failures count)) [
        | inl e ↦ (gave_up count, rw e refl)
        | inr e ↦
            let (ended, h) =
              burst-Ends last (seen + 1) burst runs
                (failures_at failure_window max_failures now failures) b.1 (omega arith)
                (omega (arith, not_ltb→le max_failures count e)) (omega arith) in
            (ended, rw e h)
      ]

  -- Whatever the task did before and would do after, it is no longer restarted at the end of more than
  -- max_failures crashes in a row that lie within one window: it was given up, or had ended.
  pub supervise-ends :
      (before after : List TaskRun) (last : ℕ) (burst failures : List ℕ)
      → IsBurst last burst
      → max_failures < length burst
      → (e : End) × ((supervise failure_window max_failures
            (before ++ all_crashed burst ++ after)
            failures).0
          ≡ some e)
  unfolding supervise
  supervise-ends [] after last burst failures b h =
      burst-Ends last 0 burst after failures b (omega arith) (omega arith) (omega arith)
  supervise-ends (completed ∷ before) after last burst failures b h = (graceful, refl)
  supervise-ends (cancelled ∷ before) after last burst failures b h = (was_cancelled, refl)
  supervise-ends (crashed now ∷ before) after last burst failures b h =
      let count = length (failures_at failure_window max_failures now failures) in
      elim (Bool-cases (ltb max_failures count)) [
        | inl e ↦ (gave_up count, rw e refl)
        | inr e ↦
            let (ended, k) =
              supervise-ends before after last burst
                (failures_at failure_window max_failures now failures) b h in
            (ended, rw e k)
      ]
