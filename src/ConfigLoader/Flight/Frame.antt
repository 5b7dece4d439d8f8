-- ===== src/ConfigLoader/Flight/Frame.antt =====
-- The tasks of the reloader of tg_conductor/config_loader/reload.py that another's turn is not about.
use tg_conductor.Base.{
  ℕ, ◌≡◌, refl, sym, ap, ◌∙◌, ◌≢◌, inl, inr, Bool, false, Option, none, some, arith, ◌==◌,
  if◌then◌else◌, Bool-cases, Option-cases, zero, suc,
}
use tg_conductor.ConfigLoader.Flight.{
  Phase, unborn, starting, queued, waiting, executing, closing, finished, cancelled, Reloader, move,
  reload, read_previous, await_previous, wrap_turn, resume,
}
use tg_conductor.ConfigLoader.Flight.Roles.{IsSingle, set_phase_other, some-injective}
use tg_conductor.ConfigLoader.Flight.Turns.{promoted_role}

-- A turn of one task leaves the phases of the others.
pub resume-other : (j i : ℕ) (s : Reloader) → i ≢ j → (resume j s).phase i ≡ s.phase i
unfolding resume
resume-other j i s n = wrap_turn-other (s.phase j)
  where
    moved : (ph : Phase) → (move j ph s).phase i ≡ s.phase i
    moved ph = set_phase_other j ph s.phase i n

    read : (running : Option ℕ) → (read_previous j running s).phase i ≡ s.phase i
    read none = moved (executing (s.awaits j))
    read (some q) = moved (waiting q)

    awaited : (ph : Phase) → (await_previous j ph s).phase i ≡ s.phase i
    awaited finished = moved (executing (s.awaits j))
    awaited cancelled = moved cancelled
    awaited unborn = refl
    awaited starting = refl
    awaited queued = refl
    awaited (waiting q) = refl
    awaited (executing k) = refl
    awaited (closing c) = refl

    wrap_turn-other : (ph : Phase) → (wrap_turn j ph s).phase i ≡ s.phase i
    wrap_turn-other starting = moved (executing (s.awaits j))
    wrap_turn-other queued = read s.running
    wrap_turn-other (waiting q) = elim (Bool-cases (q == j)) [
      | inl e ↦ rw e (moved (executing (s.awaits j)))
      | inr e ↦ rw e (awaited (s.phase q))
    ]
    wrap_turn-other (executing zero) = moved (closing false)
    wrap_turn-other (executing (suc k)) = moved (executing k)
    wrap_turn-other (closing c) = set_phase_other j (if c then cancelled else finished) s.phase i n
    wrap_turn-other unborn = refl
    wrap_turn-other finished = refl
    wrap_turn-other cancelled = refl

-- A call leaves the phases of the tasks that exist.
pub reload-other :
    (s : Reloader) (i : ℕ) → IsSingle s → s.phase i ≢ unborn → (reload s).1.phase i ≡ s.phase i
unfolding reload
reload-other s i inv n = elim (Option-cases s.running) [
  | inl e ↦ rw (e, reload) (set_phase_other s.next_task starting s.phase i old)
  | inr (r, e) ↦ elim (Option-cases s.pending) [
    | inl d ↦ rw (e, d, reload) (set_phase_other s.next_task queued s.phase i old)
    | inr (p, d) ↦ rw (e, d, reload) refl
  ]
]
  where
    old : i ≢ s.next_task
    old e = n (ap s.phase e ∙ inv.fresh s.next_task (omega arith))

-- Only a task that closes changes the first slot by its turn.
pub resume-slots :
    (j : ℕ) (s : Reloader)
    → ((c : Bool) → s.phase j ≢ closing c)
    → ((resume j s).running ≡ s.running) × ((resume j s).pending ≡ s.pending)
unfolding resume
resume-slots j s n = wrap_turn-slots (s.phase j) n
  where
    awaited :
        (ph : Phase)
        → ((await_previous j ph s).running ≡ s.running)
          × ((await_previous j ph s).pending ≡ s.pending)
    awaited finished = (refl, refl)
    awaited cancelled = (refl, refl)
    awaited unborn = (refl, refl)
    awaited starting = (refl, refl)
    awaited queued = (refl, refl)
    awaited (waiting q) = (refl, refl)
    awaited (executing k) = (refl, refl)
    awaited (closing c) = (refl, refl)

    read :
        (q : Option ℕ)
        → ((read_previous j q s).running ≡ s.running) × ((read_previous j q s).pending ≡ s.pending)
    read none = (refl, refl)
    read (some q) = (refl, refl)

    wrap_turn-slots :
        (ph : Phase)
        → ((c : Bool) → ph ≢ closing c)
        → ((wrap_turn j ph s).running ≡ s.running) × ((wrap_turn j ph s).pending ≡ s.pending)
    wrap_turn-slots starting n = (refl, refl)
    wrap_turn-slots queued n = read s.running
    wrap_turn-slots (waiting q) n = elim (Bool-cases (q == j)) [
      | inl d ↦ rw d (refl, refl)
      | inr d ↦ rw d (awaited (s.phase q))
    ]
    wrap_turn-slots (executing zero) n = (refl, refl)
    wrap_turn-slots (executing (suc k)) n = (refl, refl)
    wrap_turn-slots (closing c) n = absurd (n c refl)
    wrap_turn-slots unborn n = (refl, refl)
    wrap_turn-slots finished n = (refl, refl)
    wrap_turn-slots cancelled n = (refl, refl)

pub not_first-closing :
    (j r : ℕ) (s : Reloader)
    → IsSingle s
    → s.running ≡ some r
    → j ≢ r
    → (c : Bool) → s.phase j ≢ closing c
not_first-closing j r s inv f n c e =
    n (some-injective (sym (promoted_role s.running s.pending j c (rw e at (inv.roles j))) ∙ f))

-- How many waits an execution has is never written.
pub resume-awaits : (j : ℕ) (s : Reloader) → (resume j s).awaits ≡ s.awaits
unfolding resume
resume-awaits j s = wrap_turn-awaits (s.phase j)
  where
    awaited : (ph : Phase) → (await_previous j ph s).awaits ≡ s.awaits
    awaited finished = refl
    awaited cancelled = refl
    awaited unborn = refl
    awaited starting = refl
    awaited queued = refl
    awaited (waiting q) = refl
    awaited (executing k) = refl
    awaited (closing c) = refl

    read : (q : Option ℕ) → (read_previous j q s).awaits ≡ s.awaits
    read none = refl
    read (some q) = refl

    wrap_turn-awaits : (ph : Phase) → (wrap_turn j ph s).awaits ≡ s.awaits
    wrap_turn-awaits starting = refl
    wrap_turn-awaits queued = read s.running
    wrap_turn-awaits (waiting q) = elim (Bool-cases (q == j)) [
      | inl d ↦ rw d refl
      | inr d ↦ rw d (awaited (s.phase q))
    ]
    wrap_turn-awaits (executing zero) = refl
    wrap_turn-awaits (executing (suc k)) = refl
    wrap_turn-awaits (closing c) = refl
    wrap_turn-awaits unborn = refl
    wrap_turn-awaits finished = refl
    wrap_turn-awaits cancelled = refl

pub reload-awaits : (s : Reloader) → (reload s).1.awaits ≡ s.awaits
unfolding reload
reload-awaits s = elim (Option-cases s.running) [
  | inl e ↦ rw (e, reload) refl
  | inr (r, e) ↦ elim (Option-cases s.pending) [
    | inl d ↦ rw (e, d, reload) refl
    | inr (p, d) ↦ rw (e, d, reload) refl
  ]
]
