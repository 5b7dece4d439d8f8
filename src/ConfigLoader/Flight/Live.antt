-- ===== src/ConfigLoader/Flight/Live.antt =====
-- Waiting tasks of the reloader of tg_conductor/config_loader/reload.py,
-- without cancellations.
use tg_conductor.Base.{
  ℕ, ◌+◌, ◌≤◌, ◌≡◌, refl, sym, ap, ◌∙◌, ◌≢◌, ◌⊎◌, inl, inr, Bool, true, false, Option, some, arith,
}
use tg_conductor.ConfigLoader.Flight.{
  Phase, unborn, starting, queued, waiting, executing, closing, finished, cancelled, Reloader,
  set_phase, move, promote, Turn, call, resumed, stopped,
}
use tg_conductor.ConfigLoader.Flight.Roles.{
  IsSingle, set_phase_same, set_phase_other, same_or_other, some-injective, true_ne_false,
}
use tg_conductor.ConfigLoader.Flight.Turns.{promoted_role}

abbrev pub was_stopped : Phase → Bool
was_stopped cancelled = true
was_stopped (closing c) = c
was_stopped unborn = false
was_stopped starting = false
was_stopped queued = false
was_stopped (waiting q) = false
was_stopped (executing k) = false
was_stopped finished = false

abbrev pub is_stop : Turn → Bool
is_stop call = false
is_stop (resumed i) = false
is_stop (stopped i) = true

pub record IsLive (s : Reloader) : Type 0 where
  pub single : IsSingle s
  pub unstopped : (i : ℕ) → was_stopped (s.phase i) ≡ false
  pub within : (i k : ℕ) → s.phase i ≡ executing k → k ≤ s.awaits i
  pub waits :
      (i q : ℕ) → s.phase i ≡ waiting q → (q ≡ i) ⊎ (s.phase q ≡ finished) ⊎ (s.running ≡ some q)

-- A live task moves on, to a phase that waits for the running task, if for any.
pub move-IsLive :
    (id : ℕ) (a b : Phase) (s : Reloader)
    → s.phase id ≡ a
    → a ≢ finished
    → IsLive s
    → IsSingle (move id b s)
    → was_stopped b ≡ false
    → ((q : ℕ) → b ≡ waiting q → s.running ≡ some q)
    → ((k : ℕ) → b ≡ executing k → k ≤ s.awaits id)
    → IsLive (move id b s)
move-IsLive id a b s e n live inv h w g = record {
  single = inv;
  unstopped = λ i. elim (same_or_other i id) [
    | inl d ↦ rw (set_phase_same id b s.phase i d) h
    | inr d ↦ rw (set_phase_other id b s.phase i d) (live.unstopped i)
  ];
  within = λ i k f. elim (same_or_other i id) [
    | inl d ↦ rw d (g k (sym (set_phase_same id b s.phase i d) ∙ f))
    | inr d ↦ live.within i k (sym (set_phase_other id b s.phase i d) ∙ f)
  ];
  waits = λ i q f. elim (same_or_other i id) [
    | inl d ↦ inr (inr (w q (sym (set_phase_same id b s.phase i d) ∙ f)))
    | inr d ↦ still i q (live.waits i q (sym (set_phase_other id b s.phase i d) ∙ f))
  ];
}
  where
    still :
        (i q : ℕ)
        → (q ≡ i) ⊎ (s.phase q ≡ finished) ⊎ (s.running ≡ some q)
        → (q ≡ i) ⊎ (set_phase id b s.phase q ≡ finished) ⊎ (s.running ≡ some q)
    still i q (inl f) = inl f
    still i q (inr (inr f)) = inr (inr f)
    still i q (inr (inl f)) =
        inr (inl (set_phase_other id b s.phase q (λ d. n (sym e ∙ ap s.phase (sym d) ∙ f)) ∙ f))

pub promote-IsLive :
    (id : ℕ) (c : Bool) (s : Reloader)
    → s.phase id ≡ closing c
    → IsLive s
    → IsSingle (promote id c s)
    → IsLive (promote id c s)
promote-IsLive id true s e live inv =
    absurd (true_ne_false (ap was_stopped (sym e) ∙ live.unstopped id))
promote-IsLive id false s e live inv = record {
  single = inv;
  unstopped = λ i. elim (same_or_other i id) [
    | inl d ↦ rw (set_phase_same id finished s.phase i d) refl
    | inr d ↦ rw (set_phase_other id finished s.phase i d) (live.unstopped i)
  ];
  within = λ i k f. elim (same_or_other i id) [
    | inl d ↦ absurd (not_executing (sym (set_phase_same id finished s.phase i d) ∙ f))
    | inr d ↦ live.within i k (sym (set_phase_other id finished s.phase i d) ∙ f)
  ];
  waits = λ i q f. elim (same_or_other i id) [
    | inl d ↦ absurd (not_waiting (sym (set_phase_same id finished s.phase i d) ∙ f))
    | inr d ↦ still i q (live.waits i q (sym (set_phase_other id finished s.phase i d) ∙ f))
  ];
}
  where
    not_waiting : {q : ℕ} → finished ≡ waiting q → ⊥
    not_waiting h = cc

    not_executing : {k : ℕ} → finished ≡ executing k → ⊥
    not_executing h = cc

    ends : (q : ℕ) → s.phase q ≡ finished → set_phase id finished s.phase q ≡ finished
    ends q f = elim (same_or_other q id) [
      | inl d ↦ set_phase_same id finished s.phase q d
      | inr d ↦ set_phase_other id finished s.phase q d ∙ f
    ]

    still :
        (i q : ℕ)
        → (q ≡ i) ⊎ (s.phase q ≡ finished) ⊎ (s.running ≡ some q)
        → (q ≡ i) ⊎ (set_phase id finished s.phase q ≡ finished) ⊎ (s.pending ≡ some q)
    still i q (inl f) = inl f
    still i q (inr (inl f)) = inr (inl (ends q f))
    still i q (inr (inr f)) = inr (
        inl (
          set_phase_same id finished s.phase q (
            some-injective (
              sym f
              ∙ promoted_role s.running s.pending id false (rw e at (live.single.roles id))))))

-- A new task in a free slot keeps what waits for what.
pub create-IsLive :
    (running pending : Option ℕ) (b : Phase) (s : Reloader)
    → IsLive s
    → was_stopped b ≡ false
    → ((q : ℕ) → b ≢ waiting q)
    → ((k : ℕ) → b ≢ executing k)
    → ((q : ℕ) → s.running ≡ some q → running ≡ some q)
    → IsSingle (record {
      running = running;
      pending = pending;
      phase = set_phase s.next_task b s.phase;
      next_task = s.next_task + 1;
      awaits = s.awaits;
    })
    → IsLive (record {
      running = running;
      pending = pending;
      phase = set_phase s.next_task b s.phase;
      next_task = s.next_task + 1;
      awaits = s.awaits;
    })
create-IsLive running pending b s live h n m k inv = record {
  single = inv;
  unstopped = λ i. elim (same_or_other i s.next_task) [
    | inl d ↦ rw (set_phase_same s.next_task b s.phase i d) h
    | inr d ↦ rw (set_phase_other s.next_task b s.phase i d) (live.unstopped i)
  ];
  within = λ i k f. elim (same_or_other i s.next_task) [
    | inl d ↦ absurd (m k (sym (set_phase_same s.next_task b s.phase i d) ∙ f))
    | inr d ↦ live.within i k (sym (set_phase_other s.next_task b s.phase i d) ∙ f)
  ];
  waits = λ i q f. elim (same_or_other i s.next_task) [
    | inl d ↦ absurd (n q (sym (set_phase_same s.next_task b s.phase i d) ∙ f))
    | inr d ↦ still i q (live.waits i q (sym (set_phase_other s.next_task b s.phase i d) ∙ f))
  ];
}
  where
    not_unborn : finished ≡ unborn → ⊥
    not_unborn e = cc

    old : (q : ℕ) → s.phase q ≡ finished → q ≢ s.next_task
    old q f e = not_unborn (sym f ∙ ap s.phase e ∙ live.single.fresh s.next_task (omega arith))

    still :
        (i q : ℕ)
        → (q ≡ i) ⊎ (s.phase q ≡ finished) ⊎ (s.running ≡ some q)
        → (q ≡ i) ⊎ (set_phase s.next_task b s.phase q ≡ finished) ⊎ (running ≡ some q)
    still i q (inl f) = inl f
    still i q (inr (inl f)) = inr (inl (set_phase_other s.next_task b s.phase q (old q f) ∙ f))
    still i q (inr (inr f)) = inr (inr (k q f))
