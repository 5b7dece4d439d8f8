-- ===== src/ConfigLoader/Flight/Single.antt =====
-- Calls and cancellations of the reloader of tg_conductor/config_loader/reload.py.
use tg_conductor.Base.{
  ℕ, ◌+◌, ◌≡◌, refl, sym, ap, ◌∙◌, ◌≢◌, inl, inr, true, ◌||◌, Option, none, some, List, [], ◌∷◌,
  arith, ◌==◌, Bool-cases, Option-cases, ==_refl,
}
use tg_conductor.ConfigLoader.Flight.{
  Phase, unborn, starting, queued, waiting, executing, closing, finished, cancelled, Reloader,
  new_reloader, set_phase, move, reload, resume, cancel_phase, is_dead, cancel_at, cancel, Turn,
  call, resumed, stopped, turn, run_turns,
}
use tg_conductor.ConfigLoader.Flight.Roles.{
  is_running, is_behind, is_allowed, are_apart, IsSingle, set_phase_same, set_phase_other, ne_==,
  same_or_other, is_allowed_mono, move-IsSingle, true_ne_false, first_role,
}
use tg_conductor.ConfigLoader.Flight.Turns.{wrap_turn-IsSingle}

pub begin-IsSingle :
    (s : Reloader)
    → s.running ≡ none
    → IsSingle s
    → IsSingle (record s {
      running = some s.next_task;
      phase = set_phase s.next_task starting s.phase;
      next_task = s.next_task + 1;
    })
begin-IsSingle s e inv = record {
  apart = alone s.pending (rw e at inv.apart);
  roles = λ i. elim (same_or_other i s.next_task) [
    | inl d ↦ rw (set_phase_same s.next_task starting s.phase i d) (begins s.pending i d)
    | inr d ↦
        rw (set_phase_other s.next_task starting s.phase i d)
          (stays s.pending i (s.phase i) d (rw e at inv.apart) (rw e at (inv.roles i)))
  ];
  fresh = λ i b.
      rw (set_phase_other s.next_task starting s.phase i (λ d. omega arith))
        (inv.fresh i (omega arith));
}
  where
    alone :
        (pending : Option ℕ)
        → are_apart none pending ≡ true
        → are_apart (some s.next_task) pending ≡ true
    alone none h = refl
    alone (some p) h = absurd cc

    begins :
        (pending : Option ℕ) (i : ℕ)
        → i ≡ s.next_task
        → is_allowed (some s.next_task) pending i starting ≡ true
    begins none i d = ground arith
    begins (some p) i d = ground arith

    stays :
        (pending : Option ℕ) (i : ℕ) (ph : Phase)
        → i ≢ s.next_task
        → are_apart none pending ≡ true
        → is_dead ph ≡ true
        → is_allowed (some s.next_task) pending i ph ≡ true
    stays none i ph d h k = rw (ne_== i s.next_task d) k
    stays (some p) i ph d h k = absurd cc

pub queue-IsSingle :
    (r : ℕ) (s : Reloader)
    → s.running ≡ some r
    → s.pending ≡ none
    → IsSingle s
    → IsSingle (record s {
      pending = some s.next_task;
      phase = set_phase s.next_task queued s.phase;
      next_task = s.next_task + 1;
    })
queue-IsSingle r s e d inv = record {
  apart = rw e (rw (ne_== s.next_task r (λ c. next_not (sym c))) refl);
  roles = λ i. elim (same_or_other i s.next_task) [
    | inl c ↦
        rw (set_phase_same s.next_task queued s.phase i c, e, c)
          (rw (ne_== s.next_task r (λ c. next_not (sym c)), ==_refl s.next_task) refl)
    | inr c ↦
        rw (set_phase_other s.next_task queued s.phase i c, e)
          (rw (ne_== i s.next_task c) (rw (e, d) at (inv.roles i)))
  ];
  fresh = λ i b.
      rw (set_phase_other s.next_task queued s.phase i (λ d. omega arith))
        (inv.fresh i (omega arith));
}
  where
    next_not : r ≡ s.next_task → ⊥
    next_not c = true_ne_false (
        sym (first_role s inv r e)
        ∙ ap (λ n. is_running (s.phase n)) c
        ∙ ap is_running (inv.fresh s.next_task (omega arith)))

pub reload-IsSingle : (s : Reloader) → IsSingle s → IsSingle (reload s).1
unfolding reload
reload-IsSingle s inv = elim (Option-cases s.running) [
  | inl e ↦ rw (e, reload) (begin-IsSingle s e inv)
  | inr (r, e) ↦ elim (Option-cases s.pending) [
    | inl d ↦ rw (e, d, reload) (queue-IsSingle r s e d inv)
    | inr (p, d) ↦ rw (e, d, reload) inv
  ]
]

cancel_move :
    (id : ℕ) (s : Reloader) → IsSingle s → IsSingle (move id (cancel_phase (s.phase id)) s)
cancel_move id s inv =
    move-IsSingle id (cancel_phase (s.phase id)) s inv
      (is_allowed_mono s.running s.pending id (s.phase id) (cancel_phase (s.phase id))
        (runs (s.phase id)) (behind (s.phase id)) (dead (s.phase id)) (inv.roles id))
      (λ n. ap cancel_phase (inv.fresh id n))
  where
    runs : (a : Phase) → is_running a ≡ true → is_running (cancel_phase a) ≡ true
    runs unborn h = h
    runs starting h = refl
    runs queued h = refl
    runs (waiting q) h = refl
    runs (executing k) h = refl
    runs (closing c) h = refl
    runs finished h = h
    runs cancelled h = h

    behind : (a : Phase) (r : ℕ) → is_behind r a ≡ true → is_behind r (cancel_phase a) ≡ true
    behind unborn r h = h
    behind starting r h = refl
    behind queued r h = refl
    behind (waiting q) r h = refl
    behind (executing k) r h = h
    behind (closing c) r h = refl
    behind finished r h = h
    behind cancelled r h = h

    dead : (a : Phase) → is_dead a ≡ true → is_dead (cancel_phase a) ≡ true
    dead unborn h = h
    dead starting h = refl
    dead queued h = refl
    dead (waiting q) h = refl
    dead (executing k) h = h
    dead (closing c) h = refl
    dead finished h = h
    dead cancelled h = h

cancel_at-IsSingle :
    (id : ℕ) (ph : Phase) (s : Reloader)
    → s.phase id ≡ ph
    → IsSingle s
    → IsSingle (cancel_at id ph s)
cancel_at-IsSingle id (waiting q) s e inv = elim (Bool-cases (q == id || is_dead (s.phase q))) [
  | inl d ↦ rw d (rw e at (cancel_move id s inv))
  | inr d ↦ rw d (cancel_move q s inv)
]
cancel_at-IsSingle id unborn s e inv = rw e at (cancel_move id s inv)
cancel_at-IsSingle id starting s e inv = rw e at (cancel_move id s inv)
cancel_at-IsSingle id queued s e inv = rw e at (cancel_move id s inv)
cancel_at-IsSingle id (executing k) s e inv = rw e at (cancel_move id s inv)
cancel_at-IsSingle id (closing c) s e inv = rw e at (cancel_move id s inv)
cancel_at-IsSingle id finished s e inv = rw e at (cancel_move id s inv)
cancel_at-IsSingle id cancelled s e inv = rw e at (cancel_move id s inv)

pub turn-IsSingle : (t : Turn) (s : Reloader) → IsSingle s → IsSingle (turn t s)
unfolding resume cancel
turn-IsSingle call s inv = reload-IsSingle s inv
turn-IsSingle (resumed id) s inv = wrap_turn-IsSingle id (s.phase id) s refl inv
turn-IsSingle (stopped id) s inv = cancel_at-IsSingle id (s.phase id) s refl inv

pub run_turns-IsSingle :
    (turns : List Turn) (s : Reloader) → IsSingle s → IsSingle (run_turns turns s)
unfolding run_turns
run_turns-IsSingle [] s inv = inv
run_turns-IsSingle (t ∷ turns) s inv = run_turns-IsSingle turns (turn t s) (turn-IsSingle t s inv)

pub new-IsSingle : (awaits : ℕ → ℕ) → IsSingle (new_reloader awaits)
new-IsSingle awaits = record { apart = refl; roles = λ i. refl; fresh = λ i h. refl }
