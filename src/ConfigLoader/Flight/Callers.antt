-- ===== src/ConfigLoader/Flight/Callers.antt =====
-- The callers of the reloader of tg_conductor/config_loader/reload.py.
use tg_conductor.Base.{
  ℕ, ◌≤◌, ◌≡◌, refl, sym, ap, ◌∙◌, ◌≢◌, ◌⊎◌, inl, inr, Bool, false, some, List, [], ◌∷◌, arith, All,
  Option-cases, zero, suc, ◌+◌,
}
use tg_conductor.ConfigLoader.Flight.{
  Phase, unborn, starting, queued, waiting, executing, closing, finished, cancelled, Reloader,
  new_reloader, reload, wrap_turn, resume, Turn, call, resumed, stopped, turn, run_turns,
}
use tg_conductor.ConfigLoader.Flight.Roles.{
  is_running, IsSingle, same_or_other, true_ne_false, first_role,
}
use tg_conductor.ConfigLoader.Flight.Frame.{
  resume-awaits, reload-awaits, resume-slots, not_first-closing,
}
use tg_conductor.ConfigLoader.Flight.Live.{is_stop, IsLive}
use tg_conductor.ConfigLoader.Flight.LiveTurns.{turn-IsLive, run_turns-IsLive, new-IsLive}
use tg_conductor.ConfigLoader.Flight.Ends.{
  turns_of, rank-le, IsOnWay, IsNearer, resume-IsNearer, reload-running, turn-finished,
  run_turns-ends,
}

-- Task t stands behind task r, or has left that place for the first slot.
unfoldable IsAwaited : ℕ → ℕ → Reloader → Type 0
unfolding IsOnWay
IsAwaited r t s = ((s.running ≡ some r) × (s.pending ≡ some t)) ⊎ IsOnWay t s

call-IsOnWay : (t : ℕ) (s : Reloader) → IsSingle s → IsOnWay t s → IsOnWay t (reload s).1
unfolding IsOnWay
call-IsOnWay t s inv (inl f) = inl (reload-running t s f)
call-IsOnWay t s inv (inr e) = inr (turn-finished call t s refl inv e)

resume-IsOnWay : (j t : ℕ) (s : Reloader) → IsLive s → IsOnWay t s → IsOnWay t (resume j s)
unfolding IsOnWay IsNearer
resume-IsOnWay j t s live (inr e) = inr (turn-finished (resumed j) t s refl live.single e)
resume-IsOnWay j t s live (inl f) = elim (same_or_other j t) [
  | inl d ↦ rw d (resume-IsNearer t s live f).0
  | inr d ↦ inl ((resume-slots j s (not_first-closing j t s live.single f d)).0 ∙ f)
]

-- The turn of the first task may bring the second into its place.
resume-IsAwaited :
    (j r t : ℕ) (s : Reloader)
    → IsLive s
    → s.running ≡ some r
    → s.pending ≡ some t
    → IsAwaited r t (resume j s)
unfolding resume IsAwaited IsOnWay
resume-IsAwaited j r t s live f g = by_phase (s.phase j) refl
  where
    kept : ((c : Bool) → s.phase j ≢ closing c) → IsAwaited r t (wrap_turn j (s.phase j) s)
    kept n = inl ((resume-slots j s n).0 ∙ f, (resume-slots j s n).1 ∙ g)

    by_phase : (ph : Phase) → s.phase j ≡ ph → IsAwaited r t (wrap_turn j ph s)
    by_phase (closing c) e = inr (inl g)
    by_phase starting e = rw e at (kept (λ c k. cc))
    by_phase queued e = rw e at (kept (λ c k. cc))
    by_phase (waiting q) e = rw e at (kept (λ c k. cc))
    by_phase (executing zero) e = rw e at (kept (λ c k. cc))
    by_phase (executing (suc n)) e = rw e at (kept (λ c k. cc))
    by_phase unborn e = inl (f, g)
    by_phase finished e = inl (f, g)
    by_phase cancelled e = inl (f, g)

full-call :
    (r t : ℕ) (s : Reloader)
    → s.running ≡ some r
    → s.pending ≡ some t
    → ((reload s).1.running ≡ some r) × ((reload s).1.pending ≡ some t)
unfolding reload
full-call r t s f g = rw (f, g, reload) (f, g)

turn-IsAwaited :
    (u : Turn) (r t : ℕ) (s : Reloader)
    → is_stop u ≡ false
    → IsLive s
    → IsAwaited r t s
    → IsAwaited r t (turn u s)
unfolding IsAwaited
turn-IsAwaited (stopped j) r t s h live q = absurd (true_ne_false h)
turn-IsAwaited call r t s h live (inl (f, g)) = inl (full-call r t s f g)
turn-IsAwaited call r t s h live (inr q) = inr (call-IsOnWay t s live.single q)
turn-IsAwaited (resumed j) r t s h live (inl (f, g)) = resume-IsAwaited j r t s live f g
turn-IsAwaited (resumed j) r t s h live (inr q) = inr (resume-IsOnWay j t s live q)

run_turns-IsAwaited :
    (turns : List Turn) (r t : ℕ) (s : Reloader)
    → All (λ u. is_stop u ≡ false) turns
    → IsLive s
    → IsAwaited r t s
    → IsAwaited r t (run_turns turns s)
unfolding run_turns
run_turns-IsAwaited [] r t s h live q = q
run_turns-IsAwaited (u ∷ turns) r t s h live q =
    run_turns-IsAwaited turns r t (turn u s) h.1 (turn-IsLive u s h.0 live)
      (turn-IsAwaited u r t s h.0 live q)

reload-IsAwaited :
    (r : ℕ) (s : Reloader) → (reload s).1.running ≡ some r → IsAwaited r (reload s).0 (reload s).1
unfolding reload IsAwaited IsOnWay
reload-IsAwaited r s = elim (Option-cases s.running) [
  | inl e ↦ rw (e, reload) (λ f. inr (inl refl))
  | inr (q, e) ↦ elim (Option-cases s.pending) [
    | inl d ↦ rw (e, d, reload) (λ f. inl (f, refl))
    | inr (p, d) ↦ rw (e, d, reload) (λ f. inl (f, d))
  ]
]

turn-awaits : (u : Turn) (s : Reloader) → is_stop u ≡ false → (turn u s).awaits ≡ s.awaits
turn-awaits call s h = reload-awaits s
turn-awaits (resumed j) s h = resume-awaits j s
turn-awaits (stopped j) s h = absurd (true_ne_false h)

run_turns-awaits :
    (turns : List Turn) (s : Reloader)
    → All (λ u. is_stop u ≡ false) turns
    → (run_turns turns s).awaits ≡ s.awaits
unfolding run_turns
run_turns-awaits [] s h = refl
run_turns-awaits (u ∷ turns) s h = run_turns-awaits turns (turn u s) h.1 ∙ turn-awaits u s h.0

-- Without cancellations, whatever was called and run before, and if the execution of each task i has
-- awaits i waits: the task that a call awaits is finished once the task in the first slot has had four
-- turns more than it has waits and it has then had four more than it has waits itself, whatever else is
-- called or run meanwhile.
pub reload-finishes :
    (awaits : ℕ → ℕ) (history first_turns own_turns : List Turn) (r : ℕ)
    → All (λ u. is_stop u ≡ false) history
    → All (λ u. is_stop u ≡ false) first_turns
    → All (λ u. is_stop u ≡ false) own_turns
    → (reload (run_turns history (new_reloader awaits))).1.running ≡ some r
    → awaits r + 4 ≤ turns_of r first_turns
    → awaits (reload (run_turns history (new_reloader awaits))).0 + 4
      ≤ turns_of (reload (run_turns history (new_reloader awaits))).0 own_turns
    → (run_turns own_turns
          (run_turns first_turns (reload (run_turns history (new_reloader awaits))).1)).phase
        (reload (run_turns history (new_reloader awaits))).0
      ≡ finished
unfolding IsAwaited IsOnWay
reload-finishes awaits history first_turns own_turns r h k l f m n =
    let s = run_turns history (new_reloader awaits) in
    let t = (reload s).0 in
    let live =
      turn-IsLive call s refl
        (run_turns-IsLive history (new_reloader awaits) h (new-IsLive awaits)) in
    let after = run_turns first_turns (reload s).1 in
    let live' = run_turns-IsLive first_turns (reload s).1 k live in
    let same = reload-awaits s ∙ run_turns-awaits history (new_reloader awaits) h in
    let same' = run_turns-awaits first_turns (reload s).1 k ∙ same in
    let ended =
      run_turns-ends first_turns r (reload s).1 k live (inl f)
        (enough (ap (λ (w : ℕ → ℕ). w r) same) m (rank-le r (reload s).1 live)) in
    run_turns-ends own_turns t after l live'
      (left r t after live' ended
        (run_turns-IsAwaited first_turns r t (reload s).1 k live (reload-IsAwaited r s f)))
      (enough (ap (λ (w : ℕ → ℕ). w t) same') n (rank-le t after live'))
  where
    enough : {a b c d : ℕ} → c ≡ d → d + 4 ≤ b → a ≤ c + 4 → a ≤ b
    enough e p q = omega (arith, e, p, q)

    left :
        (r t : ℕ) (s : Reloader) → IsLive s → s.phase r ≡ finished → IsAwaited r t s → IsOnWay t s
    left r t s live e (inr q) = q
    left r t s live e (inl (f, g)) =
        absurd (true_ne_false (sym (first_role s live.single r f) ∙ ap is_running e))
