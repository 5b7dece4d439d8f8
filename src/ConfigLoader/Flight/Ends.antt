-- ===== src/ConfigLoader/Flight/Ends.antt =====
-- The task in the first slot of the reloader of tg_conductor/config_loader/reload.py.
use tg_conductor.Base.{
  ℕ, ◌+◌, ◌≤◌, ◌≡◌, refl, sym, ap, ◌∙◌, ◌≢◌, ◌⊎◌, inl, inr, Bool, true, false, Option, none, some,
  List, [], ◌∷◌, arith, ◌==◌, if◌then◌else◌, Bool-cases, All, Option-cases, zero, suc,
}
use tg_conductor.ConfigLoader.Flight.{
  Phase, unborn, starting, queued, waiting, executing, closing, finished, cancelled, Reloader, move,
  reload, promote, read_previous, await_previous, wrap_turn, resume, Turn, call, resumed, stopped,
  turn, run_turns,
}
use tg_conductor.ConfigLoader.Flight.Roles.{
  is_running, IsSingle, set_phase_same, ==_eq, same_or_other, some-injective, true_ne_false,
  first_role,
}
use tg_conductor.ConfigLoader.Flight.Frame.{
  resume-awaits, reload-awaits, resume-other, reload-other, resume-slots, not_first-closing,
}
use tg_conductor.ConfigLoader.Flight.Live.{was_stopped, is_stop, IsLive}
use tg_conductor.ConfigLoader.Flight.LiveTurns.{turn-IsLive}

-- the turns of a task in a schedule
abbrev pub turns_of : ℕ → List Turn → ℕ
turns_of r [] = 0
turns_of r (call ∷ turns) = turns_of r turns
turns_of r (stopped i ∷ turns) = turns_of r turns
turns_of r (resumed i ∷ turns) = let rest = turns_of r turns in if i == r then rest + 1 else rest

-- the turns that a running task still needs
abbrev pub rank : ℕ → Phase → ℕ
rank n queued = n + 4
rank n starting = n + 3
rank n (waiting q) = n + 3
rank n (executing k) = k + 2
rank n (closing c) = 1
rank n unborn = 0
rank n finished = 0
rank n cancelled = 0

pub rank-le : (i : ℕ) (s : Reloader) → IsLive s → rank (s.awaits i) (s.phase i) ≤ s.awaits i + 4
rank-le i s live = by_phase (s.phase i) refl
  where
    by_phase : (ph : Phase) → s.phase i ≡ ph → rank (s.awaits i) ph ≤ s.awaits i + 4
    by_phase queued e = omega arith
    by_phase starting e = omega arith
    by_phase (waiting q) e = omega arith
    by_phase (executing k) e = omega (arith, live.within i k e)
    by_phase (closing c) e = omega arith
    by_phase unborn e = omega arith
    by_phase finished e = omega arith
    by_phase cancelled e = omega arith

-- The task is in the first slot, or finished.
unfoldable pub IsOnWay : ℕ → Reloader → Type 0
IsOnWay r s = (s.running ≡ some r) ⊎ (s.phase r ≡ finished)

-- A turn of the running task takes it nearer to its end.
unfoldable pub IsNearer : ℕ → Reloader → Reloader → Type 0
unfolding IsOnWay
IsNearer r s s' =
    IsOnWay r s' × (rank (s.awaits r) (s'.phase r) + 1 ≤ rank (s.awaits r) (s.phase r))

move-IsNearer :
    (r : ℕ) (a b : Phase) (s : Reloader)
    → s.phase r ≡ a
    → s.running ≡ some r
    → rank (s.awaits r) b + 1 ≤ rank (s.awaits r) a
    → IsNearer r s (move r b s)
unfolding IsNearer
move-IsNearer r a b s e f h = (inl f, rw (set_phase_same r b s.phase r refl, e) h)

pub resume-IsNearer :
    (r : ℕ) (s : Reloader) → IsLive s → s.running ≡ some r → IsNearer r s (resume r s)
unfolding resume IsNearer
resume-IsNearer r s live f = wrap_turn-IsNearer (s.phase r) refl
  where
    running : (ph : Phase) → s.phase r ≡ ph → is_running ph ≡ true
    running ph e = rw e at (first_role s live.single r f)

    read : (q : Option ℕ) → q ≡ some r → s.phase r ≡ queued → IsNearer r s (read_previous r q s)
    read none g e = absurd cc
    read (some q) g e = move-IsNearer r queued (waiting q) s e f (omega arith)

    awaited :
        (q : ℕ)
        → s.phase q ≡ finished
        → s.phase r ≡ waiting q
        → IsNearer r s (await_previous r (s.phase q) s)
    awaited q g e = rw g (move-IsNearer r (waiting q) (executing (s.awaits r)) s e f (omega arith))

    waited :
        (q : ℕ)
        → (q == r) ≡ false
        → s.phase r ≡ waiting q
        → (q ≡ r) ⊎ (s.phase q ≡ finished) ⊎ (s.running ≡ some q)
        → IsNearer r s (await_previous r (s.phase q) s)
    waited q d e (inl g) = absurd (ground arith)
    waited q d e (inr (inl g)) = awaited q g e
    waited q d e (inr (inr g)) = absurd (differ q d (some-injective (sym f ∙ g)))
      where
        differ : (q : ℕ) → (q == r) ≡ false → r ≡ q → ⊥
        differ q d g = ground arith

    ends : (c : Bool) → s.phase r ≡ closing c → IsNearer r s (promote r c s)
    ends true e = absurd (true_ne_false (ap was_stopped (sym e) ∙ live.unstopped r))
    ends false e = (
      inr (set_phase_same r finished s.phase r refl),
      rw (set_phase_same r finished s.phase r refl, e) (omega arith),
    )

    wrap_turn-IsNearer : (ph : Phase) → s.phase r ≡ ph → IsNearer r s (wrap_turn r ph s)
    wrap_turn-IsNearer starting e =
        move-IsNearer r starting (executing (s.awaits r)) s e f (omega arith)
    wrap_turn-IsNearer queued e = read s.running f e
    wrap_turn-IsNearer (waiting q) e = elim (Bool-cases (q == r)) [
      | inl d ↦ rw d (move-IsNearer r (waiting q) (executing (s.awaits r)) s e f (omega arith))
      | inr d ↦ rw d (waited q d e (live.waits r q e))
    ]
    wrap_turn-IsNearer (executing zero) e =
        move-IsNearer r (executing zero) (closing false) s e f (omega arith)
    wrap_turn-IsNearer (executing (suc k)) e =
        move-IsNearer r (executing (suc k)) (executing k) s e f (omega arith)
    wrap_turn-IsNearer (closing c) e = ends c e
    wrap_turn-IsNearer unborn e = absurd (true_ne_false (sym (running unborn e)))
    wrap_turn-IsNearer finished e = absurd (true_ne_false (sym (running finished e)))
    wrap_turn-IsNearer cancelled e =
        absurd (true_ne_false (ap was_stopped (sym e) ∙ live.unstopped r))

pub reload-running : (r : ℕ) (s : Reloader) → s.running ≡ some r → (reload s).1.running ≡ some r
unfolding reload
reload-running r s f = elim (Option-cases s.pending) [
  | inl d ↦ rw (f, d, reload) f
  | inr (p, d) ↦ rw (f, d, reload) f
]

pub turn-finished :
    (t : Turn) (i : ℕ) (s : Reloader)
    → is_stop t ≡ false
    → IsSingle s
    → s.phase i ≡ finished
    → (turn t s).phase i ≡ finished
unfolding resume
turn-finished call i s h inv e = reload-other s i inv (born (s.phase i) e) ∙ e
  where
    born : (ph : Phase) → ph ≡ finished → ph ≢ unborn
    born ph e f = cc
turn-finished (resumed j) i s h inv e = elim (same_or_other i j) [
  | inl d ↦ rw (sym d) (rw e e)
  | inr d ↦ resume-other j i s d ∙ e
]
turn-finished (stopped j) i s h inv e = absurd (true_ne_false h)

pub run_turns-finished :
    (turns : List Turn) (i : ℕ) (s : Reloader)
    → All (λ t. is_stop t ≡ false) turns
    → IsLive s
    → s.phase i ≡ finished
    → (run_turns turns s).phase i ≡ finished
unfolding run_turns
run_turns-finished [] i s h live e = e
run_turns-finished (t ∷ turns) i s h live e =
    run_turns-finished turns i (turn t s) h.1 (turn-IsLive t s h.0 live)
      (turn-finished t i s h.0 live.single e)

rank-IsRunning :
    (n : ℕ) (ph : Phase) → is_running ph ≡ true → was_stopped ph ≡ false → 1 ≤ rank n ph
rank-IsRunning n starting h k = omega arith
rank-IsRunning n queued h k = omega arith
rank-IsRunning n (waiting q) h k = omega arith
rank-IsRunning n (executing m) h k = omega arith
rank-IsRunning n (closing c) h k = omega arith
rank-IsRunning n unborn h k = absurd cc
rank-IsRunning n finished h k = absurd cc
rank-IsRunning n cancelled h k = absurd cc

-- A task on its way that has been given its turns is finished.
pub run_turns-ends :
    (turns : List Turn) (r : ℕ) (s : Reloader)
    → All (λ t. is_stop t ≡ false) turns
    → IsLive s
    → IsOnWay r s
    → rank (s.awaits r) (s.phase r) ≤ turns_of r turns
    → (run_turns turns s).phase r ≡ finished
unfolding run_turns IsOnWay IsNearer
run_turns-ends turns r s h live (inr e) n = run_turns-finished turns r s h live e
run_turns-ends [] r s h live (inl f) n =
    let some_left =
      rank-IsRunning (s.awaits r) (s.phase r) (first_role s live.single r f) (live.unstopped r) in
    absurd (omega arith)
run_turns-ends (call ∷ turns) r s h live (inl f) n =
    run_turns-ends turns r (reload s).1 h.1 (turn-IsLive call s h.0 live)
      (inl (reload-running r s f))
      (rw (reload-awaits s, reload-other s r live.single (born (first_role s live.single r f))) n)
  where
    born : {ph : Phase} → is_running ph ≡ true → ph ≢ unborn
    born {ph} k e = true_ne_false (sym k ∙ ap is_running e)
run_turns-ends (stopped j ∷ turns) r s h live (inl f) n = absurd (true_ne_false h.0)
run_turns-ends (resumed j ∷ turns) r s h live (inl f) n = elim (Bool-cases (j == r)) [
  | inl d ↦
      let nearer = resume-IsNearer r s live f in
      rw (==_eq j r d) (
        run_turns-ends turns r (resume r s) h.1 (turn-IsLive (resumed r) s h.0 live) nearer.0
          (rw (resume-awaits r s) (less (rw d at n) nearer.1)))
  | inr d ↦
      run_turns-ends turns r (resume j s) h.1 (turn-IsLive (resumed j) s h.0 live)
        (inl ((resume-slots j s (not_first-closing j r s live.single f (differ d))).0 ∙ f))
        (rw (resume-awaits j s, resume-other j r s (λ e. differ d (sym e))) (rw d at n))
]
  where
    less : {k m n : ℕ} → n ≤ m + 1 → k + 1 ≤ n → k ≤ m
    less a b = omega arith

    differ : (j == r) ≡ false → j ≢ r
    differ d e = ground arith
