-- ===== src/ConfigLoader/Flight/LiveTurns.antt =====
-- Waiting tasks of the reloader of tg_conductor/config_loader/reload.py, through calls and turns.
use tg_conductor.Base.{
  ℕ, ◌≡◌, refl, sym, ap, ◌∙◌, inl, inr, false, Option, none, some, List, [], ◌∷◌, ◌==◌, Bool-cases,
  All, Option-cases, zero, suc, ◌≤◌, arith,
}
use tg_conductor.ConfigLoader.Flight.{
  Phase, unborn, starting, queued, waiting, executing, closing, finished, cancelled, Reloader,
  new_reloader, reload, read_previous, await_previous, wrap_turn, resume, Turn, call, resumed,
  stopped, turn, run_turns,
}
use tg_conductor.ConfigLoader.Flight.Live.{
  was_stopped, is_stop, IsLive, move-IsLive, promote-IsLive, create-IsLive,
}
use tg_conductor.ConfigLoader.Flight.Roles.{IsSingle, true_ne_false}
use tg_conductor.ConfigLoader.Flight.Turns.{wrap_turn-IsSingle}
use tg_conductor.ConfigLoader.Flight.Single.{begin-IsSingle, queue-IsSingle, new-IsSingle}

begun : {m k : ℕ} → executing m ≡ executing k → k ≤ m
begun h = omega (arith, same h)
  where
    same : {m k : ℕ} → executing m ≡ executing k → m ≡ k
    same h = cc

resume-IsLive : (j : ℕ) (s : Reloader) → IsLive s → IsLive (resume j s)
unfolding resume
resume-IsLive j s live = wrap_turn-IsLive (s.phase j) refl
  where
    read :
        (running : Option ℕ)
        → s.running ≡ running
        → s.phase j ≡ queued
        → IsSingle (read_previous j running s)
        → IsLive (read_previous j running s)
    read none f e inv =
        move-IsLive j queued (executing (s.awaits j)) s e (λ k. cc) live inv refl (λ q k. absurd cc)
          (λ k h. begun h)
    read (some r) f e inv =
        move-IsLive j queued (waiting r) s e (λ k. cc) live inv refl
          (λ q k. f ∙ ap some (same_task k)) (λ k h. absurd cc)
      where
        same_task : {r q : ℕ} → waiting r ≡ waiting q → r ≡ q
        same_task k = cc

    awaited :
        (q : ℕ) (ph : Phase)
        → s.phase q ≡ ph
        → s.phase j ≡ waiting q
        → IsSingle (await_previous j ph s)
        → IsLive (await_previous j ph s)
    awaited q finished f e inv =
        move-IsLive j (waiting q) (executing (s.awaits j)) s e (λ k. cc) live inv refl
          (λ q k. absurd cc) (λ k h. begun h)
    awaited q cancelled f e inv = absurd (true_ne_false (ap was_stopped (sym f) ∙ live.unstopped q))
    awaited q unborn f e inv = live
    awaited q starting f e inv = live
    awaited q queued f e inv = live
    awaited q (waiting x) f e inv = live
    awaited q (executing k) f e inv = live
    awaited q (closing c) f e inv = live

    wrap_turn-IsLive : (ph : Phase) → s.phase j ≡ ph → IsLive (wrap_turn j ph s)
    wrap_turn-IsLive starting e =
        move-IsLive j starting (executing (s.awaits j)) s e (λ k. cc) live
          (wrap_turn-IsSingle j starting s e live.single) refl (λ q k. absurd cc) (λ k h. begun h)
    wrap_turn-IsLive queued e = read s.running refl e (wrap_turn-IsSingle j queued s e live.single)
    wrap_turn-IsLive (waiting q) e = elim (Bool-cases (q == j)) [
      | inl d ↦ rw d (
          move-IsLive j (waiting q) (executing (s.awaits j)) s e (λ k. cc) live
            (rw d at (wrap_turn-IsSingle j (waiting q) s e live.single)) refl (λ q k. absurd cc)
            (λ k h. begun h))
      | inr d ↦ rw d (
          awaited q (s.phase q) refl e (rw d at (wrap_turn-IsSingle j (waiting q) s e live.single)))
    ]
    wrap_turn-IsLive (executing zero) e =
        move-IsLive j (executing zero) (closing false) s e (λ k. cc) live
          (wrap_turn-IsSingle j (executing zero) s e live.single) refl (λ q k. absurd cc)
          (λ k h. absurd cc)
    wrap_turn-IsLive (executing (suc n)) e =
        move-IsLive j (executing (suc n)) (executing n) s e (λ k. cc) live
          (wrap_turn-IsSingle j (executing (suc n)) s e live.single) refl (λ q k. absurd cc)
          (λ k h. omega (arith, begun h, live.within j (suc n) e))
    wrap_turn-IsLive (closing c) e =
        promote-IsLive j c s e live (wrap_turn-IsSingle j (closing c) s e live.single)
    wrap_turn-IsLive unborn e = live
    wrap_turn-IsLive finished e = live
    wrap_turn-IsLive cancelled e = live

reload-IsLive : (s : Reloader) → IsLive s → IsLive (reload s).1
unfolding reload
reload-IsLive s live = elim (Option-cases s.running) [
  | inl e ↦
      rw (e, reload)
        (create-IsLive (some s.next_task) s.pending starting s live refl (λ q k. cc) (λ k h. cc)
          (λ q f. absurd (none_ne_some (sym e ∙ f))) (begin-IsSingle s e live.single))
  | inr (r, e) ↦ elim (Option-cases s.pending) [
    | inl d ↦
        rw (e, d, reload)
          (create-IsLive s.running (some s.next_task) queued s live refl (λ q k. cc) (λ k h. cc)
            (λ q f. f) (queue-IsSingle r s e d live.single))
    | inr (p, d) ↦ rw (e, d, reload) live
  ]
]
  where
    none_ne_some : {q : ℕ} → none ≡ some q → ⊥
    none_ne_some h = cc

pub turn-IsLive : (t : Turn) (s : Reloader) → is_stop t ≡ false → IsLive s → IsLive (turn t s)
turn-IsLive call s h live = reload-IsLive s live
turn-IsLive (resumed j) s h live = resume-IsLive j s live
turn-IsLive (stopped j) s h live = absurd (true_ne_false h)

pub run_turns-IsLive :
    (turns : List Turn) (s : Reloader)
    → All (λ t. is_stop t ≡ false) turns
    → IsLive s
    → IsLive (run_turns turns s)
unfolding run_turns
run_turns-IsLive [] s h live = live
run_turns-IsLive (t ∷ turns) s h live =
    run_turns-IsLive turns (turn t s) h.1 (turn-IsLive t s h.0 live)

pub new-IsLive : (awaits : ℕ → ℕ) → IsLive (new_reloader awaits)
new-IsLive awaits = record {
  single = new-IsSingle awaits;
  unstopped = λ i. refl;
  within = λ i k h. absurd (not_executing h);
  waits = λ i q h. absurd (not_waiting h);
}
  where
    not_executing : {k : ℕ} → unborn ≡ executing k → ⊥
    not_executing h = cc

    not_waiting : {q : ℕ} → unborn ≡ waiting q → ⊥
    not_waiting h = cc
