-- ===== src/ConfigLoader/Flight/Once.antt =====
-- Executions and calls of the reloader of tg_conductor/config_loader/reload.py.
use tg_conductor.Base.{
  ℕ, zero, suc, ◌+◌, ◌≤◌, ◌≡◌, refl, sym, ap, ◌∙◌, inl, inr, Bool, true, false, Option, none, some,
  List, arith, ◌==◌, Bool-cases, Option-cases,
}
use tg_conductor.ConfigLoader.Flight.{
  Phase, unborn, starting, queued, waiting, executing, closing, finished, cancelled, Reloader,
  new_reloader, reload, Turn, run_turns,
}
use tg_conductor.ConfigLoader.Flight.Roles.{
  is_behind, is_allowed, IsSingle, set_phase_same, ==_eq, some-injective, true_ne_false,
}
use tg_conductor.ConfigLoader.Flight.Single.{run_turns-IsSingle, new-IsSingle}

-- has the task entered its execution?
abbrev pub has_begun : Phase → Bool
has_begun unborn = false
has_begun starting = false
has_begun queued = false
has_begun (waiting q) = false
has_begun (executing k) = true
has_begun (closing c) = true
has_begun finished = true
has_begun cancelled = false

-- a burst of calls, with no turn between them
unfoldable pub call_times : ℕ → Reloader → Reloader
unfolding reload
call_times zero s = s
call_times (suc n) s = call_times n (reload s).1

executing-first :
    (running pending : Option ℕ) (i k : ℕ)
    → is_allowed running pending i (executing k) ≡ true
    → running ≡ some i
executing-first none pending i n k = absurd cc
executing-first (some r) none i n k = elim (Bool-cases (i == r)) [
  | inl e ↦ ap some (sym (==_eq i r e))
  | inr e ↦ absurd (true_ne_false (sym (rw e at k)))
]
executing-first (some r) (some p) i n k = elim (Bool-cases (i == r)) [
  | inl e ↦ ap some (sym (==_eq i r e))
  | inr e ↦ elim (Bool-cases (i == p)) [
    | inl d ↦ absurd (true_ne_false (sym (rw (e, d) at k)))
    | inr d ↦ absurd (true_ne_false (sym (rw (e, d) at k)))
  ]
]

behind-has_begun : (r : ℕ) (ph : Phase) → is_behind r ph ≡ true → has_begun ph ≡ false
behind-has_begun r queued h = refl
behind-has_begun r (waiting q) h = refl
behind-has_begun r cancelled h = refl
behind-has_begun r unborn h = absurd cc
behind-has_begun r finished h = absurd cc
behind-has_begun r starting h = absurd cc
behind-has_begun r (executing k) h = absurd cc
behind-has_begun r (closing c) h = absurd cc

second_role :
    (s : Reloader) (r p : ℕ)
    → IsSingle s
    → s.running ≡ some r
    → s.pending ≡ some p
    → is_behind r (s.phase p) ≡ true
second_role s r p inv e d =
    let apart = rw (e, d) at inv.apart in let role = rw (e, d) at (inv.roles p) in ground arith

reload-has_begun : (s : Reloader) → IsSingle s → has_begun ((reload s).1.phase (reload s).0) ≡ false
unfolding reload
reload-has_begun s inv = elim (Option-cases s.running) [
  | inl e ↦ rw (e, reload) (rw (set_phase_same s.next_task starting s.phase s.next_task refl) refl)
  | inr (r, e) ↦ elim (Option-cases s.pending) [
    | inl d ↦
        rw (e, d, reload) (rw (set_phase_same s.next_task queued s.phase s.next_task refl) refl)
    | inr (p, d) ↦ rw (e, d, reload) (behind-has_begun r (s.phase p) (second_role s r p inv e d))
  ]
]

pub free : Option ℕ → ℕ
free none = 1
free (some i) = 0

free_slots : Reloader → ℕ
unfolding free
free_slots s = free s.running + free s.pending

reload-free_slots :
    (s : Reloader) → (reload s).1.next_task + free_slots (reload s).1 ≡ s.next_task + free_slots s
unfolding reload free_slots free
reload-free_slots s = elim (Option-cases s.running) [
  | inl e ↦ rw (e, reload) (omega arith)
  | inr (r, e) ↦ elim (Option-cases s.pending) [
    | inl d ↦ rw (e, d, reload, e) (omega arith)
    | inr (p, d) ↦ rw (e, d, reload, e, d) refl
  ]
]

free-le : (s : Option ℕ) → free s ≤ 1
unfolding free
free-le none = omega arith
free-le (some i) = omega arith

call_times-free_slots :
    (n : ℕ) (s : Reloader)
    → (call_times n s).next_task + free_slots (call_times n s) ≡ s.next_task + free_slots s
unfolding call_times
call_times-free_slots zero s = refl
call_times-free_slots (suc n) s = call_times-free_slots n (reload s).1 ∙ reload-free_slots s

call_times-next_task : (n : ℕ) (s : Reloader) → (call_times n s).next_task ≤ s.next_task + 2
unfolding free_slots
call_times-next_task n s =
    let same = call_times-free_slots n s in
    let first_slot = free-le s.running in let second_slot = free-le s.pending in omega arith

-- After any calls, turns and cancellations, in any order, at most one task is executing, the task
-- that a further call awaits has not entered its execution, and a burst of calls creates at most two
-- tasks, however many they are.
pub run_turns-single_flight :
    (awaits : ℕ → ℕ) (turns : List Turn)
    → ((i j k l : ℕ)
        → (run_turns turns (new_reloader awaits)).phase i ≡ executing k
        → (run_turns turns (new_reloader awaits)).phase j ≡ executing l
        → i ≡ j)
      × (has_begun (
            (reload (run_turns turns (new_reloader awaits))).1.phase
              (reload (run_turns turns (new_reloader awaits))).0)
          ≡ false)
      × ((n : ℕ)
          → (call_times n (run_turns turns (new_reloader awaits))).next_task
            ≤ (run_turns turns (new_reloader awaits)).next_task + 2)
run_turns-single_flight awaits turns =
    let s = run_turns turns (new_reloader awaits) in
    let inv = run_turns-IsSingle turns (new_reloader awaits) (new-IsSingle awaits) in
    let only = (λ (i k : ℕ) (e : s.phase i ≡ executing k).
      executing-first s.running s.pending i k (rw e at (inv.roles i))) in
    (
      λ i j k l e d. some-injective (sym (only i k e) ∙ only j l d),
      reload-has_begun s inv,
      λ n. call_times-next_task n s,
    )
