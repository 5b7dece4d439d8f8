-- ===== src/ConfigLoader/Flight/Turns.antt =====
-- The turns of the tasks of the reloader of tg_conductor/config_loader/reload.py.
use tg_conductor.Base.{
  ℕ, ◌≡◌, refl, sym, ap, ◌∙◌, ◌≢◌, inl, inr, Bool, true, false, Option, none, some, arith, ◌==◌,
  if◌then◌else◌, Bool-cases, zero, suc,
}
use tg_conductor.ConfigLoader.Flight.{
  Phase, unborn, starting, queued, waiting, executing, closing, finished, cancelled, Reloader,
  promote, read_previous, await_previous, wrap_turn, is_dead,
}
use tg_conductor.ConfigLoader.Flight.Roles.{
  is_running, is_behind, is_allowed, are_apart, IsSingle, set_phase_same, set_phase_other, ==_eq,
  ne_==, same_or_other, is_allowed_mono, alive_move, true_ne_false, wakes, first_role,
}

read_previous-IsSingle :
    (id : ℕ) (running : Option ℕ) (s : Reloader)
    → s.running ≡ running
    → s.phase id ≡ queued
    → IsSingle s
    → IsSingle (read_previous id running s)
read_previous-IsSingle id none s e h inv =
    alive_move id queued (executing (s.awaits id)) s h inv (λ k. cc)
      (rw e (absurd (true_ne_false (sym (rw (e, h) at (inv.roles id))))))
read_previous-IsSingle id (some r) s e h inv =
    alive_move id queued (waiting r) s h inv (λ k. cc)
      (is_waiting s.running s.pending e (rw h at (inv.roles id)))
  where
    is_waiting :
        (running pending : Option ℕ)
        → running ≡ some r
        → is_allowed running pending id queued ≡ true
        → is_allowed running pending id (waiting r) ≡ true
    is_waiting none pending f k = absurd cc
    is_waiting (some q) none f k = k
    is_waiting (some q) (some p) f k = ground arith

await_previous-IsSingle :
    (id q : ℕ) (ph : Phase) (s : Reloader)
    → s.phase q ≡ ph
    → s.phase id ≡ waiting q
    → IsSingle s
    → IsSingle (await_previous id ph s)
await_previous-IsSingle id q finished s e h inv =
    alive_move id (waiting q) (executing (s.awaits id)) s h inv (λ k. cc)
      (wakes (s.awaits id) s.running s.pending id q not_first (rw h at (inv.roles id)))
  where
    not_first : (r : ℕ) → s.running ≡ some r → (id == r) ≡ false → (q == r) ≡ false
    not_first r f d = elim (Bool-cases (q == r)) [
      | inl c ↦ absurd (
          true_ne_false (
            sym (first_role s inv r f)
            ∙ ap (λ n. is_running (s.phase n)) (sym (==_eq q r c))
            ∙ ap is_running e))
      | inr c ↦ c
    ]
await_previous-IsSingle id q cancelled s e h inv =
    alive_move id (waiting q) cancelled s h inv (λ k. cc)
      (is_allowed_mono s.running s.pending id (waiting q) cancelled (λ k. refl) (λ r k. refl)
        (λ k. refl) (rw h at (inv.roles id)))
await_previous-IsSingle id q unborn s e h inv = inv
await_previous-IsSingle id q starting s e h inv = inv
await_previous-IsSingle id q queued s e h inv = inv
await_previous-IsSingle id q (waiting x) s e h inv = inv
await_previous-IsSingle id q (executing k) s e h inv = inv
await_previous-IsSingle id q (closing c) s e h inv = inv

is_running_behind : (r : ℕ) (ph : Phase) → is_behind r ph ≡ true → is_running ph ≡ true
is_running_behind r queued h = refl
is_running_behind r (waiting q) h = refl
is_running_behind r cancelled h = refl
is_running_behind r unborn h = absurd cc
is_running_behind r finished h = absurd cc
is_running_behind r starting h = absurd cc
is_running_behind r (executing k) h = absurd cc
is_running_behind r (closing c) h = absurd cc

is_dead-ended : (c : Bool) → is_dead (if c then cancelled else finished) ≡ true
is_dead-ended true = refl
is_dead-ended false = refl

-- What the others may be in does not depend on the task that leaves the first slot.
pub promoted_role :
    (running pending : Option ℕ) (id : ℕ) (c : Bool)
    → is_allowed running pending id (closing c) ≡ true
    → running ≡ some id
promoted_role none pending id c k = absurd cc
promoted_role (some r) none id c k = elim (Bool-cases (id == r)) [
  | inl e ↦ ap some (sym (==_eq id r e))
  | inr e ↦ absurd (true_ne_false (sym (rw e at k)))
]
promoted_role (some r) (some p) id c k = elim (Bool-cases (id == r)) [
  | inl e ↦ ap some (sym (==_eq id r e))
  | inr e ↦ elim (Bool-cases (id == p)) [
    | inl d ↦ absurd (true_ne_false (sym (rw (e, d) at k)))
    | inr d ↦ absurd (true_ne_false (sym (rw (e, d) at k)))
  ]
]

next_role :
    (pending : Option ℕ) (id i : ℕ) (ph : Phase)
    → i ≢ id
    → is_allowed (some id) pending i ph ≡ true
    → is_allowed pending none i ph ≡ true
next_role none id i ph n k = rw (ne_== i id n) at k
next_role (some p) id i ph n k = elim (Bool-cases (i == p)) [
  | inl e ↦ rw e (is_running_behind id ph (rw (ne_== i id n, e) at k))
  | inr e ↦ rw e (rw (ne_== i id n, e) at k)
]

next_self :
    (pending : Option ℕ) (id : ℕ) (ph : Phase)
    → are_apart (some id) pending ≡ true
    → is_dead ph ≡ true
    → is_allowed pending none id ph ≡ true
next_self none id ph a k = k
next_self (some p) id ph a k = ground arith

promote-IsSingle :
    (id : ℕ) (c : Bool) (s : Reloader)
    → s.phase id ≡ closing c
    → IsSingle s
    → IsSingle (promote id c s)
promote-IsSingle id c s e inv = record {
  apart = alone s.pending;
  roles = λ i. elim (same_or_other i id) [
    | inl d ↦
        rw (set_phase_same id ended s.phase i d, d)
          (next_self s.pending id ended (rw f at inv.apart) (is_dead-ended c))
    | inr d ↦
        rw (set_phase_other id ended s.phase i d)
          (next_role s.pending id i (s.phase i) d (rw f at (inv.roles i)))
  ];
  fresh = λ i b. elim (same_or_other i id) [
    | inl d ↦ absurd (not_unborn (sym e ∙ ap s.phase (sym d) ∙ inv.fresh i b))
    | inr d ↦ rw (set_phase_other id ended s.phase i d) (inv.fresh i b)
  ];
}
  where
    ended : Phase
    ended = if c then cancelled else finished

    f : s.running ≡ some id
    f = promoted_role s.running s.pending id c (rw e at (inv.roles id))

    alone : (pending : Option ℕ) → are_apart pending none ≡ true
    alone none = refl
    alone (some p) = refl

    not_unborn : closing c ≡ unborn → ⊥
    not_unborn h = cc

pub wrap_turn-IsSingle :
    (id : ℕ) (ph : Phase) (s : Reloader)
    → s.phase id ≡ ph
    → IsSingle s
    → IsSingle (wrap_turn id ph s)
wrap_turn-IsSingle id starting s e inv =
    alive_move id starting (executing (s.awaits id)) s e inv (λ k. cc)
      (is_allowed_mono s.running s.pending id starting (executing (s.awaits id)) (λ k. refl)
        (λ r k. absurd cc) (λ k. absurd cc) (rw e at (inv.roles id)))
wrap_turn-IsSingle id queued s e inv = read_previous-IsSingle id s.running s refl e inv
wrap_turn-IsSingle id (waiting q) s e inv = elim (Bool-cases (q == id)) [
  | inl d ↦ rw d (
      alive_move id (waiting q) (executing (s.awaits id)) s e inv (λ k. cc)
        (wakes (s.awaits id) s.running s.pending id q (λ r f c. rw (==_eq q id d) c)
          (rw e at (inv.roles id))))
  | inr d ↦ rw d (await_previous-IsSingle id q (s.phase q) s refl e inv)
]
wrap_turn-IsSingle id (executing zero) s e inv =
    alive_move id (executing zero) (closing false) s e inv (λ k. cc)
      (is_allowed_mono s.running s.pending id (executing zero) (closing false) (λ k. refl)
        (λ r k. absurd cc) (λ k. absurd cc) (rw e at (inv.roles id)))
wrap_turn-IsSingle id (executing (suc k)) s e inv =
    alive_move id (executing (suc k)) (executing k) s e inv (λ k. cc)
      (is_allowed_mono s.running s.pending id (executing (suc k)) (executing k) (λ h. refl)
        (λ r k. absurd cc) (λ k. absurd cc) (rw e at (inv.roles id)))
wrap_turn-IsSingle id (closing c) s e inv = promote-IsSingle id c s e inv
wrap_turn-IsSingle id unborn s e inv = inv
wrap_turn-IsSingle id finished s e inv = inv
wrap_turn-IsSingle id cancelled s e inv = inv
