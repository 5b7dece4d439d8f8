-- ===== src/ConfigLoader/Flight/Roles.antt =====
-- The two slots of the reloader of tg_conductor/config_loader/reload.py, and the phases of the tasks in them.
use tg_conductor.Base.{
  ℕ, ◌≤◌, ◌≡◌, refl, sym, ◌∙◌, ◌≢◌, ◌⊎◌, inl, inr, Bool, true, false, not, Option, none, some,
  arith, ◌==◌, if◌then◌else◌, Bool-cases,
}
use tg_conductor.ConfigLoader.Flight.{
  Phase, unborn, starting, queued, waiting, executing, closing, finished, cancelled, Reloader,
  set_phase, move, is_dead,
}

-- a task in the first slot
abbrev pub is_running : Phase → Bool
is_running unborn = false
is_running finished = false
is_running starting = true
is_running queued = true
is_running (waiting q) = true
is_running (executing k) = true
is_running (closing c) = true
is_running cancelled = true

-- a task in the second slot, behind task r
abbrev pub is_behind : ℕ → Phase → Bool
is_behind r queued = true
is_behind r (waiting q) = q == r
is_behind r cancelled = true
is_behind r unborn = false
is_behind r finished = false
is_behind r starting = false
is_behind r (executing k) = false
is_behind r (closing c) = false

-- may task i be in a phase, the slots being as they are?
abbrev pub is_allowed : Option ℕ → Option ℕ → ℕ → Phase → Bool
is_allowed none pending i ph = is_dead ph
is_allowed (some r) none i ph = if i == r then is_running ph else is_dead ph
is_allowed (some r) (some p) i ph =
    if i == r then is_running ph else if i == p then is_behind r ph else is_dead ph

abbrev pub are_apart : Option ℕ → Option ℕ → Bool
are_apart none none = true
are_apart none (some p) = false
are_apart (some r) none = true
are_apart (some r) (some p) = not (p == r)

pub record IsSingle (s : Reloader) : Type 0 where
  pub apart : are_apart s.running s.pending ≡ true
  pub roles : (i : ℕ) → is_allowed s.running s.pending i (s.phase i) ≡ true
  pub fresh : (i : ℕ) → s.next_task ≤ i → s.phase i ≡ unborn

pub set_phase_same :
    (id : ℕ) (ph : Phase) (f : ℕ → Phase) (i : ℕ) → i ≡ id → set_phase id ph f i ≡ ph
unfolding set_phase
set_phase_same id ph f i h = ground arith

pub set_phase_other :
    (id : ℕ) (ph : Phase) (f : ℕ → Phase) (i : ℕ) → i ≢ id → set_phase id ph f i ≡ f i
unfolding set_phase
set_phase_other id ph f i h = ground arith

pub ==_eq : (m n : ℕ) → (m == n) ≡ true → m ≡ n
==_eq m n h = ground arith

pub ne_== : (m n : ℕ) → m ≢ n → (m == n) ≡ false
ne_== m n h = ground arith

pub same_or_other : (i id : ℕ) → (i ≡ id) ⊎ (i ≢ id)
same_or_other i id = elim (Bool-cases (i == id)) [
  | inl e ↦ inl (ground arith)
  | inr e ↦ inr (ground arith)
]

-- a phase that a task may be in stays allowed where it becomes one that every role allows as well
pub is_allowed_mono :
    (running pending : Option ℕ) (i : ℕ) (a b : Phase)
    → (is_running a ≡ true → is_running b ≡ true)
    → ((r : ℕ) → is_behind r a ≡ true → is_behind r b ≡ true)
    → (is_dead a ≡ true → is_dead b ≡ true)
    → is_allowed running pending i a ≡ true
    → is_allowed running pending i b ≡ true
is_allowed_mono none pending i a b f g h k = h k
is_allowed_mono (some r) none i a b f g h k = elim (Bool-cases (i == r)) [
  | inl e ↦ rw e (f (rw e at k))
  | inr e ↦ rw e (h (rw e at k))
]
is_allowed_mono (some r) (some p) i a b f g h k = elim (Bool-cases (i == r)) [
  | inl e ↦ rw e (f (rw e at k))
  | inr e ↦ elim (Bool-cases (i == p)) [
    | inl d ↦ rw (e, d) (g r (rw (e, d) at k))
    | inr d ↦ rw (e, d) (h (rw (e, d) at k))
  ]
]

pub move-IsSingle :
    (id : ℕ) (ph : Phase) (s : Reloader)
    → IsSingle s
    → is_allowed s.running s.pending id ph ≡ true
    → ((s.next_task ≤ id) → ph ≡ unborn)
    → IsSingle (move id ph s)
move-IsSingle id ph s inv h k = record {
  apart = inv.apart;
  roles = λ i. elim (same_or_other i id) [
    | inl e ↦ rw (set_phase_same id ph s.phase i e, e) h
    | inr e ↦ rw (set_phase_other id ph s.phase i e) (inv.roles i)
  ];
  fresh = λ i b. elim (same_or_other i id) [
    | inl e ↦ rw (set_phase_same id ph s.phase i e) (k (rw e at b))
    | inr e ↦ rw (set_phase_other id ph s.phase i e) (inv.fresh i b)
  ];
}

pub alive_move :
    (id : ℕ) (a b : Phase) (s : Reloader)
    → s.phase id ≡ a
    → IsSingle s
    → a ≢ unborn
    → is_allowed s.running s.pending id b ≡ true
    → IsSingle (move id b s)
alive_move id a b s e inv k h =
    move-IsSingle id b s inv h (λ n. absurd (k (sym e ∙ inv.fresh id n)))

pub some-injective : {i j : ℕ} → some i ≡ some j → i ≡ j
some-injective h = cc

pub true_ne_false : true ≡ false → ⊥
true_ne_false h = cc

-- A task that wakes up is not behind another.
pub wakes :
    (n : ℕ) (running pending : Option ℕ) (id q : ℕ)
    → ((r : ℕ) → running ≡ some r → (id == r) ≡ false → (q == r) ≡ false)
    → is_allowed running pending id (waiting q) ≡ true
    → is_allowed running pending id (executing n) ≡ true
wakes n none pending id q f k = absurd cc
wakes n (some r) none id q f k = elim (Bool-cases (id == r)) [
  | inl e ↦ rw e refl
  | inr e ↦ absurd (true_ne_false (sym (rw e at k)))
]
wakes n (some r) (some p) id q f k = elim (Bool-cases (id == r)) [
  | inl e ↦ rw e refl
  | inr e ↦ elim (Bool-cases (id == p)) [
    | inl d ↦ absurd (true_ne_false (sym (rw (e, d) at k) ∙ f r refl e))
    | inr d ↦ absurd (true_ne_false (sym (rw (e, d) at k)))
  ]
]

pub first_role :
    (s : Reloader) → IsSingle s → (r : ℕ) → s.running ≡ some r → is_running (s.phase r) ≡ true
first_role s inv r h = first_of s.running s.pending h (inv.roles r)
  where
    not_self : (q : ℕ) → some q ≡ some r → (r == q) ≡ false → ⊥
    not_self q h e = grind arith

    first_of :
        (running pending : Option ℕ)
        → running ≡ some r
        → is_allowed running pending r (s.phase r) ≡ true
        → is_running (s.phase r) ≡ true
    first_of none pending h k = absurd cc
    first_of (some q) none h k = elim (Bool-cases (r == q)) [
      | inl e ↦ rw e at k
      | inr e ↦ absurd (not_self q h e)
    ]
    first_of (some q) (some p) h k = elim (Bool-cases (r == q)) [
      | inl e ↦ rw e at k
      | inr e ↦ absurd (not_self q h e)
    ]
