-- ===== src/TgCore/Throttle/Spaced.antt =====
-- The attempts of all calls of an account under tg_conductor/tg_core/throttle.py.
use mathlib.Core.Path.{subst}
use tg_conductor.Base.{
  ℕ, zero, suc, ◌+◌, ◌-◌, ◌≤◌, ◌≡◌, refl, sym, ap, ◌∙◌, inl, inr, true, false, Option, none, some,
  List, [], ◌∷◌, arith, ltb, ◌==◌, if◌then◌else◌, Bool-cases, Option-cases,
}
use tg_conductor.TgCore.Throttle.{
  Answer, answered, flood_wait, failed_with, Clock, Attempt, Turned, start_of, settled, call_turn,
  retries_of, set_retries, run_schedule,
}

abbrev later_of : ℕ → ℕ → ℕ
later_of a b = if ltb a b then b else a

module _ (min_interval : ℕ) where
  -- when the next attempt may start
  abbrev pub earliest_after : Attempt → ℕ
  earliest_after a =
      if a.recorded then later_of (a.finish + min_interval) (a.finish + a.pause) else a.finish

  abbrev pub Apart : ℕ → List (ℕ × Attempt) → Type 0
  Apart earliest [] = Unit
  Apart earliest (a ∷ attempts) =
      (earliest ≤ a.1.start) × (a.1.start ≤ a.1.finish) × Apart (earliest_after a.1) attempts

  abbrev pub earliest_start : Option ℕ → ℕ
  earliest_start none = 0
  earliest_start (some last) = last + min_interval

  Apart-lower :
      (low high : ℕ) (attempts : List (ℕ × Attempt))
      → low ≤ high
      → Apart high attempts
      → Apart low attempts
  Apart-lower low high [] le h = tt
  Apart-lower low high (a ∷ attempts) le h = (omega (arith, le, h.0), h.1, h.2)

-- the attempts of a call, and the turns that it is given
abbrev pub attempts_of : ℕ → List (ℕ × Attempt) → ℕ
attempts_of id [] = 0
attempts_of id (a ∷ attempts) =
    let rest = attempts_of id attempts in if a.0 == id then rest + 1 else rest

abbrev pub turns_of : ℕ → List (ℕ × ℕ) → ℕ
turns_of id [] = 0
turns_of id (t ∷ schedule) = let rest = turns_of id schedule in if t.0 == id then rest + 1 else rest

-- the attempts that a call may still make
abbrev pub quota : Option ℕ → ℕ
quota none = 0
quota (some retries) = retries + 1

abbrev pub IsPast : Option ℕ → ℕ → Type 0
IsPast none now = Unit
IsPast (some last) now = last ≤ now

-- Of the attempts of a run of several calls, from a clock on.
pub record IsThrottled (min_interval : ℕ) (schedule : List (ℕ × ℕ)) (calls after : ℕ → Option ℕ)
    (c : Clock) (attempts : List (ℕ × Attempt)) : Type 0 where
  pub spaced :
      Apart min_interval (later_of (earliest_start min_interval c.last_called_at) c.now) attempts
  pub bounded : (id : ℕ) → attempts_of id attempts + quota (after id) ≤ quota (calls id)
  pub ends : (id : ℕ) → quota (calls id) ≤ turns_of id schedule → after id ≡ none

module _ {A : Type 0} (min_interval padding : ℕ) (wake : ℕ → ℕ) (fn : ℕ → ℕ → Answer A × ℕ)
    (no_early_wake : (t : ℕ) → t ≤ wake t) (takes_time : (id t : ℕ) → t ≤ (fn id t).1) where
  start_of-ge :
      (last : Option ℕ) (now : ℕ)
      → IsPast last now
      → later_of (earliest_start min_interval last) now ≤ start_of min_interval wake last now
  unfolding start_of
  start_of-ge none now p = ground arith
  start_of-ge (some last) now p = elim (Bool-cases (ltb 0 (min_interval - (now - last)))) [
    | inl e ↦ rw e (ground (arith, e, p, no_early_wake (now + (min_interval - (now - last)))))
    | inr e ↦ rw e (ground (arith, e, p))
  ]

  -- What one turn did.
  record IsTurn (retries : ℕ) (c : Clock) (done : Attempt × Turned A × Clock) : Type 0 where
    starts : later_of (earliest_start min_interval c.last_called_at) c.now ≤ done.0.start
    lasts : done.0.start ≤ done.0.finish
    past : IsPast done.2.last_called_at done.2.now
    sets :
        earliest_after min_interval done.0
        ≤ later_of (earliest_start min_interval done.2.last_called_at) done.2.now
    uses : quota (retries_of done.1) + 1 ≤ retries + 1

  settled-IsTurn :
      (start finish retries : ℕ) (c : Clock) (answer : Answer A)
      → IsPast c.last_called_at c.now
      → later_of (earliest_start min_interval c.last_called_at) c.now ≤ start
      → start ≤ finish
      → IsTurn retries c
          (settled min_interval padding wake start finish retries c.last_called_at answer)
  settled-IsTurn start finish retries c (answered a) p le t = record {
    starts = le;
    lasts = t;
    past = omega arith;
    sets = ground arith;
    uses = omega arith;
  }
  settled-IsTurn start finish retries c (failed_with e) p le t = record {
    starts = le;
    lasts = t;
    past = still c.last_called_at p le;
    sets = ground arith;
    uses = omega arith;
  }
    where
      still :
          (last : Option ℕ)
          → IsPast last c.now
          → later_of (earliest_start min_interval last) c.now ≤ start
          → IsPast last finish
      still none p le = tt
      still (some l) p le = ground (arith, p, le, t)
  settled-IsTurn start finish zero c (flood_wait seconds) p le t = record {
    starts = le;
    lasts = t;
    past = omega arith;
    sets = ground arith;
    uses = omega arith;
  }
  settled-IsTurn start finish (suc retries) c (flood_wait seconds) p le t = record {
    starts = le;
    lasts = t;
    past = omega (arith, no_early_wake (finish + (seconds + padding)));
    sets = ground (arith, no_early_wake (finish + (seconds + padding)));
    uses = omega arith;
  }

  quota-zero : (o : Option ℕ) → quota o ≤ 0 → o ≡ none
  quota-zero none h = refl
  quota-zero (some r) h = absurd (omega (arith, h))

  eq_of : (m n : ℕ) → (m == n) ≡ true → m ≡ n
  eq_of m n h = ground arith

  -- A turn of one call, and what came after it.
  turn-IsThrottled :
      (id idle r : ℕ) (schedule : List (ℕ × ℕ)) (calls after : ℕ → Option ℕ) (c : Clock)
      (done : Attempt × Turned A × Clock) (attempts : List (ℕ × Attempt))
      → calls id ≡ some r
      → IsTurn r (record c { now = c.now + idle }) done
      → IsThrottled min_interval schedule
          (set_retries id (retries_of done.1) calls)
          after
          done.2
          attempts
      → IsThrottled min_interval ((id, idle) ∷ schedule) calls after c ((id, done.0) ∷ attempts)
  turn-IsThrottled id idle r schedule calls after c done attempts e t rest = record {
    spaced = (
      waits_idle t.starts,
      t.lasts,
      Apart-lower min_interval (earliest_after min_interval done.0)
          (later_of (earliest_start min_interval done.2.last_called_at) done.2.now) attempts t.sets
          rest.spaced,
    );
    bounded = λ i. elim (Bool-cases (id == i)) [
      | inl d ↦
          subst
            (λ (n : ℕ). attempts_of n ((id, done.0) ∷ attempts) + quota (after n) ≤ quota (calls n))
            (eq_of id i d) (own (rest.bounded id))
      | inr d ↦ rw d (rw (flip i d) at (rest.bounded i))
    ];
    ends = λ i h. elim (Bool-cases (id == i)) [
      | inl d ↦
          ap after (sym (eq_of id i d))
          ∙ rest.ends id (
              enough (
                subst (λ (n : ℕ). quota (calls n) ≤ turns_of n ((id, idle) ∷ schedule))
                  (sym (eq_of id i d)) h))
      | inr d ↦ rest.ends i (rw (flip i d) (rw d at h))
    ];
  }
    where
      waits_idle :
          later_of (earliest_start min_interval c.last_called_at) (c.now + idle) ≤ done.0.start
          → later_of (earliest_start min_interval c.last_called_at) c.now ≤ done.0.start
      waits_idle h = ground (arith, h)

      self : (id == id) ≡ true
      self = ground arith

      one_more : (a q : ℕ) {m n : ℕ} → a + q ≤ m → m + 1 ≤ n → a + 1 + q ≤ n
      one_more a q f g = omega (arith, f, g)

      own :
          attempts_of id attempts + quota (after id)
            ≤ quota (set_retries id (retries_of done.1) calls id)
          → attempts_of id ((id, done.0) ∷ attempts) + quota (after id) ≤ quota (calls id)
      own h =
          rw (self, e) (one_more (attempts_of id attempts) (quota (after id)) (rw self at h) t.uses)

      flip : (i : ℕ) → (id == i) ≡ false → (i == id) ≡ false
      flip i d = ground arith

      below : {m n k : ℕ} → m + 1 ≤ n → n ≤ k + 1 → m ≤ k
      below a b = omega arith

      enough :
          quota (calls id) ≤ turns_of id ((id, idle) ∷ schedule)
          → quota (set_retries id (retries_of done.1) calls id) ≤ turns_of id schedule
      enough h = rw self (below t.uses (rw (e, self) at h))

  -- If no sleep ends early, no call ends before it starts and the last one ended by now, then whatever
  -- the calls answer, and in whatever order they get the lock between their attempts: each attempt
  -- starts no earlier than the one before ended, and, if that one set the time of the last call (a
  -- result or a flood wait does, another exception does not), no earlier than the interval after its
  -- end and the pause that it was asked for; no call makes more attempts than one more than its
  -- retries, and a call that got the lock that often has ended.
  pub run_schedule-IsThrottled :
      (schedule : List (ℕ × ℕ)) (calls : ℕ → Option ℕ) (c : Clock)
      → IsPast c.last_called_at c.now
      → IsThrottled min_interval schedule calls
          (run_schedule min_interval padding wake fn schedule calls c).1
          c
          (run_schedule min_interval padding wake fn schedule calls c).0
  unfolding run_schedule call_turn
  run_schedule-IsThrottled [] calls c p = record {
    spaced = tt;
    bounded = λ i. omega arith;
    ends = λ i h. quota-zero (calls i) h;
  }
  run_schedule-IsThrottled ((id, idle) ∷ schedule) calls c p = elim (Option-cases (calls id)) [
    | inl e ↦
        let rest = run_schedule-IsThrottled schedule calls c p in
        rw (e, run_schedule)
          (record {
            spaced = rest.spaced;
            bounded = rest.bounded;
            ends = λ i h. elim (Bool-cases (id == i)) [
              | inl d ↦ rest.ends i (rw (sym (eq_of id i d), e) (omega arith))
              | inr d ↦ rest.ends i (rw d at h)
            ];
          })
    | inr (r, e) ↦
        let start = start_of min_interval wake c.last_called_at (c.now + idle) in
        let turn =
          settled-IsTurn start (fn id start).1 r (record c { now = c.now + idle }) (fn id start).0
            (later c.last_called_at p)
            (start_of-ge c.last_called_at (c.now + idle) (later c.last_called_at p))
            (takes_time id start) in
        rw (e, run_schedule)
          (turn-IsThrottled id idle r schedule calls _ c _ _ e turn
            (run_schedule-IsThrottled schedule _ _ turn.past))
  ]
    where
      later : (last : Option ℕ) → IsPast last c.now → IsPast last (c.now + idle)
      later none p = tt
      later (some l) p = omega (arith, p)
