-- ===== src/Accounts/Manager/Backoff.antt =====
-- The backoff of the watcher of tg_conductor/accounts/manager.py.
use tg_conductor.Base.{ℕ, suc, ◌*◌, ◌≤◌, min, ◌≡◌, refl, sym, ap, ◌∙◌, List, [], ◌∷◌, arith}
use Prim.Native.Nat.{◌^◌}
use native.Mathlib.Nat.{mul_assoc, pow-zero, pow-suc}
use tg_conductor.Accounts.Repo.{Accounts}
use tg_conductor.Accounts.Manager.{
  Connect, connects, fails, Turn, stops, is_connected, reconnects, next_backoff, connect_account,
  watch_connection,
}

cons_eq : {a b : ℕ} {xs ys : List ℕ} → a ≡ b → xs ≡ ys → a ∷ xs ≡ b ∷ ys
cons_eq {b = b} {xs = xs} h k = ap (λ c. c ∷ xs) h ∙ ap (λ zs. b ∷ zs) k

module _ (initial_reconnect max_reconnect : ℕ) where
  -- The sleep after so many failures in a row.
  abbrev pub sleep_after : ℕ → ℕ
  sleep_after failures = min (initial_reconnect * 2 ^ failures) max_reconnect

  abbrev pub failures_after : ℕ → Connect → ℕ
  failures_after failures connects = 0
  failures_after failures (fails e) = suc failures

  -- The sleeps of the turns, counting the failures in a row.
  abbrev pub expected : List Turn → ℕ → List ℕ
  expected [] failures = []
  expected (stops ∷ turns) failures = sleep_after failures ∷ []
  expected (is_connected ∷ turns) failures = sleep_after failures ∷ expected turns 0
  expected (reconnects c ∷ turns) failures =
      sleep_after failures ∷ expected turns (failures_after failures c)

  doubled :
      (failures : ℕ) → min (sleep_after failures * 2) max_reconnect ≡ sleep_after (suc failures)
  doubled failures =
      doubled_min (initial_reconnect * 2 ^ failures) (initial_reconnect * 2 ^ suc failures) (
        mul_assoc initial_reconnect (2 ^ failures) 2
        ∙ ap (λ p. initial_reconnect * p) (sym (pow-suc 2 failures)))
    where
      doubled_min :
          (a b : ℕ) → a * 2 ≡ b → min (min a max_reconnect * 2) max_reconnect ≡ min b max_reconnect
      doubled_min a b h = omega (arith, h)

  first_sleep : initial_reconnect ≤ max_reconnect → initial_reconnect ≡ sleep_after 0
  first_sleep h = omega (arith, pow-zero 2)

  next_sleep :
      (failures : ℕ) (c : Connect)
      → initial_reconnect ≤ max_reconnect
      → next_backoff initial_reconnect max_reconnect (sleep_after failures) c
        ≡ sleep_after (failures_after failures c)
  next_sleep failures connects h = first_sleep h
  next_sleep failures (fails e) h = doubled failures

  sleeps_from :
      (owner_id utcnow account_id : ℕ) (turns : List Turn) (failures backoff : ℕ) (t : Accounts)
      → initial_reconnect ≤ max_reconnect
      → backoff ≡ sleep_after failures
      → (watch_connection owner_id utcnow initial_reconnect max_reconnect account_id turns backoff
          t).0
        ≡ expected turns failures
  unfolding watch_connection
  sleeps_from o u a [] failures backoff t h e = refl
  sleeps_from o u a (stops ∷ turns) failures backoff t h e = ap (λ b. b ∷ []) e
  sleeps_from o u a (is_connected ∷ turns) failures backoff t h e =
      cons_eq e (sleeps_from o u a turns 0 initial_reconnect t h (first_sleep h))
  sleeps_from o u a (reconnects c ∷ turns) failures backoff t h e = cons_eq e (
      sleeps_from o u a turns (failures_after failures c)
        (next_backoff initial_reconnect max_reconnect backoff c) (connect_account o u a c t) h
        (ap (λ b. next_backoff initial_reconnect max_reconnect b c) e ∙ next_sleep failures c h))

  -- If the first backoff is at most the largest, the watcher sleeps before each turn for the first
  -- backoff times 2 to the power of the failures since it last was connected, but at most the largest
  -- backoff, whatever the accounts and the clients do.
  pub watch_connection-expected :
      (owner_id utcnow account_id : ℕ) (turns : List Turn) (t : Accounts)
      → initial_reconnect ≤ max_reconnect
      → (watch_connection owner_id utcnow initial_reconnect max_reconnect account_id turns
          initial_reconnect t).0
        ≡ expected turns 0
  watch_connection-expected o u a turns t h =
      sleeps_from o u a turns 0 initial_reconnect t h (first_sleep h)
