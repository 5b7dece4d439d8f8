-- ===== src/Api/Lifespan/Modes/Changes.antt =====
-- The warnings of `_make_mode_flip_hook` in tg_conductor/api/lifespan.py against the modes at the start.
use tg_conductor.Base.{
  ℕ, ◌≡◌, refl, ap, ◌∙◌, inl, inr, Bool, true, false, not, ◌&&◌, List, [], ◌∷◌, map, arith, ◌==◌,
  if◌then◌else◌, Bool-cases, elem, filter, ==_refl,
}
use tg_conductor.Accounts.Repo.{Account, Accounts, list_for_owner}
use tg_conductor.Workflows.Repo.{Workflows}
use tg_conductor.Workflows.UpdateMode.{account_needs_updates}
use tg_conductor.Api.Lifespan.Modes.{
  mode_of, Flip, modes_of, compute_update_modes, differs, flips_of, flip_hook,
}

module _ (owner_id : ℕ) (at_start now : Workflows) where
  -- Did the account need updates at the start? One that was not there then did not.
  abbrev pub needed : List Account → ℕ → Bool
  needed accounts id =
      elem id (map (λ (a : Account). a.id) accounts) && account_needs_updates owner_id id at_start

  abbrev pub is_changed : List Account → Account → Bool
  is_changed accounts a =
      if account_needs_updates owner_id a.id now
      then not (needed accounts a.id)
      else needed accounts a.id

  abbrev pub warning : Account → Flip
  warning a = record {
    account_id = a.id;
    label = a.label;
    to_receiving = account_needs_updates owner_id a.id now;
  }

  mode_of-modes_of :
      (accounts : List Account) (id : ℕ)
      → mode_of id (modes_of owner_id at_start accounts) ≡ needed accounts id
  unfolding modes_of
  mode_of-modes_of [] id = refl
  mode_of-modes_of (a ∷ accounts) id = elim (Bool-cases (a.id == id)) [
    | inl e ↦ rw (==_eq a.id id e, ==_refl id) refl
    | inr e ↦ rw (e, flipped a.id id e) (mode_of-modes_of accounts id)
  ]
    where
      flipped : (m n : ℕ) → (m == n) ≡ false → (n == m) ≡ false
      flipped m n h = ground arith

      ==_eq : (m n : ℕ) → (m == n) ≡ true → m ≡ n
      ==_eq m n h = ground arith

  differs-if : (a b : Bool) → differs owner_id now a b ≡ (if a then not b else b)
  differs-if true b = refl
  differs-if false b = refl

  flips_of-changed :
      (before accounts : List Account)
      → flips_of owner_id now (modes_of owner_id at_start before) accounts
        ≡ map warning (filter (is_changed before) accounts)
  unfolding flips_of
  flips_of-changed before [] = refl
  flips_of-changed before (a ∷ accounts) =
      let same =
        differs-if (account_needs_updates owner_id a.id now)
          (mode_of a.id (modes_of owner_id at_start before))
        ∙ ap (λ (b : Bool). if account_needs_updates owner_id a.id now then not b else b)
            (mode_of-modes_of before a.id) in
      elim (Bool-cases (is_changed before a)) [
        | inl e ↦ rw (same, e, flips_of-changed before accounts) refl
        | inr e ↦ rw (same, e, flips_of-changed before accounts) refl
      ]

  -- With the modes of the start, from the accounts and workflows of then, the hook warns after a reload
  -- of exactly those accounts, not disabled now and in their order, whose need for updates now differs
  -- from the one at the start, where an account that was not there or disabled then needed none; and
  -- the warning names the mode that is needed now.
  pub flip_hook-changed :
      (before t : Accounts)
      → flip_hook owner_id now (compute_update_modes owner_id at_start before) t
        ≡ map warning (
            filter
              (is_changed (list_for_owner owner_id false before))
              (list_for_owner owner_id false t))
  unfolding flip_hook compute_update_modes
  flip_hook-changed before t =
      flips_of-changed (list_for_owner owner_id false before) (list_for_owner owner_id false t)
