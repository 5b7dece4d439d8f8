-- ===== src/Api/Lifespan/Modes.antt =====
-- `_compute_update_modes` and `_make_mode_flip_hook` of tg_conductor/api/lifespan.py.
pub mod Changes
use tg_conductor.Base.{ℕ, String, Bool, true, false, not, List, [], ◌∷◌, ◌==◌, if◌then◌else◌}
use tg_conductor.Accounts.Repo.{Account, Accounts, list_for_owner}
use tg_conductor.Workflows.Repo.{Workflows}
use tg_conductor.Workflows.UpdateMode.{account_needs_updates}

abbrev pub Modes : Type 0
Modes = List (ℕ × Bool)

-- `baseline.get(account_id, False)`
abbrev pub mode_of : ℕ → Modes → Bool
mode_of account_id [] = false
mode_of account_id ((id, receives) ∷ modes) =
    let rest = mode_of account_id modes in if id == account_id then receives else rest

-- the warning: the account, its label, and the new mode
pub record Flip : Type 0 where
  pub account_id : ℕ
  pub label : String
  pub to_receiving : Bool

module _ (owner_id : ℕ) (workflows : Workflows) where
  unfoldable pub modes_of : List Account → Modes
  unfolding account_needs_updates
  modes_of [] = []
  modes_of (a ∷ accounts) =
      (a.id, account_needs_updates owner_id a.id workflows) ∷ modes_of accounts

  unfoldable pub compute_update_modes : Accounts → Modes
  unfolding modes_of list_for_owner
  compute_update_modes t = modes_of (list_for_owner owner_id false t)

  abbrev pub differs : Bool → Bool → Bool
  differs true b = not b
  differs false b = b

  unfoldable pub flips_of : Modes → List Account → List Flip
  flips_of baseline [] = []
  flips_of baseline (a ∷ accounts) =
      let needs = account_needs_updates owner_id a.id workflows in
      let rest = flips_of baseline accounts in
      if differs needs (mode_of a.id baseline)
      then record { account_id = a.id; label = a.label; to_receiving = needs } ∷ rest
      else rest

  -- the warnings of the hook after a reload
  unfoldable pub flip_hook : Modes → Accounts → List Flip
  unfolding flips_of list_for_owner
  flip_hook baseline t = flips_of baseline (list_for_owner owner_id false t)
