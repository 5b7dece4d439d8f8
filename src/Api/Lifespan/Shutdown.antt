-- ===== src/Api/Lifespan/Shutdown.antt =====
-- `_shutdown` of tg_conductor/api/lifespan.py: the order in which the parts are stopped.
use tg_conductor.Base.{ℕ, Bool, true, false, List, [], ◌∷◌, ◌++◌, if◌then◌else◌}

-- `raises` is an `Exception`; a cancelled shutdown raises none
pub data Stop : Type 0 where
  stops raises cancels : Stop

pub data Part : Type 0 where
  dispatcher account_manager cleaner daily_expander supervised_tasks engine : Part
  worker : ℕ → Part

abbrev pub workers_of : List ℕ → List Part
workers_of [] = []
workers_of (id ∷ ids) = worker id ∷ workers_of ids

-- what is stopped, in order
abbrev pub shutdown_order : List ℕ → List Part
shutdown_order account_ids =
    dispatcher ∷ workers_of account_ids
    ++ account_manager ∷ cleaner ∷ daily_expander ∷ supervised_tasks ∷ engine ∷ []

abbrev pub is_cancel : Stop → Bool
is_cancel cancels = true
is_cancel _ = false

-- the parts whose stop was called, and whether the shutdown ran to its end
unfoldable pub stop_each : (Part → Stop) → List Part → List Part × Bool
stop_each stop [] = ([], true)
stop_each stop (p ∷ parts) =
    let rest = stop_each stop parts in
    if is_cancel (stop p) then (p ∷ [], false) else (p ∷ rest.0, rest.1)

unfoldable pub shutdown : (Part → Stop) → List ℕ → List Part × Bool
unfolding stop_each
shutdown stop account_ids = stop_each stop (shutdown_order account_ids)
