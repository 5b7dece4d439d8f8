-- ===== src/Runs/Events.antt =====
-- `list_events` of tg_conductor/runs/repo.py, and the catch-up of `stream_events` in
-- tg_conductor/api/routes/runs.py, which pages through it. A cursor of -1 is `none`.
pub mod CatchUp
use tg_conductor.Base.{
  ℕ, zero, suc, ◌+◌, Bool, true, false, ◌&&◌, Option, none, some, List, [], ◌∷◌, ◌++◌, ltb, ◌==◌,
  if◌then◌else◌, length, take, any, filter, sort_by,
}
use tg_conductor.Actions.World.{EventBody, run_finished, RunEvent}

pub record EventRow : Type 0 where
  pub run_id : ℕ
  pub owner_id : ℕ
  pub event : RunEvent

-- `seq > since`
abbrev pub is_newer : Option ℕ → EventRow → Bool
is_newer none r = true
is_newer (some c) r = ltb c r.event.seq

abbrev pub seq_of : EventRow → ℕ
seq_of r = r.event.seq

unfoldable pub list_events : ℕ → ℕ → Option ℕ → ℕ → List EventRow → List EventRow
list_events run_id owner_id since limit rows = take limit (
    sort_by seq_of
      (filter (λ r. r.run_id == run_id && r.owner_id == owner_id && is_newer since r) rows))

abbrev pub ends_run : EventBody → Bool
ends_run (run_finished success) = true
ends_run _ = false

abbrev pub is_end : EventRow → Bool
is_end r = ends_run r.event.body

-- `batch[-1].seq`
abbrev pub last_seq : EventRow → List EventRow → ℕ
last_seq r [] = r.event.seq
last_seq r (x ∷ xs) = last_seq x xs

module _ (run_id owner_id page : ℕ) (rows : List EventRow) where
  -- one page: the rows sent, and whether the run's end was among them
  abbrev pub next_page : List EventRow → (ℕ → List EventRow × Bool) → List EventRow × Bool
  next_page [] rest = ([], false)
  next_page (r ∷ batch) rest =
      let more = rest (last_seq r batch) in
      if any is_end (r ∷ batch)
      then (r ∷ batch, true)
      else if ltb (length (r ∷ batch)) page
      then (r ∷ batch, false)
      else ((r ∷ batch) ++ more.0, more.1)

  -- the `while` loop; the fuel bounds its turns
  unfoldable pub catch_up_pages : ℕ → Option ℕ → List EventRow × Bool
  unfolding list_events
  catch_up_pages zero since = ([], false)
  catch_up_pages (suc fuel) since =
      next_page (list_events run_id owner_id since page rows) (λ c. catch_up_pages fuel (some c))
