-- ===== src/Runs/EventBus.antt =====
-- tg_conductor/runs/event_bus.py: the queues of the subscribers, each under its topic. A message has
-- any type; the log line on a dropped message is left out.
pub mod Kept
pub mod Stream
use tg_conductor.Base.{
  ℕ, ◌+◌, String, Bool, not, ◌&&◌, Option, none, some, List, [], ◌∷◌, ◌++◌, str_eq, leb, ◌==◌,
  if◌then◌else◌, length, filter,
}

abbrev pub Bus : Type 0 → Type 0
Bus M = List (ℕ × String × List M)

module _ {M : Type 0} (size : ℕ) where
  -- `queue.full()`: a queue of size 0 is unbounded
  abbrev pub is_full : List M → Bool
  is_full queue = not (size == 0) && leb size (length queue)

  -- `queue.get_nowait()`, whose message is dropped
  abbrev pub drop_oldest : List M → List M
  drop_oldest [] = []
  drop_oldest (m ∷ queue) = queue

  -- one turn of the loop of `publish`
  unfoldable pub put : M → List M → List M
  put message queue = (if is_full queue then drop_oldest queue else queue) ++ message ∷ []

  unfoldable pub publish : String → M → Bus M → Bus M
  unfolding put
  publish topic message [] = []
  publish topic message ((id, t, queue) ∷ bus) =
      (id, t, (if str_eq t topic then put message queue else queue)) ∷ publish topic message bus

module _ {M : Type 0} where
  -- `subscribe` up to its first wait, and its `finally` block
  unfoldable pub subscribe : ℕ → String → Bus M → Bus M
  subscribe id topic bus = bus ++ (id, topic, []) ∷ []

  unfoldable pub unsubscribe : ℕ → Bus M → Bus M
  unsubscribe id [] = []
  unsubscribe id ((i, t, queue) ∷ bus) = if i == id then bus else (i, t, queue) ∷ unsubscribe id bus

  unfoldable pub queue_of : ℕ → Bus M → Option (String × List M)
  queue_of id [] = none
  queue_of id ((i, t, queue) ∷ bus) = if i == id then some (t, queue) else queue_of id bus

  -- `queue.get()` where something waits
  abbrev took : ℕ → String → List M → Bus M → Option (M × Bus M)
  took i t [] bus = none
  took i t (m ∷ queue) bus = some (m, (i, t, queue) ∷ bus)

  abbrev behind : ℕ → String → List M → Option (M × Bus M) → Option (M × Bus M)
  behind i t queue none = none
  behind i t queue (some (m, bus)) = some (m, (i, t, queue) ∷ bus)

  unfoldable pub receive : ℕ → Bus M → Option (M × Bus M)
  receive id [] = none
  receive id ((i, t, queue) ∷ bus) =
      let rest = receive id bus in if i == id then took i t queue bus else behind i t queue rest

  unfoldable pub subscriber_count : String → Bus M → ℕ
  subscriber_count topic bus = length (filter (λ (s : ℕ × String × List M). str_eq s.1 topic) bus)
