-- ===== src/Tests/Streaming.antt =====
-- A bus with a queue of two, and a log of four events in pages of two.
use tg_conductor.Base.{ℕ, ◌≡◌, refl, List, [], ◌∷◌, some, arith}
use tg_conductor.Actions.World.{info, run_started}
use tg_conductor.Runs.Events.{EventRow, catch_up_pages}
use tg_conductor.Runs.Events.CatchUp.{Rising, IsCaughtUp, due_after, catch_up_pages-IsCaughtUp}
use tg_conductor.Runs.EventBus.{Bus, publish, subscribe, queue_of}
use tg_conductor.Runs.EventBus.Stream.{Life, IsServed, subscriber-IsServed}

abbrev empty_bus : Bus ℕ
empty_bus = []

abbrev after_three : Bus ℕ
after_three = publish 2 "run:1" 13 (
    publish 2 "run:2" 12
      (publish 2 "run:1" 11 (publish 2 "run:1" 10 (subscribe 7 "run:1" empty_bus))))

oldest_dropped : queue_of 7 after_three ≡ some ("run:1", 11 ∷ 13 ∷ [])
unfolding queue_of publish subscribe
oldest_dropped = refl

three-Life : Life 2 7 "run:1" after_three (10 ∷ 11 ∷ 13 ∷ []) [] 1
unfolding queue_of subscribe publish
three-Life = Life.published "run:1" 13 (
    Life.published "run:2" 12
      (Life.published "run:1" 11 (Life.published "run:1" 10 (Life.joined empty_bus refl))))

subscriber-IsServed_example : IsServed 2 7 "run:1" after_three (10 ∷ 11 ∷ 13 ∷ []) [] 1
subscriber-IsServed_example = subscriber-IsServed 2 7 "run:1" three-Life

abbrev stored : ℕ → EventRow
stored n = record {
  run_id = 1;
  owner_id = 1;
  event = record { seq = n; level = info; body = run_started };
}

abbrev log : List EventRow
log = stored 0 ∷ stored 1 ∷ stored 2 ∷ stored 3 ∷ []

Rising-log : Rising 1 (due_after 1 1 1 log (some 0))
Rising-log = (omega arith, (omega arith, (omega arith, tt)))

catch_up_pages-IsCaughtUp_example :
    IsCaughtUp (due_after 1 1 1 log (some 0)) (catch_up_pages 1 1 2 log 4 (some 0))
catch_up_pages-IsCaughtUp_example =
    catch_up_pages-IsCaughtUp 1 1 1 log 4 (some 0) Rising-log (omega arith)
