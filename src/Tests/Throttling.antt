-- ===== src/Tests/Throttling.antt =====
-- Two calls of one account with an interval of 10, the first of which is asked to wait once.
use tg_conductor.Base.{
  ℕ, ◌+◌, ◌≡◌, refl, ◌&&◌, Option, some, List, [], ◌∷◌, map, arith, ltb, ◌==◌, if◌then◌else◌,
}
use tg_conductor.TgCore.Throttle.{Answer, answered, flood_wait, Clock, Attempt, run_schedule}
use tg_conductor.TgCore.Throttle.Spaced.{IsThrottled, run_schedule-IsThrottled}

abbrev on_time : ℕ → ℕ
on_time t = t

abbrev answers : ℕ → ℕ → Answer ℕ × ℕ
answers id start = ((if ltb start 50 && id == 0 then flood_wait 30 else answered id), start + 2)

abbrev called : Clock
called = record { last_called_at = some 15; now = 20 }

abbrev three_retries : ℕ → Option ℕ
three_retries id = some 3

-- the second call gets the lock between the attempts of the first
abbrev schedule : List (ℕ × ℕ)
schedule = (0, 0) ∷ (1, 0) ∷ (0, 0) ∷ (0, 5) ∷ []

run_schedule-IsThrottled_example :
    IsThrottled 10 schedule three_retries
      (run_schedule 10 5 on_time answers schedule three_retries called).1
      called
      (run_schedule 10 5 on_time answers schedule three_retries called).0
run_schedule-IsThrottled_example =
    run_schedule-IsThrottled 10 5 on_time answers (λ t. omega arith) (λ id t. omega arith) schedule
      three_retries called (omega arith)

starts_of : List (ℕ × Attempt) → List ℕ
starts_of attempts = map (λ a. a.1.start) attempts

second_between :
    starts_of (run_schedule 10 5 on_time answers schedule three_retries called).0
    ≡ 25 ∷ 62 ∷ 74 ∷ []
unfolding run_schedule starts_of
second_between = refl
