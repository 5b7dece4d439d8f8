-- ===== src/Tests/Plans.antt =====
-- The validators of a plan, windows and durations, and the accounts that receive updates.
use tg_conductor.Base.{ℕ, ◌≤◌, ◌≡◌, ◌↔◌, ◌-◌, refl, none, some, arith, length, any}
use tg_conductor.Base.Result.{ok}
use tg_conductor.Tests.Data.{greeting, plan, four_workflows}
use tg_conductor.Workflows.Schema.{exactly, between, ActionPlan, is_blank_id}
use tg_conductor.Workflows.Schema.Steps.{
  validate_send_text, IsValidSendText, validate_send_text_iff,
}
use tg_conductor.Workflows.Schema.Plan.{validate_plan, IsValidPlan, validate_plan_iff}
use tg_conductor.Workflows.Schema.Window.{Window, codes}
use tg_conductor.Workflows.UpdateMode.{receives, account_needs_updates, account_needs_updates_iff}
use tg_conductor.Triggers.Duration.{parse_duration}
use tg_conductor.Triggers.TimeWindow.{expand, sample_count}
use tg_conductor.Triggers.TimeWindow.Spacing.{IsSchedule, IsMost, expand-IsSchedule, length-expand}

validate_send_text_iff_example : (validate_send_text greeting ≡ ok tt) ↔ IsValidSendText greeting
validate_send_text_iff_example = validate_send_text_iff greeting

greeting_accepted : validate_send_text greeting ≡ ok tt
unfolding validate_send_text is_blank_id
greeting_accepted = refl

abbrev short_plan : ActionPlan
short_plan = record plan { job_timeout = some 1000000 }

validate_plan_iff_example : (validate_plan short_plan ≡ ok tt) ↔ IsValidPlan short_plan
validate_plan_iff_example = validate_plan_iff short_plan

plan_accepted : validate_plan plan ≡ ok tt
unfolding validate_plan
plan_accepted = refl

abbrev nine_to_ten : Window
nine_to_ten = record { start_h = 9; start_m = 0; end_h = 10; end_m = 0 }

account_needs_updates_iff_example :
    account_needs_updates 1 5 four_workflows ≡ any (receives 1 5) four_workflows.rows
account_needs_updates_iff_example =
    account_needs_updates_iff 1 5 four_workflows
      (plan_accepted, (plan_accepted, (plan_accepted, (plan_accepted, tt))))

one_hour_thirty : parse_duration (codes "1h 30m") ≡ some 5400
unfolding parse_duration
one_hour_thirty = refl

junk : parse_duration (codes "12x 0s") ≡ none
unfolding parse_duration
junk = refl

abbrev lowest : ℕ → ℕ → ℕ
lowest a b = a

abbrev halfway : ℕ → ℕ → ℕ
halfway k free = free - k

halfway_bounded : (k free : ℕ) → halfway k free ≤ free
halfway_bounded k free = omega arith

expand-IsSchedule_example :
    IsSchedule 150 400 60 (expand lowest halfway (exactly 3) 60 100 400 (some 150))
expand-IsSchedule_example =
    expand-IsSchedule lowest halfway halfway_bounded (exactly 3) 60 100 400 (some 150)

length-expand_example :
    IsMost 300 2 400
      (length (expand lowest halfway (between (record { min = 2; max = 5 })) 400 100 400 none))
unfolding sample_count
length-expand_example =
    length-expand lowest halfway (between (record { min = 2; max = 5 })) 400 100 400 none
      (omega arith) (omega arith)
