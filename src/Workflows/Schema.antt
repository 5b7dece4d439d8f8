-- ===== src/Workflows/Schema.antt =====
-- tg_conductor/workflows/schema.py: the wire types. Seconds are whole microseconds, so a negative
-- or fractional-microsecond delay has no value here; chat ids are `int` or `str`.
pub mod Steps
pub mod Plan
pub mod Window
use Prim.Native.Char.{code}
use tg_conductor.Base.{ℕ, ◌*◌, String, Bool, true, false, ◌&&◌, ◌||◌, Option, List, leb, ◌==◌}
use tg_conductor.Base.Int.{ℤ}

abbrev pub seconds : ℕ → ℕ
seconds n = n * 1000000

pub record CountRange : Type 0 where
  pub min : ℕ
  pub max : ℕ

-- `int | CountRange`
pub data Count : Type 0 where
  exactly : ℕ → Count
  between : CountRange → Count

pub record DelayRange : Type 0 where
  pub min : ℕ
  pub max : ℕ

-- `float | DelayRange`
pub data Delay : Type 0 where
  fixed : ℕ → Delay
  uniform : DelayRange → Delay

pub data ChatId : Type 0 where
  numeric : ℤ → ChatId
  named : String → ChatId

pub record TimeWindowTrigger : Type 0 where
  pub window : String
  pub count : Count
  pub min_gap : String

pub record MessageMatchTrigger : Type 0 where
  pub chat_id : ℤ
  pub topic_id : Option ℤ
  pub text_pattern : Option String
  pub from_user_id : Option ℤ

pub data Trigger : Type 0 where
  cron : String → Trigger
  time_window : TimeWindowTrigger → Trigger
  message_match : MessageMatchTrigger → Trigger
  startup : Trigger

pub record SendTextStep : Type 0 where
  pub chat_id : ChatId
  pub text : Option String
  pub text_pool : Option (List String)
  pub pick_n : Option Count
  pub shuffle : Bool
  pub message_thread_id : Option ℤ
  pub delete_after : Option ℕ

pub record SendDiceStep : Type 0 where
  pub chat_id : ChatId
  pub emoji : String
  pub message_thread_id : Option ℤ
  pub delete_after : Option ℕ

pub record ForwardStep : Type 0 where
  pub to_chat_id : ChatId
  pub to_message_thread_id : Option ℤ
  pub source : String

pub record ClickButtonMatch : Type 0 where
  pub text : Option String
  pub text_regex : Option String
  pub ai_image_prompt : Option String

pub record ClickButtonStep : Type 0 where
  pub match : ClickButtonMatch
  pub target : String

pub record WaitForStep : Type 0 where
  pub chat_id : ChatId
  pub text_pattern : Option String
  pub from_user_id : Option ℤ
  pub topic_id : Option ℤ

pub record AiReplyStep : Type 0 where
  pub to_chat_id : ChatId
  pub prompt_template : String
  pub model : Option String
  pub max_tokens : Option ℕ

-- the discriminator `action` with the fields of its class
pub data Action : Type 0 where
  send_text : SendTextStep → Action
  send_dice : SendDiceStep → Action
  forward : ForwardStep → Action
  click_button : ClickButtonStep → Action
  wait_for : WaitForStep → Action
  ai_reply : AiReplyStep → Action

-- `_BaseStep` with the fields of the subclass in `action`
pub record ActionStep : Type 0 where
  pub timeout : Option ℕ
  pub continue_on_error : Bool
  pub delay_before : Option Delay
  pub action : Action

pub record Variant : Type 0 where
  pub id : Option String
  pub name : Option String
  pub steps : List ActionStep

pub data PickVariant : Type 0 where
  random round_robin : PickVariant

pub record ActionPlan : Type 0 where
  pub steps : List ActionStep
  pub variants : List Variant
  pub pick_variant : Option PickVariant
  pub inter_step_delay : Option DelayRange
  pub job_timeout : Option ℕ

pub record Workflow : Type 0 where
  pub name : String
  pub account_id : ℕ
  pub enabled : Bool
  pub trigger : Trigger
  pub action_plan : ActionPlan

-- the characters that `str.strip` removes
unfoldable pub is_space : ℕ → Bool
is_space c =
    (leb 9 c && leb c 13)
    || (leb 28 c && leb c 32)
    || c == 133
    || c == 160
    || c == 5760
    || (leb 8192 c && leb c 8202)
    || c == 8232
    || c == 8233
    || c == 8239
    || c == 8287
    || c == 12288

-- `not s.strip()`
unfoldable pub is_blank : String → Bool
unfolding is_space
is_blank String.[] = true
is_blank (String.◌∷◌ c s) = is_space (code c) && is_blank s

unfoldable pub is_blank_id : ChatId → Bool
unfolding is_blank
is_blank_id (numeric n) = false
is_blank_id (named s) = is_blank s
