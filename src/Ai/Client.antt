-- ===== src/Ai/Client.antt =====
-- tg_conductor/ai/client.py: a call of the provider, and the row that it leaves. The provider and the
-- clocks are parameters; a transaction commits or raises.
pub mod Metered
use tg_conductor.Base.{ℕ, ◌+◌, String, Bool, true, false, Option, none, some, str_eq, if◌then◌else◌}
use tg_conductor.Actions.World.{ChatResult}
use tg_conductor.Ai.Pricing.{PricingTable, cost_micros}
use tg_conductor.Ai.Usage.{
  UsageKind, openai_chat, openai_chat_failed, openai_vision, openai_vision_failed, kind_value, Meta,
  NewUsage, UsageEvents, record_usage,
}

-- RawChatResponse and RawVisionResponse
pub record RawResponse : Type 0 where
  pub text : String
  pub prompt_tokens : ℕ
  pub completion_tokens : ℕ
  pub total_tokens : ℕ
  pub model : String

-- A task that is cancelled raises no `Exception`.
pub data Invoked : Type 0 where
  answered : RawResponse → Invoked
  failed : String → Invoked
  cancelled : Invoked

pub data Outcome : Type 0 where
  returned : ChatResult → Outcome
  raised : String → Outcome
  missing_key record_failed interrupted : Outcome

pub record Settings : Type 0 where
  pub openai_api_key : Option String
  pub openai_model_chat : String
  pub openai_model_vision : String

-- the keyword arguments that tag a row
pub record Provenance : Type 0 where
  pub owner_id : ℕ
  pub run_id : Option ℕ
  pub workflow_id : Option ℕ
  pub account_id : Option ℕ

-- what the world gives a call: the time it took, the time of the row, and whether the row commits
pub record Moment : Type 0 where
  pub latency_ms : ℕ
  pub utcnow : ℕ
  pub commits : Bool

-- `model or default`
unfoldable pub model_or : Option String → String → String
model_or none default = default
model_or (some model) default = if str_eq model "" then default else model

module _ (Float : Type 0) (ceil_product : ℕ → Float → ℕ) (settings : Settings) where
  pub record State : Type 0 where
    pub usage : UsageEvents
    pub pricing : PricingTable Float ceil_product

  abbrev pub has_key : Option String → Bool
  has_key none = false
  has_key (some key) = true

  -- `_record`, and how the call goes on
  abbrev pub record_row : Moment → NewUsage → Outcome → State → Outcome × State
  record_row m u outcome s =
      if m.commits
      then (outcome, record s { usage = (record_usage m.utcnow u s.usage).1 })
      else (record_failed, s)

  abbrev pub usage_for : Provenance → UsageKind → ℕ → ℕ → Meta → NewUsage
  usage_for p kind units cost meta = record {
    owner_id = p.owner_id;
    kind = kind_value kind;
    units = units;
    cost_micros = cost;
    run_id = p.run_id;
    workflow_id = p.workflow_id;
    account_id = p.account_id;
    meta = meta;
    ts = none;
  }

  abbrev pub error_meta : String → ℕ → String → Meta
  error_meta model latency_ms error = record {
    model = model;
    latency_ms = latency_ms;
    prompt_tokens = none;
    completion_tokens = none;
    total_tokens = none;
    image_count = none;
    error = some error;
  }

  abbrev pub answer_meta : RawResponse → ℕ → Option ℕ → Meta
  answer_meta raw latency_ms image_count = record {
    model = raw.model;
    latency_ms = latency_ms;
    prompt_tokens = some raw.prompt_tokens;
    completion_tokens = some raw.completion_tokens;
    total_tokens = some raw.total_tokens;
    image_count = image_count;
    error = none;
  }

  abbrev pub result_of : RawResponse → ℕ → ChatResult
  result_of raw latency_ms = record {
    text = raw.text;
    prompt_tokens = raw.prompt_tokens;
    completion_tokens = raw.completion_tokens;
    total_tokens = raw.total_tokens;
    model = raw.model;
    latency_ms = latency_ms;
  }

  -- past the invoker, of `chat` and `vision` alike
  unfoldable pub settle :
      UsageKind
      → UsageKind
      → String
      → Option ℕ
      → Provenance
      → Moment
      → Invoked
      → State
      → Outcome × State
  settle kind failed_kind model image_count p m (failed error) s =
      record_row m (usage_for p failed_kind 0 0 (error_meta model m.latency_ms error))
        (raised error) s
  settle kind failed_kind model image_count p m cancelled s = (interrupted, s)
  settle kind failed_kind model image_count p m (answered raw) s =
      let priced =
        cost_micros Float ceil_product raw.model raw.prompt_tokens raw.completion_tokens
          s.pricing in
      record_row m
        (usage_for p kind (raw.prompt_tokens + raw.completion_tokens) priced.0
          (answer_meta raw m.latency_ms image_count))
        (returned (result_of raw m.latency_ms)) (record s { pricing = priced.1 })

  -- the invoker is given the messages already
  unfoldable pub chat :
      (String → Option ℕ → Invoked)
      → Option String
      → Option ℕ
      → Provenance
      → Moment
      → State
      → Outcome × State
  unfolding settle model_or
  chat chat_invoker model max_tokens p m s =
      let resolved = model_or model settings.openai_model_chat in
      if has_key settings.openai_api_key
      then settle openai_chat openai_chat_failed resolved none p m
          (chat_invoker resolved max_tokens) s
      else (missing_key, s)

  unfoldable pub vision :
      (String → Invoked) → ℕ → Option String → Provenance → Moment → State → Outcome × State
  unfolding settle model_or
  vision vision_invoker image_count model p m s =
      let resolved = model_or model settings.openai_model_vision in
      if has_key settings.openai_api_key
      then settle openai_vision openai_vision_failed resolved (some image_count) p m
          (vision_invoker resolved) s
      else (missing_key, s)
