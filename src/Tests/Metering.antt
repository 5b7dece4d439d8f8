-- ===== src/Tests/Metering.antt =====
-- Calls of the AI client, at four calls of two owners.
use tg_conductor.Base.{ℕ, ◌*◌, ◌≡◌, refl, Bool, true, false, none, some, List, [], ◌∷◌}
use tg_conductor.Ai.Pricing.{price_of, cost_micros}
use tg_conductor.Ai.Usage.{record_usage, aggregate_by_day, aggregate_by_kind, plus}
use tg_conductor.Ai.Usage.Reports.{sum_of}
use tg_conductor.Ai.Client.{
  RawResponse, answered, failed, Settings, Provenance, Moment, State, chat, vision, settle,
  model_or,
}
use tg_conductor.Ai.Client.Metered.{Call, of_chat, of_vision, run_calls, bill, reports-bill}

-- prices are whole, so that their product with the tokens is one of numbers
abbrev product : ℕ → ℕ → ℕ
product n p = n * p

abbrev settings : Settings
settings = record {
  openai_api_key = some "key";
  openai_model_chat = "small";
  openai_model_vision = "large";
}

abbrev state : State ℕ product settings
state = record {
  usage = record { rows = []; next_id = 1 };
  pricing = record {
    models = ("small", record { input_per_1m_yuan = 2; output_per_1m_yuan = 8 }) ∷ [];
    warned = [];
    logged = [];
  };
}

abbrev by : ℕ → Provenance
by owner_id = record { owner_id = owner_id; run_id = none; workflow_id = none; account_id = none }

abbrev moment : Bool → Moment
moment commits = record { latency_ms = 5; utcnow = 90000000000; commits = commits }

abbrev raw : RawResponse
raw = record {
  text = "hi";
  prompt_tokens = 10;
  completion_tokens = 3;
  total_tokens = 13;
  model = "small";
}

abbrev calls : List (Call ℕ product settings)
calls =
    of_chat (λ model max_tokens. answered raw) none none (by 1) (moment true)
    ∷ of_vision (λ model. failed "timeout") 1 none (by 1) (moment true)
    ∷ of_chat (λ model max_tokens. answered raw) none none (by 2) (moment true)
    ∷ of_chat (λ model max_tokens. answered raw) none none (by 1) (moment false)
    ∷ []

reports-bill_example :
    let after = run_calls ℕ product settings calls state in
    let charged = bill ℕ product settings state.pricing.models 1 after.0 in
    (sum_of (aggregate_by_day 1 none none after.1.usage)
      ≡ plus (sum_of (aggregate_by_day 1 none none state.usage)) charged)
    × (sum_of (aggregate_by_kind 1 none none after.1.usage)
        ≡ plus (sum_of (aggregate_by_kind 1 none none state.usage)) charged)
reports-bill_example = reports-bill ℕ product settings 1 calls state

reported :
    aggregate_by_kind 1 none none (run_calls ℕ product settings calls state).1.usage
    ≡ ("openai.chat", record { calls = 1; units = 13; cost_micros = 44 })
      ∷ ("openai.vision.failed", record { calls = 1; units = 0; cost_micros = 0 })
      ∷ []
unfolding aggregate_by_kind chat vision settle model_or record_usage cost_micros price_of
reported = refl
