-- ===== src/Ai/Client/Metered.antt =====
-- The calls of tg_conductor/ai/client.py, one after another, against the reports of ai/repo.py.
use tg_conductor.Base.{
  ℕ, ◌+◌, String, ◌≡◌, refl, sym, ap, ◌∙◌, inl, inr, Bool, true, false, ◌&&◌, Option, none, some,
  List, [], ◌∷◌, ◌++◌, ◌==◌, if◌then◌else◌, Bool-cases, filter, filter-append, Option-cases,
}
use tg_conductor.Ai.Pricing.{ModelPrice, PricingTable, price_of, is_warned, cost_micros}
use tg_conductor.Ai.Usage.{
  UsageKind, openai_chat, openai_chat_failed, openai_vision, openai_vision_failed, NewUsage,
  UsageRow, UsageEvents, usage_row, record_usage, Totals, no_usage, of_row, plus, selected,
  aggregate_by_day, aggregate_by_kind,
}
use tg_conductor.Ai.Usage.Reports.{
  plus_assoc, plus_comm, plus_none, usage_of, sum_of, reports_add_up,
}
use tg_conductor.Ai.Client.{
  Invoked, answered, failed, cancelled, Outcome, returned, raised, missing_key, record_failed,
  Settings, Provenance, Moment, State, record_row, usage_for, error_meta, answer_meta, result_of,
  model_or, has_key, settle, chat, vision,
}

plus_nothing : (a : Totals) → plus a no_usage ≡ a
plus_nothing a = plus_comm a no_usage ∙ plus_none a

usage_of-append : (xs ys : List UsageRow) → usage_of (xs ++ ys) ≡ plus (usage_of xs) (usage_of ys)
usage_of-append [] ys = sym (plus_none (usage_of ys))
usage_of-append (x ∷ xs) ys =
    ap (plus (of_row x)) (usage_of-append xs ys)
    ∙ sym (plus_assoc (of_row x) (usage_of xs) (usage_of ys))

module _ (Float : Type 0) (ceil_product : ℕ → Float → ℕ) (settings : Settings) where
  -- a call, with what the provider, the clocks and the database do
  pub data Call : Type 0 where
    of_chat : (String → Option ℕ → Invoked) → Option String → Option ℕ → Provenance → Moment → Call
    of_vision : (String → Invoked) → ℕ → Option String → Provenance → Moment → Call

  abbrev pub caller : Call → ℕ
  caller (of_chat f model max_tokens p m) = p.owner_id
  caller (of_vision f n model p m) = p.owner_id

  abbrev pub run_call :
      Call → State Float ceil_product settings → Outcome × State Float ceil_product settings
  run_call (of_chat f model max_tokens p m) s =
      chat Float ceil_product settings f model max_tokens p m s
  run_call (of_vision f n model p m) s = vision Float ceil_product settings f n model p m s

  -- the outcomes with their callers, and the state after
  abbrev pub run_calls :
      List Call
      → State Float ceil_product settings
      → List (ℕ × Outcome) × State Float ceil_product settings
  run_calls [] s = ([], s)
  run_calls (c ∷ cs) s =
      let one = run_call c s in
      let rest = run_calls cs one.1 in ((caller c, one.0) ∷ rest.0, rest.1)

  -- The price of an answer by the table, 0 for a model that it lacks.
  abbrev pub price : Option (ModelPrice Float ceil_product) → ℕ → ℕ → ℕ
  price none prompt_tokens completion_tokens = 0
  price (some p) prompt_tokens completion_tokens =
      ceil_product prompt_tokens p.input_per_1m_yuan
      + ceil_product completion_tokens p.output_per_1m_yuan

  abbrev Models : Type 0
  Models = List (String × ModelPrice Float ceil_product)

  -- What an outcome is charged with.
  abbrev pub charge : Models → Outcome → Totals
  charge models (returned r) = record {
    calls = 1;
    units = r.prompt_tokens + r.completion_tokens;
    cost_micros =
        price (price_of Float ceil_product r.model models) r.prompt_tokens r.completion_tokens;
  }
  charge models (raised e) = record { calls = 1; units = 0; cost_micros = 0 }
  charge models _ = no_usage

  abbrev pub bill : Models → ℕ → List (ℕ × Outcome) → Totals
  bill models owner_id [] = no_usage
  bill models owner_id ((o, outcome) ∷ os) =
      plus (if o == owner_id then charge models outcome else no_usage) (bill models owner_id os)

  abbrev usage_by : ℕ → State Float ceil_product settings → Totals
  usage_by owner_id s = usage_of (selected owner_id none none s.usage)

  priced :
      (model : String) (a b : ℕ) (t : PricingTable Float ceil_product)
      → ((cost_micros Float ceil_product model a b t).0
          ≡ price (price_of Float ceil_product model t.models) a b)
        × ((cost_micros Float ceil_product model a b t).1.models ≡ t.models)
  unfolding cost_micros
  priced model a b t = elim (Option-cases (price_of Float ceil_product model t.models)) [
    | inl h ↦ (
      rw (h, cost_micros) refl,
      rw (h, cost_micros) (unwarned (is_warned Float ceil_product model t.warned)),
    )
    | inr (p, h) ↦ (rw (h, cost_micros) refl, rw (h, cost_micros) refl)
  ]
    where
      unwarned :
          (b : Bool)
          → (if b
              then t
              else record t { warned = model ∷ t.warned; logged = t.logged ++ model ∷ [] }).models
            ≡ t.models
      unwarned true = refl
      unwarned false = refl

  -- what a row of `u` counts for the owner
  abbrev counted : ℕ → NewUsage → Totals
  counted owner_id u =
      if u.owner_id == owner_id
      then record { calls = 1; units = u.units; cost_micros = u.cost_micros }
      else no_usage

  recorded :
      (owner_id utcnow : ℕ) (u : NewUsage) (t : UsageEvents)
      → usage_of (selected owner_id none none (record_usage utcnow u t).1)
        ≡ plus (usage_of (selected owner_id none none t)) (counted owner_id u)
  unfolding record_usage
  recorded owner_id utcnow u t =
      let mine = λ (r : UsageRow). r.owner_id == owner_id && true && true in
      let row = usage_row t.next_id utcnow u in
      ap usage_of (filter-append mine t.rows (row ∷ []))
      ∙ usage_of-append (filter mine t.rows) (filter mine (row ∷ []))
      ∙ ap (plus (usage_of (filter mine t.rows))) last
    where
      last :
          usage_of (
            filter
              (λ (r : UsageRow). r.owner_id == owner_id && true && true)
              (usage_row t.next_id utcnow u ∷ []))
          ≡ counted owner_id u
      last = elim (Bool-cases (u.owner_id == owner_id)) [
        | inl e ↦
            rw e (plus_nothing (record { calls = 1; units = u.units; cost_micros = u.cost_micros }))
        | inr e ↦ rw e refl
      ]

  -- A call charges its caller for its outcome, and keeps the prices.
  abbrev Charges :
      ℕ
      → ℕ
      → Models
      → Outcome × State Float ceil_product settings
      → State Float ceil_product settings
      → Type 0
  Charges owner_id who models r s =
      (usage_by owner_id r.1
        ≡ plus (usage_by owner_id s) (if who == owner_id then charge models r.0 else no_usage))
      × (r.1.pricing.models ≡ models)

  no_charge :
      (owner_id who : ℕ) (s : State Float ceil_product settings)
      → usage_by owner_id s
        ≡ plus (usage_by owner_id s) (if who == owner_id then no_usage else no_usage)
  no_charge owner_id who s =
      elim (who == owner_id)
        as (λ b.
          usage_by owner_id s ≡ plus (usage_by owner_id s) (if b then no_usage else no_usage)) [
            | true ↦ sym (plus_nothing (usage_by owner_id s))
            | false ↦ sym (plus_nothing (usage_by owner_id s))
          ]

  record_row-Charges :
      (owner_id : ℕ) (m : Moment) (u : NewUsage) (outcome : Outcome) (models : Models)
      (s : State Float ceil_product settings)
      → charge models outcome ≡ record { calls = 1; units = u.units; cost_micros = u.cost_micros }
      → s.pricing.models ≡ models
      → Charges owner_id u.owner_id models (record_row Float ceil_product settings m u outcome s) s
  record_row-Charges owner_id m u outcome models s h k =
      elim m.commits
        as (λ b.
          Charges owner_id u.owner_id models
            (if b
              then (outcome, record s { usage = (record_usage m.utcnow u s.usage).1 })
              else (record_failed, s))
            s) [
              | true ↦ (
                recorded owner_id m.utcnow u s.usage
                    ∙ ap
                        (λ t.
                          plus (usage_by owner_id s)
                            (if u.owner_id == owner_id then t else no_usage))
                        (sym h),
                k,
              )
              | false ↦ (no_charge owner_id u.owner_id s, k)
            ]

  settle-Charges :
      (owner_id : ℕ) (kind failed_kind : UsageKind) (model : String) (image_count : Option ℕ)
      (p : Provenance) (m : Moment) (i : Invoked) (s : State Float ceil_product settings)
      → Charges owner_id p.owner_id s.pricing.models
          (settle Float ceil_product settings kind failed_kind model image_count p m i s)
          s
  unfolding settle
  settle-Charges owner_id kind failed_kind model n p m cancelled s =
      (no_charge owner_id p.owner_id s, refl)
  settle-Charges owner_id kind failed_kind model n p m (failed error) s =
      record_row-Charges owner_id m
        (usage_for Float ceil_product settings p failed_kind 0 0
          (error_meta Float ceil_product settings model m.latency_ms error))
        (raised error) s.pricing.models s refl refl
  settle-Charges owner_id kind failed_kind model n p m (answered raw) s =
      let tokens = raw.prompt_tokens + raw.completion_tokens in
      let cost =
        cost_micros Float ceil_product raw.model raw.prompt_tokens raw.completion_tokens
          s.pricing in
      let known = priced raw.model raw.prompt_tokens raw.completion_tokens s.pricing in
      record_row-Charges owner_id m
        (usage_for Float ceil_product settings p kind tokens cost.0
          (answer_meta Float ceil_product settings raw m.latency_ms n))
        (returned (result_of Float ceil_product settings raw m.latency_ms)) s.pricing.models
        (record s { pricing = cost.1 })
        (ap (λ c. record { calls = 1; units = tokens; cost_micros = c }) (sym known.0)) known.1

  run_call-Charges :
      (owner_id : ℕ) (c : Call) (s : State Float ceil_product settings)
      → Charges owner_id (caller c) s.pricing.models (run_call c s) s
  unfolding chat vision
  run_call-Charges owner_id (of_chat f model max_tokens p m) s =
      elim (has_key Float ceil_product settings settings.openai_api_key)
        as (λ b.
          Charges owner_id p.owner_id s.pricing.models
            (if b
              then settle Float ceil_product settings openai_chat openai_chat_failed
                  (model_or model settings.openai_model_chat) none p m
                  (f (model_or model settings.openai_model_chat) max_tokens) s
              else (missing_key, s))
            s) [
              | true ↦
                  settle-Charges owner_id openai_chat openai_chat_failed
                    (model_or model settings.openai_model_chat) none p m
                    (f (model_or model settings.openai_model_chat) max_tokens) s
              | false ↦ (no_charge owner_id p.owner_id s, refl)
            ]
  run_call-Charges owner_id (of_vision f n model p m) s =
      elim (has_key Float ceil_product settings settings.openai_api_key)
        as (λ b.
          Charges owner_id p.owner_id s.pricing.models
            (if b
              then settle Float ceil_product settings openai_vision openai_vision_failed
                  (model_or model settings.openai_model_vision) (some n) p m
                  (f (model_or model settings.openai_model_vision)) s
              else (missing_key, s))
            s) [
              | true ↦
                  settle-Charges owner_id openai_vision openai_vision_failed
                    (model_or model settings.openai_model_vision) (some n) p m
                    (f (model_or model settings.openai_model_vision)) s
              | false ↦ (no_charge owner_id p.owner_id s, refl)
            ]

  run_calls-bill :
      (owner_id : ℕ) (cs : List Call) (s : State Float ceil_product settings)
      → usage_by owner_id (run_calls cs s).1
        ≡ plus (usage_by owner_id s) (bill s.pricing.models owner_id (run_calls cs s).0)
  run_calls-bill owner_id [] s = sym (plus_nothing (usage_by owner_id s))
  run_calls-bill owner_id (c ∷ cs) s =
      let one = run_call-Charges owner_id c s in
      let r = run_call c s in
      let rest = (run_calls cs r.1).0 in
      run_calls-bill owner_id cs r.1
      ∙ ap (λ t. plus t (bill r.1.pricing.models owner_id rest)) one.0
      ∙ ap
          (λ models.
            plus
              (plus (usage_by owner_id s)
                (if caller c == owner_id then charge s.pricing.models r.0 else no_usage))
              (bill models owner_id rest))
          one.1
      ∙ plus_assoc (usage_by owner_id s)
          (if caller c == owner_id then charge s.pricing.models r.0 else no_usage)
          (bill s.pricing.models owner_id rest)

  -- However the provider answers and whichever rows commit: after any calls, by any owners, both
  -- reports of an owner over all time have grown by what the outcomes of that owner's calls are charged:
  -- for an answer a call, its tokens and its price by the table, for an exception that was recorded a
  -- call, and nothing for a call that had no key, was cancelled, or whose row did not commit.
  pub reports-bill :
      (owner_id : ℕ) (cs : List Call) (s : State Float ceil_product settings)
      → let after = run_calls cs s in
        let charged = bill s.pricing.models owner_id after.0 in
        (sum_of (aggregate_by_day owner_id none none after.1.usage)
          ≡ plus (sum_of (aggregate_by_day owner_id none none s.usage)) charged)
        × (sum_of (aggregate_by_kind owner_id none none after.1.usage)
            ≡ plus (sum_of (aggregate_by_kind owner_id none none s.usage)) charged)
  reports-bill owner_id cs s =
      let after = run_calls cs s in
      let charged = bill s.pricing.models owner_id after.0 in
      let before_up = reports_add_up owner_id none none s.usage in
      let after_up = reports_add_up owner_id none none after.1.usage in
      (
        after_up.0 ∙ run_calls-bill owner_id cs s ∙ ap (λ t. plus t charged) (sym before_up.0),
        after_up.1 ∙ run_calls-bill owner_id cs s ∙ ap (λ t. plus t charged) (sym before_up.1),
      )
