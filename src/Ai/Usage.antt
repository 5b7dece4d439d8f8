-- ===== src/Ai/Usage.antt =====
-- tg_conductor/ai/usage.py and repo.py: one row for each call, and the reports over them. GROUP BY
-- with ORDER BY is a fold of the rows into groups in the order of their keys.
pub mod Reports
use tg_conductor.Base.{
  ℕ, ◌+◌, ◌/◌, String, Bool, true, ◌&&◌, Option, none, some, List, [], ◌∷◌, ◌++◌, ltb, leb, ◌==◌,
  take, filter, sort_desc, sort_desc, sort_desc, sort_desc, sort_desc, sort_desc,
}
use Prim.Native.Nat.{Ordering, compare}
use Prim.Native.String.{compare as compare_string}

pub data UsageKind : Type 0 where
  openai_chat openai_chat_failed openai_vision openai_vision_failed : UsageKind

abbrev pub kind_value : UsageKind → String
kind_value openai_chat = "openai.chat"
kind_value openai_chat_failed = "openai.chat.failed"
kind_value openai_vision = "openai.vision"
kind_value openai_vision_failed = "openai.vision.failed"

-- the keys that the client writes
pub record Meta : Type 0 where
  pub model : String
  pub latency_ms : ℕ
  pub prompt_tokens : Option ℕ
  pub completion_tokens : Option ℕ
  pub total_tokens : Option ℕ
  pub image_count : Option ℕ
  pub error : Option String

pub record UsageRow : Type 0 where
  pub id : ℕ
  pub owner_id : ℕ
  pub ts : ℕ
  pub kind : String
  pub units : ℕ
  pub cost_micros : ℕ
  pub run_id : Option ℕ
  pub workflow_id : Option ℕ
  pub account_id : Option ℕ
  pub meta : Meta

pub record UsageEvents : Type 0 where
  pub rows : List UsageRow
  pub next_id : ℕ

-- the keyword arguments of `record_usage`
pub record NewUsage : Type 0 where
  pub owner_id : ℕ
  pub kind : String
  pub units : ℕ
  pub cost_micros : ℕ
  pub run_id : Option ℕ
  pub workflow_id : Option ℕ
  pub account_id : Option ℕ
  pub meta : Meta
  pub ts : Option ℕ

abbrev pub or_now : Option ℕ → ℕ → ℕ
or_now none utcnow = utcnow
or_now (some ts) utcnow = ts

abbrev pub usage_row : ℕ → ℕ → NewUsage → UsageRow
usage_row id utcnow u = record {
  id = id;
  owner_id = u.owner_id;
  ts = or_now u.ts utcnow;
  kind = u.kind;
  units = u.units;
  cost_micros = u.cost_micros;
  run_id = u.run_id;
  workflow_id = u.workflow_id;
  account_id = u.account_id;
  meta = u.meta;
}

unfoldable pub record_usage : ℕ → NewUsage → UsageEvents → UsageRow × UsageEvents
record_usage utcnow u t = (
  usage_row t.next_id utcnow u,
  record { rows = t.rows ++ usage_row t.next_id utcnow u ∷ []; next_id = t.next_id + 1 },
)

abbrev pub from_time : Option ℕ → ℕ → Bool
from_time none ts = true
from_time (some since) ts = leb since ts

abbrev pub before_time : Option ℕ → ℕ → Bool
before_time none ts = true
before_time (some until) ts = ltb ts until

abbrev pub selected : ℕ → Option ℕ → Option ℕ → UsageEvents → List UsageRow
selected owner_id since until t =
    filter
      (λ (r : UsageRow). r.owner_id == owner_id && from_time since r.ts && before_time until r.ts)
      t.rows

unfoldable pub list_for_owner : ℕ → Option ℕ → Option ℕ → ℕ → UsageEvents → List UsageRow
list_for_owner owner_id since until limit t =
    take limit (sort_desc (λ (r : UsageRow). r.ts) (selected owner_id since until t))

-- COUNT and the two SUMs
pub record Totals : Type 0 where
  pub calls : ℕ
  pub units : ℕ
  pub cost_micros : ℕ

abbrev pub no_usage : Totals
no_usage = record { calls = 0; units = 0; cost_micros = 0 }

abbrev pub of_row : UsageRow → Totals
of_row r = record { calls = 1; units = r.units; cost_micros = r.cost_micros }

abbrev pub plus : Totals → Totals → Totals
plus a b = record {
  calls = a.calls + b.calls;
  units = a.units + b.units;
  cost_micros = a.cost_micros + b.cost_micros;
}

module _ {K : Type 0} (order : K → K → Ordering) where
  -- a row joins the group of its key, or opens it in its place
  abbrev pub add_to : K → UsageRow → List (K × Totals) → List (K × Totals)
  add_to k r [] = (k, of_row r) ∷ []
  add_to k r ((j, t) ∷ gs) = elim (order k j) [
    | Ordering.lt ↦ (k, of_row r) ∷ (j, t) ∷ gs
    | Ordering.eq ↦ (j, plus (of_row r) t) ∷ gs
    | Ordering.gt ↦ (j, t) ∷ add_to k r gs
  ]

  abbrev pub group_by : (UsageRow → K) → List UsageRow → List (K × Totals)
  group_by key [] = []
  group_by key (r ∷ rs) = add_to (key r) r (group_by key rs)

abbrev pub day_of : UsageRow → ℕ
day_of r = r.ts / 86400000000

abbrev pub kind_of : UsageRow → String
kind_of r = r.kind

unfoldable pub aggregate_by_day : ℕ → Option ℕ → Option ℕ → UsageEvents → List (ℕ × Totals)
aggregate_by_day owner_id since until t = group_by compare day_of (selected owner_id since until t)

unfoldable pub aggregate_by_kind : ℕ → Option ℕ → Option ℕ → UsageEvents → List (String × Totals)
aggregate_by_kind owner_id since until t =
    group_by compare_string kind_of (selected owner_id since until t)
