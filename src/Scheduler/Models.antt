-- ===== src/Scheduler/Models.antt =====
-- tg_conductor/scheduler/models.py: the rows of `jobs`. A date is the ordinal of its day, a time the
-- microseconds since the epoch; `resolved_payload` holds the one key that is ever written to it.
use tg_conductor.Base.{ℕ, String, Bool, true, false, Option, List}
use tg_conductor.TgCore.Protocol.{MessagePayload}

pub data JobStatus : Type 0 where
  pending running succeeded failed skipped canceled : JobStatus

unfoldable pub is_terminal : JobStatus → Bool
is_terminal succeeded = true
is_terminal failed = true
is_terminal skipped = true
is_terminal canceled = true
is_terminal _ = false

abbrev pub is_pending : JobStatus → Bool
is_pending pending = true
is_pending _ = false

pub record JobRow : Type 0 where
  pub id : ℕ
  pub owner_id : ℕ
  pub workflow_id : ℕ
  pub account_id : ℕ
  pub fire_at : ℕ
  pub status : JobStatus
  pub variant_id : Option String
  pub resolved_payload : Option MessagePayload
  pub run_id : Option ℕ
  pub skip_reason : Option String
  pub started_at : Option ℕ
  pub finished_at : Option ℕ
  pub created_at : ℕ
  pub expansion_date : Option ℕ

-- the table, and the primary key that the next row gets
pub record Jobs : Type 0 where
  pub rows : List JobRow
  pub next_id : ℕ
