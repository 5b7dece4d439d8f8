-- ===== src/Actions/World.antt =====
-- tg_conductor/actions/context.py and runs/event_writer.py: the context of a run, its events, and the
-- awaits that may end in an exception. What is outside the program (the Telegram client, the AI
-- client, commits, sleeping, randomness) is a `Backend` over a state of its own.
pub mod Keeps
use tg_conductor.Base.{ℕ, ◌+◌, String, Bool, Option, List, [], ◌∷◌, ◌++◌}
use tg_conductor.Base.Int.{ℤ}
use tg_conductor.TgCore.Protocol.{Message}
use tg_conductor.Actions.Extras.{Extras}
use tg_conductor.Workflows.Schema.{ChatId}
use tg_conductor.Workflows.Repo.{Workflows}

-- How an awaited call ends. `timed_out` is `TimeoutError`, raised by the call or by the deadline of
-- the step around it; `cancelled` is the deadline of the job, which no handler of the step catches.
pub data Outcome (A : Type 0) : Type 0 where
  done : A → Outcome A
  timed_out : Outcome A
  raised : String → Outcome A
  cancelled : Outcome A

pub record ChatResult : Type 0 where
  pub text : String
  pub prompt_tokens : ℕ
  pub completion_tokens : ℕ
  pub total_tokens : ℕ
  pub model : String
  pub latency_ms : ℕ

pub data StepError : Type 0 where
  step_timeout : StepError
  exception : String → StepError

-- The type of an event with the attributes that identify what happened; the text for people and the
-- attributes that repeat the step's own fields are left out.
pub data EventBody : Type 0 where
  run_started : EventBody
  run_finished : Bool → EventBody
  action_delay : ℕ → ℕ → EventBody
  action_failed : ℕ → StepError → EventBody
  sent_text : ℕ → List String → List ℕ → EventBody
  sent_dice : ℕ → ℕ → EventBody
  forwarded : ℕ → ℕ → ℕ → EventBody
  clicked_button : ℕ → String → EventBody
  waited_for : ℕ → ℕ → EventBody
  ai_replied : ℕ → ChatResult → ℕ → EventBody

pub data EventLevel : Type 0 where
  info error : EventLevel

pub record RunEvent : Type 0 where
  pub seq : ℕ
  pub level : EventLevel
  pub body : EventBody

pub record Ctx : Type 0 where
  pub owner_id : ℕ
  pub workflow_id : ℕ
  pub run_id : ℕ
  pub last_matched_message : Option Message
  pub step_index : ℕ
  pub next_seq : ℕ
  pub extras : Extras

-- `events` are the committed rows of the run, `published` what its topic was sent.
pub record World (T : Type 0) : Type 0 where
  pub ctx : Ctx
  pub workflows : Workflows
  pub events : List RunEvent
  pub published : List RunEvent
  pub outside : T

pub record Backend (T : Type 0) : Type 0 where
  pub send_text : ChatId → String → T → Outcome Message × T
  pub send_dice : ChatId → String → T → Outcome Message × T
  pub forward : ℤ → ℕ → ChatId → T → Outcome Message × T
  pub click_button : ℤ → ℕ → String → T → Outcome (Unit {0}) × T
  pub wait_for : ChatId → (Message → Bool) → ℕ → T → Outcome Message × T
  pub chat : String → Option String → Option ℕ → T → Outcome ChatResult × T
  -- the end of a transaction: its writes hold exactly if this is `done`
  pub commit : T → Outcome (Unit {0}) × T
  pub sleep : ℕ → T → Outcome (Unit {0}) × T
  pub uniform : ℕ → ℕ → T → ℕ × T
  pub randint : ℕ → ℕ → T → ℕ × T
  pub randrange : ℕ → T → ℕ × T
  pub sample : ℕ → ℕ → T → List ℕ × T
  pub shuffle : List ℕ → T → List ℕ × T
  -- `re.search`, and `str.format` of a template with the message's text and the extras
  pub search : String → String → Bool
  pub format : String → String → Extras → Outcome String

abbrev pub Act : Type 0 → Type 0 → Type 0
Act T A = World T → Outcome A × World T

module _ {T A : Type 0} where
  unfoldable pub pure : A → Act T A
  pure a w = (done a, w)

  unfoldable pub raise : String → Act T A
  raise e w = (raised e, w)

  unfoldable pub gets : (World T → A) → Act T A
  gets f w = (done (f w), w)

  unfoldable pub lift : Outcome A → Act T A
  lift o w = (o, w)

  -- an awaited call of the backend
  unfoldable pub await : (T → Outcome A × T) → Act T A
  await call w = let (o, t) = call w.outside in (o, record w { outside = t })

  -- a draw of the random generator
  unfoldable pub draw : (T → A × T) → Act T A
  draw call w = let (a, t) = call w.outside in (done a, record w { outside = t })

module _ {T : Type 0} where
  unfoldable pub modify_ctx : (Ctx → Ctx) → Act T (Unit {0})
  modify_ctx f w = (done tt, record w { ctx = f w.ctx })

module _ {T A B : Type 0} where
  abbrev pub continue : Outcome A → (A → Act T B) → Act T B
  continue (done a) f w = f a w
  continue timed_out f w = (timed_out, w)
  continue (raised e) f w = (raised e, w)
  continue cancelled f w = (cancelled, w)

  infixl 10 ◌>>=◌ ◌>>◌
  unfoldable pub ◌>>=◌ : Act T A → (A → Act T B) → Act T B
  unfolding pure raise gets lift await draw modify_ctx
  ◌>>=◌ m f w = let (o, w') = m w in continue o f w'

  abbrev pub ◌>>◌ : Act T A → Act T B → Act T B
  m >> n = m >>= λ _. n

module _ {T : Type 0} (b : Backend T) where
  -- after the commit: the row is there, then the bus is told
  abbrev pub written : RunEvent → Outcome (Unit {0}) → Act T (Unit {0})
  written e (done u) w =
      (done tt, record w { events = w.events ++ e ∷ []; published = w.published ++ e ∷ [] })
  written e timed_out w = (timed_out, w)
  written e (raised x) w = (raised x, w)
  written e cancelled w = (cancelled, w)

  -- `EventWriter.write_event`
  unfoldable pub write_event : RunEvent → Act T (Unit {0})
  write_event e w = let (o, t) = b.commit w.outside in written e o (record w { outside = t })

  -- `ActionContext.emit`: the number is taken before anything is written
  unfoldable pub emit : EventLevel → EventBody → Act T (Unit {0})
  unfolding write_event
  emit level body w =
      write_event (record { seq = w.ctx.next_seq; level = level; body = body })
        (record w { ctx = record w.ctx { next_seq = w.ctx.next_seq + 1 } })
