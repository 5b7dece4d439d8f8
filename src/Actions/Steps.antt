-- ===== src/Actions/Steps.antt =====
-- tg_conductor/actions/send_text.py, send_dice.py, forward.py, click_button.py, wait_for.py and
-- ai_reply.py: what each action does to the world.
pub mod Keeps
use tg_conductor.Base.{
  ℕ, zero, suc, min, String, Bool, true, false, Option, none, some, List, [], ◌∷◌, str_eq,
  if◌then◌else◌, length, sort_by,
}
use tg_conductor.TgCore.Protocol.{Message, ButtonSpec}
use tg_conductor.Triggers.MessageMatch.{wait_predicate}
use tg_conductor.Workflows.Schema.{
  Count, exactly, between, SendTextStep, SendDiceStep, ForwardStep, ClickButtonMatch,
  ClickButtonStep, WaitForStep, AiReplyStep, ChatId, Action, send_text, send_dice, forward,
  click_button, wait_for, ai_reply,
}
use tg_conductor.Actions.Extras.{Extra, label, message, get}
use tg_conductor.Actions.World.{
  Outcome, sent_text, sent_dice, forwarded, clicked_button, waited_for, ai_replied, info, Ctx,
  World, Backend, Act, pure, raise, gets, lift, await, draw, modify_ctx, ◌>>=◌, ◌>>◌, emit,
}

abbrev nth : List String → ℕ → Option String
nth [] i = none
nth (x ∷ xs) zero = some x
nth (x ∷ xs) (suc i) = nth xs i

-- `[pool[i] for i in indices]`; `sample` gives indices of the pool
unfoldable pub pick : List String → List ℕ → List String
pick pool [] = []
pick pool (i ∷ is) = elim (nth pool i) [ none ↦ pick pool is | some t ↦ t ∷ pick pool is ]

-- the message that a step refers to: a label under that key has no `chat_id`
abbrev pub as_message : Option Extra → Outcome (Option Message)
as_message none = Outcome.done none
as_message (some (label s)) = Outcome.raised "AttributeError"
as_message (some (message m)) = Outcome.done (some m)

abbrev pub refer : String → Ctx → Outcome (Option Message)
refer name ctx =
    if str_eq name "last_matched"
    then Outcome.done ctx.last_matched_message
    else as_message (get name ctx.extras)

abbrev wants_text : Option String → String → Bool
wants_text none t = false
wants_text (some want) t = str_eq t want

abbrev finds : (String → String → Bool) → Option String → String → Bool
finds search none t = false
finds search (some pattern) t = search pattern t

module _ (search : String → String → Bool) (m : ClickButtonMatch) where
  -- `_find_matching_button`, one row and then the rows
  unfoldable pub find_in_row : List ButtonSpec → Option ButtonSpec
  find_in_row [] = none
  find_in_row (btn ∷ row) =
      let rest = find_in_row row in
      if wants_text m.text btn.text
      then some btn
      else if finds search m.text_regex btn.text
      then some btn
      else rest

  unfoldable pub find_matching_button : List (List ButtonSpec) → Option ButtonSpec
  unfolding find_in_row
  find_matching_button [] = none
  find_matching_button (row ∷ rows) =
      let rest = find_matching_button rows in
      elim (find_in_row row) [ none ↦ rest | some btn ↦ some btn ]

abbrev the_buttons : Option (List (List ButtonSpec)) → List (List ButtonSpec)
the_buttons none = []
the_buttons (some rows) = rows

module _ {T : Type 0} (b : Backend T) where
  abbrev the_message : String → Option Message → Act T Message
  the_message e none = raise e
  the_message e (some m) = pure m

  unfoldable pub resolve : String → String → Act T Message
  resolve e name = do
    ctx ← gets (λ (w : World T). w.ctx)
    found ← lift (refer name ctx)
    the_message e found

  -- `for text in texts: ...`, and the ids of the sent messages
  unfoldable pub send_all : ChatId → List String → Act T (List ℕ)
  send_all chat_id [] = pure []
  send_all chat_id (text ∷ texts) = do
    msg ← await (b.send_text chat_id text)
    ids ← send_all chat_id texts
    pure (msg.id ∷ ids)

  -- `_sample_pick_n`
  unfoldable pub sample_pick_n : Option Count → Act T ℕ
  sample_pick_n none = pure 1
  sample_pick_n (some (exactly n)) = pure n
  sample_pick_n (some (between r)) = draw (b.randint r.min r.max)

  abbrev order : Bool → List ℕ → Act T (List ℕ)
  order true indices = draw (b.shuffle indices)
  order false indices = pure (sort_by (λ (i : ℕ). i) indices)

  -- `_resolve_texts`; a step with neither text nor pool fails the `assert`
  unfoldable pub resolve_texts :
      SendTextStep → Option (List String) → Option String → Act T (List String)
  unfolding sample_pick_n pick
  resolve_texts step none none = raise "AssertionError"
  resolve_texts step none (some text) = pure (text ∷ [])
  resolve_texts step (some pool) text = do
    n ← sample_pick_n step.pick_n
    sampled ← draw (b.sample (length pool) (min n (length pool)))
    indices ← order step.shuffle sampled
    pure (pick pool indices)

  abbrev index : Act T ℕ
  index = gets (λ (w : World T). w.ctx.step_index)

  unfoldable pub run_send_text : SendTextStep → Act T (Unit {0})
  unfolding resolve_texts send_all
  run_send_text step = do
    texts ← resolve_texts step step.text_pool step.text
    ids ← send_all step.chat_id texts
    i ← index
    emit b info (sent_text i texts ids)

  unfoldable pub run_send_dice : SendDiceStep → Act T (Unit {0})
  run_send_dice step = do
    msg ← await (b.send_dice step.chat_id step.emoji)
    i ← index
    emit b info (sent_dice i msg.id)

  unfoldable pub run_forward : ForwardStep → Act T (Unit {0})
  unfolding resolve
  run_forward step = do
    source ← resolve "ValueError" step.source
    msg ← await (b.forward source.chat_id source.id step.to_chat_id)
    i ← index
    emit b info (forwarded i source.id msg.id)

  abbrev click : Message → Option ButtonSpec → Act T (Unit {0})
  click target none = raise "ValueError"
  click target (some btn) = do
    await (b.click_button target.chat_id target.id btn.text)
    i ← index
    emit b info (clicked_button i btn.text)

  abbrev click_among : ClickButtonMatch → Message → List (List ButtonSpec) → Act T (Unit {0})
  click_among m target [] = raise "ValueError"
  click_among m target (row ∷ rows) = click target (find_matching_button b.search m (row ∷ rows))

  abbrev unless_image : Option String → Act T (Unit {0}) → Act T (Unit {0})
  unless_image none rest = rest
  unless_image (some prompt) rest = raise "NotImplementedError"

  unfoldable pub run_click_button : ClickButtonStep → Act T (Unit {0})
  unfolding resolve find_matching_button
  run_click_button step = do
    target ← resolve "ValueError" step.target
    unless_image step.match.ai_image_prompt
        (click_among step.match target (the_buttons target.buttons))

  unfoldable pub run_wait_for : WaitForStep → ℕ → Act T (Unit {0})
  unfolding wait_predicate
  run_wait_for step timeout = do
    matched ← await (b.wait_for step.chat_id (wait_predicate b.search step) timeout)
    modify_ctx (λ ctx. record ctx { last_matched_message = some matched })
    i ← index
    emit b info (waited_for i matched.id)

  abbrev text_or_empty : Option String → String
  text_or_empty none = ""
  text_or_empty (some t) = t

  abbrev source_of : Option Message → Act T Message
  source_of none = raise "ValueError"
  source_of (some m) = pure m

  -- the model of the settings stands in where the step names none; that choice is the backend's
  unfoldable pub run_ai_reply : AiReplyStep → Act T (Unit {0})
  run_ai_reply step = do
    ctx ← gets (λ (w : World T). w.ctx)
    source ← source_of ctx.last_matched_message
    prompt ← lift (b.format step.prompt_template (text_or_empty source.text) ctx.extras)
    response ← await (b.chat prompt step.model step.max_tokens)
    sent ← await (b.send_text step.to_chat_id response.text)
    emit b info (ai_replied ctx.step_index response sent.id)

  -- `_DISPATCH` and `_run_step`
  unfoldable pub run_action : ℕ → Action → Act T (Unit {0})
  unfolding run_send_text run_send_dice run_forward run_click_button run_wait_for run_ai_reply
  run_action timeout (send_text s) = run_send_text s
  run_action timeout (send_dice s) = run_send_dice s
  run_action timeout (forward s) = run_forward s
  run_action timeout (click_button s) = run_click_button s
  run_action timeout (wait_for s) = run_wait_for s timeout
  run_action timeout (ai_reply s) = run_ai_reply s
