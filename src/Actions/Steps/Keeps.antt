-- ===== src/Actions/Steps/Keeps.antt =====
-- What the actions of tg_conductor/actions keep.
use tg_conductor.Base.{ℕ, String, refl, Bool, true, false, Option, none, some, List, [], ◌∷◌}
use tg_conductor.TgCore.Protocol.{Message, ButtonSpec}
use tg_conductor.Workflows.Schema.{
  Count, exactly, between, SendTextStep, SendDiceStep, ForwardStep, ClickButtonMatch,
  ClickButtonStep, WaitForStep, AiReplyStep, ChatId, Action, send_text, send_dice, forward,
  click_button, wait_for, ai_reply,
}
use tg_conductor.Actions.World.{info, World, Backend, Act}
use tg_conductor.Actions.World.Keeps.{
  IsClosed, Keeps, pure-Keeps, raise-Keeps, gets-Keeps, lift-Keeps, await-Keeps, draw-Keeps,
  modify_ctx-Keeps, emit-Keeps, bind-Keeps,
}
use tg_conductor.Actions.Steps.{
  find_matching_button, the_buttons, the_message, resolve, send_all, sample_pick_n, order,
  resolve_texts, run_send_text, run_send_dice, run_forward, click, click_among, unless_image,
  run_click_button, run_wait_for, source_of, run_ai_reply, run_action,
}

module _ {T : Type 0} (b : Backend T) (R : World T → World T → Type 0) (c : IsClosed b R) where
  the_message-Keeps : (e : String) (o : Option Message) → Keeps R (the_message b e o)
  the_message-Keeps e none = raise-Keeps b R c Message e
  the_message-Keeps e (some m) = pure-Keeps b R c m

  resolve-Keeps : (e name : String) → Keeps R (resolve b e name)
  unfolding resolve
  resolve-Keeps e name =
      bind-Keeps b R c _ _ (gets-Keeps b R c _)
        (λ ctx. bind-Keeps b R c _ _ (lift-Keeps b R c _) (λ found. the_message-Keeps e found))

  send_all-Keeps : (chat_id : ChatId) (texts : List String) → Keeps R (send_all b chat_id texts)
  unfolding send_all
  send_all-Keeps chat_id [] = pure-Keeps b R c []
  send_all-Keeps chat_id (t ∷ texts) =
      bind-Keeps b R c _ _ (await-Keeps b R c _)
        (λ msg. bind-Keeps b R c _ _ (send_all-Keeps chat_id texts) (λ ids. pure-Keeps b R c _))

  sample_pick_n-Keeps : (n : Option Count) → Keeps R (sample_pick_n b n)
  unfolding sample_pick_n
  sample_pick_n-Keeps none = pure-Keeps b R c 1
  sample_pick_n-Keeps (some (exactly n)) = pure-Keeps b R c n
  sample_pick_n-Keeps (some (between r)) = draw-Keeps b R c _

  order-Keeps : (shuffle : Bool) (indices : List ℕ) → Keeps R (order b shuffle indices)
  order-Keeps true indices = draw-Keeps b R c _
  order-Keeps false indices = pure-Keeps b R c _

  resolve_texts-Keeps :
      (step : SendTextStep) (pool : Option (List String)) (text : Option String)
      → Keeps R (resolve_texts b step pool text)
  unfolding resolve_texts
  resolve_texts-Keeps step none none = raise-Keeps b R c (List String) _
  resolve_texts-Keeps step none (some text) = pure-Keeps b R c _
  resolve_texts-Keeps step (some pool) text =
      bind-Keeps b R c _ _ (sample_pick_n-Keeps step.pick_n) (λ n.
        bind-Keeps b R c _ _ (draw-Keeps b R c _) (λ sampled.
          bind-Keeps b R c _ _ (order-Keeps step.shuffle sampled) (λ indices. pure-Keeps b R c _)))

  run_send_text-Keeps : (step : SendTextStep) → Keeps R (run_send_text b step)
  unfolding run_send_text
  run_send_text-Keeps step =
      bind-Keeps b R c _ _ (resolve_texts-Keeps step step.text_pool step.text) (λ texts.
        bind-Keeps b R c _ _ (send_all-Keeps step.chat_id texts)
          (λ ids. bind-Keeps b R c _ _ (gets-Keeps b R c _) (λ i. emit-Keeps b R c info _ refl)))

  run_send_dice-Keeps : (step : SendDiceStep) → Keeps R (run_send_dice b step)
  unfolding run_send_dice
  run_send_dice-Keeps step =
      bind-Keeps b R c _ _ (await-Keeps b R c _)
        (λ msg. bind-Keeps b R c _ _ (gets-Keeps b R c _) (λ i. emit-Keeps b R c info _ refl))

  run_forward-Keeps : (step : ForwardStep) → Keeps R (run_forward b step)
  unfolding run_forward
  run_forward-Keeps step = bind-Keeps b R c _ _ (resolve-Keeps _ step.source) (λ source.
      bind-Keeps b R c _ _ (await-Keeps b R c _)
        (λ msg. bind-Keeps b R c _ _ (gets-Keeps b R c _) (λ i. emit-Keeps b R c info _ refl)))

  click-Keeps : (target : Message) (btn : Option ButtonSpec) → Keeps R (click b target btn)
  click-Keeps target none = raise-Keeps b R c (Unit {0}) _
  click-Keeps target (some btn) =
      bind-Keeps b R c _ _ (await-Keeps b R c _)
        (λ u. bind-Keeps b R c _ _ (gets-Keeps b R c _) (λ i. emit-Keeps b R c info _ refl))

  click_among-Keeps :
      (m : ClickButtonMatch) (target : Message) (rows : List (List ButtonSpec))
      → Keeps R (click_among b m target rows)
  click_among-Keeps m target [] = raise-Keeps b R c (Unit {0}) _
  click_among-Keeps m target (row ∷ rows) =
      click-Keeps target (find_matching_button b.search m (row ∷ rows))

  unless_image-Keeps :
      (o : Option String) (rest : Act T (Unit {0})) → Keeps R rest → Keeps R (unless_image b o rest)
  unless_image-Keeps none rest h = h
  unless_image-Keeps (some p) rest h = raise-Keeps b R c (Unit {0}) _

  run_click_button-Keeps : (step : ClickButtonStep) → Keeps R (run_click_button b step)
  unfolding run_click_button
  run_click_button-Keeps step = bind-Keeps b R c _ _ (resolve-Keeps _ step.target) (λ target.
      unless_image-Keeps step.match.ai_image_prompt _
        (click_among-Keeps step.match target (the_buttons target.buttons)))

  run_wait_for-Keeps : (step : WaitForStep) (timeout : ℕ) → Keeps R (run_wait_for b step timeout)
  unfolding run_wait_for
  run_wait_for-Keeps step timeout = bind-Keeps b R c _ _ (await-Keeps b R c _) (λ matched.
      bind-Keeps b R c _ _ (modify_ctx-Keeps b R c _ (λ x. refl))
        (λ u. bind-Keeps b R c _ _ (gets-Keeps b R c _) (λ i. emit-Keeps b R c info _ refl)))

  source_of-Keeps : (o : Option Message) → Keeps R (source_of b o)
  source_of-Keeps none = raise-Keeps b R c Message _
  source_of-Keeps (some m) = pure-Keeps b R c m

  run_ai_reply-Keeps : (step : AiReplyStep) → Keeps R (run_ai_reply b step)
  unfolding run_ai_reply
  run_ai_reply-Keeps step = bind-Keeps b R c _ _ (gets-Keeps b R c _) (λ ctx.
      bind-Keeps b R c _ _ (source_of-Keeps ctx.last_matched_message) (λ source.
        bind-Keeps b R c _ _ (lift-Keeps b R c _) (λ prompt.
          bind-Keeps b R c _ _ (await-Keeps b R c _) (λ response.
            bind-Keeps b R c _ _ (await-Keeps b R c _) (λ sent. emit-Keeps b R c info _ refl)))))

  -- Whatever the step, running it keeps the relation.
  pub run_action-Keeps : (timeout : ℕ) (action : Action) → Keeps R (run_action b timeout action)
  unfolding run_action
  run_action-Keeps timeout (send_text s) = run_send_text-Keeps s
  run_action-Keeps timeout (send_dice s) = run_send_dice-Keeps s
  run_action-Keeps timeout (forward s) = run_forward-Keeps s
  run_action-Keeps timeout (click_button s) = run_click_button-Keeps s
  run_action-Keeps timeout (wait_for s) = run_wait_for-Keeps s timeout
  run_action-Keeps timeout (ai_reply s) = run_ai_reply-Keeps s
