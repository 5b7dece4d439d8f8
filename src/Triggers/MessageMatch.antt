-- ===== src/Triggers/MessageMatch.antt =====
-- `matches` of tg_conductor/triggers/message_match.py, and the predicate of actions/wait_for.py.
-- `search pattern text` is whether `re.search` finds a match.
use tg_conductor.Base.{
  String, ◌≡◌, refl, sym, ◌↔◌, Bool, true, false, not, Option, none, some, arith, if◌then◌else◌,
}
use tg_conductor.Base.Int.{ℤ, int_eq, int_eq_iff}
use tg_conductor.TgCore.Protocol.{Message}
use tg_conductor.Workflows.Schema.{MessageMatchTrigger, WaitForStep}

-- a wanted id against one that the message may lack
abbrev pub id_differs : ℤ → Option ℤ → Bool
id_differs want none = true
id_differs want (some have) = not (int_eq want have)

abbrev pub wanted_differs : Option ℤ → Option ℤ → Bool
wanted_differs none have = false
wanted_differs (some want) have = id_differs want have

module _ (search : String → String → Bool) where
  abbrev pub text_fails : Option String → Option String → Bool
  text_fails none text = false
  text_fails (some pattern) none = true
  text_fails (some pattern) (some text) = not (search pattern text)

  unfoldable pub matches : MessageMatchTrigger → Message → Bool
  matches trigger message =
      if not (int_eq trigger.chat_id message.chat_id)
      then false
      else if wanted_differs trigger.topic_id message.topic_id
      then false
      else if wanted_differs trigger.from_user_id message.from_user_id
      then false
      else if text_fails trigger.text_pattern message.text
      then false
      else true

  -- `predicate` of `wait_for`
  unfoldable pub wait_predicate : WaitForStep → Message → Bool
  wait_predicate step msg =
      if text_fails step.text_pattern msg.text
      then false
      else if wanted_differs step.from_user_id msg.from_user_id
      then false
      else if wanted_differs step.topic_id msg.topic_id
      then false
      else true

  -- A condition that is given asks the message for that very value.
  abbrev pub Asks : Option ℤ → Option ℤ → Type 0
  Asks none have = Unit
  Asks (some want) have = have ≡ some want

  abbrev pub Contains : Option String → Option String → Type 0
  Contains none text = Unit
  Contains (some pattern) none = ⊥
  Contains (some pattern) (some text) = search pattern text ≡ true

  pub record IsMatch (trigger : MessageMatchTrigger) (message : Message) : Type 0 where
    pub chat : message.chat_id ≡ trigger.chat_id
    pub topic : Asks trigger.topic_id message.topic_id
    pub sender : Asks trigger.from_user_id message.from_user_id
    pub text : Contains trigger.text_pattern message.text

  Asks-iff : (want have : Option ℤ) → (wanted_differs want have ≡ false) ↔ Asks want have
  Asks-iff none have = (λ _. tt, λ _. refl)
  Asks-iff (some w) none = ((λ h. cc), λ h. cc)
  Asks-iff (some w) (some h) =
      ((λ e. ground (arith, (int_eq_iff w h).0)), λ e. ground (arith, (int_eq_iff w h).1))

  Contains-iff :
      (pattern text : Option String) → (text_fails pattern text ≡ false) ↔ Contains pattern text
  Contains-iff none text = (λ _. tt, λ _. refl)
  Contains-iff (some p) none = ((λ h. cc), λ h. absurd h)
  Contains-iff (some p) (some t) = ((λ h. ground arith), λ h. ground arith)

  -- A message matches exactly when the chat is the trigger's and every condition that the trigger
  -- gives is met; a field that the message lacks meets none.
  pub matches_iff :
      (trigger : MessageMatchTrigger) (message : Message)
      → (matches trigger message ≡ true) ↔ IsMatch trigger message
  unfolding matches
  matches_iff t m = (
    λ h. record {
      chat = sym ((int_eq_iff t.chat_id m.chat_id).0 (ground arith));
      topic = (Asks-iff t.topic_id m.topic_id).0 (ground arith);
      sender = (Asks-iff t.from_user_id m.from_user_id).0 (ground arith);
      text = (Contains-iff t.text_pattern m.text).0 (ground arith);
    },
    λ v. ground (
      arith,
      (int_eq_iff t.chat_id m.chat_id).1 (sym v.chat),
      (Asks-iff t.topic_id m.topic_id).1 v.topic,
      (Asks-iff t.from_user_id m.from_user_id).1 v.sender,
      (Contains-iff t.text_pattern m.text).1 v.text,
    ),
  )
