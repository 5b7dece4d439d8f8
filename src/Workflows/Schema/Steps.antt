-- ===== src/Workflows/Schema/Steps.antt =====
-- The validators of the step, range and trigger classes in tg_conductor/workflows/schema.py. The
-- engines behind `re.compile` and `croniter.is_valid` are arguments.
use tg_conductor.Base.{
  ℕ, ◌+◌, ◌≤◌, ◌<◌, String, ◌≡◌, refl, ◌↔◌, Bool, true, false, not, ◌&&◌, ◌||◌, Option, none, some,
  List, [], ◌∷◌, arith, str_eq, ltb, lt→ltb, ◌==◌, if◌then◌else◌, is_some, length,
}
use tg_conductor.Base.Result.{Result, ok, err, ◌>>◌, raise_if}
use tg_conductor.Workflows.Schema.{
  CountRange, Count, exactly, between, DelayRange, SendTextStep, SendDiceStep, ForwardStep,
  ClickButtonMatch, WaitForStep, AiReplyStep, Variant, Workflow, is_blank, is_blank_id,
}
use tg_conductor.Workflows.Schema.Plan.{is_empty}

pub data StepError : Type 0 where
  bad_range empty_chat_id text_and_pool no_text pick_n_missing pick_n_too_large : StepError
  bad_emoji match_count bad_regex empty_prompt empty_variant empty_name : StepError
  not_positive : StepError

-- `CountRange._check_order`
unfoldable pub validate_count_range : CountRange → Result StepError (Unit {0})
validate_count_range r = raise_if (ltb r.max r.min) bad_range

-- `DelayRange._check_order`
unfoldable pub validate_delay_range : DelayRange → Result StepError (Unit {0})
validate_delay_range r = raise_if (ltb r.max r.min) bad_range

abbrev pub pool_of : Option (List String) → List String
pool_of none = []
pool_of (some pool) = pool

-- the largest number of texts that `pick_n` may ask for
unfoldable pub max_pick : Count → ℕ
max_pick (exactly n) = n
max_pick (between r) = r.max

unfoldable pub check_pick_n : Option Count → ℕ → Result StepError (Unit {0})
unfolding max_pick
check_pick_n none pool_size = err pick_n_missing
check_pick_n (some n) pool_size = raise_if (ltb pool_size (max_pick n)) pick_n_too_large

-- `SendTextStep._check_payload`, past the chat id, with the texts of the pool
unfoldable pub check_payload : SendTextStep → List String → Result StepError (Unit {0})
unfolding check_pick_n
check_payload s pool =
    let has_text = is_some s.text in
    let has_pool = not (is_empty pool) in
    do
      raise_if (has_text && has_pool) text_and_pool
      raise_if (not has_text && not has_pool) no_text
      if has_pool then check_pick_n s.pick_n (length pool) else ok tt

-- `Field(default=None, gt=0)`
abbrev pub is_positive : Option ℕ → Bool
is_positive none = true
is_positive (some n) = ltb 0 n

unfoldable pub validate_send_text : SendTextStep → Result StepError (Unit {0})
unfolding check_payload
validate_send_text s = do
  raise_if (not (is_positive s.delete_after)) not_positive
  raise_if (is_blank_id s.chat_id) empty_chat_id
  check_payload s (pool_of s.text_pool)

abbrev pub allowed_dice_emoji : List String
allowed_dice_emoji = "🎲" ∷ "🎯" ∷ "🏀" ∷ "⚽" ∷ "🎳" ∷ "🎰" ∷ []

unfoldable pub contains : List String → String → Bool
contains [] s = false
contains (x ∷ xs) s = str_eq s x || contains xs s

-- `SendDiceStep._validate`
unfoldable pub validate_send_dice : SendDiceStep → Result StepError (Unit {0})
unfolding contains
validate_send_dice s = do
  raise_if (not (is_positive s.delete_after)) not_positive
  raise_if (not (contains allowed_dice_emoji s.emoji)) bad_emoji
  raise_if (is_blank_id s.chat_id) empty_chat_id

-- `ForwardStep._validate`
unfoldable pub validate_forward : ForwardStep → Result StepError (Unit {0})
validate_forward s = raise_if (is_blank_id s.to_chat_id) empty_chat_id

abbrev pub count_some : Bool → ℕ
count_some true = 1
count_some false = 0

-- how many of the three ways to match are given
unfoldable pub provided : ClickButtonMatch → ℕ
provided m =
    count_some (is_some m.text)
    + count_some (is_some m.text_regex)
    + count_some (is_some m.ai_image_prompt)

module _ (compiles : String → Bool) where
  -- `re.compile` of an optional pattern
  unfoldable pub check_regex : Option String → Result StepError (Unit {0})
  check_regex none = ok tt
  check_regex (some pattern) = raise_if (not (compiles pattern)) bad_regex

  -- `ClickButtonMatch._exactly_one`
  unfoldable pub validate_match : ClickButtonMatch → Result StepError (Unit {0})
  unfolding check_regex
  validate_match m = do raise_if (not (provided m == 1)) match_count; check_regex m.text_regex

  -- `WaitForStep._validate`
  unfoldable pub validate_wait_for : WaitForStep → Result StepError (Unit {0})
  unfolding check_regex
  validate_wait_for s = do
    raise_if (is_blank_id s.chat_id) empty_chat_id
    check_regex s.text_pattern

-- `AIReplyStep._validate`
unfoldable pub validate_ai_reply : AiReplyStep → Result StepError (Unit {0})
validate_ai_reply s = do
  raise_if (not (is_positive s.max_tokens)) not_positive
  raise_if (is_blank_id s.to_chat_id) empty_chat_id
  raise_if (is_blank s.prompt_template) empty_prompt

-- `Variant._non_empty`
unfoldable pub validate_variant : Variant → Result StepError (Unit {0})
validate_variant v = raise_if (is_empty v.steps) empty_variant

-- `Workflow._validate`
unfoldable pub validate_name : Workflow → Result StepError (Unit {0})
validate_name w = raise_if (is_blank w.name) empty_name

-- A pool comes with a `pick_n` that never asks for more texts than it has.
abbrev pub PickFits : Option Count → ℕ → Type 0
PickFits none size = ⊥
PickFits (some n) size = max_pick n ≤ size

abbrev pub PoolFits : SendTextStep → List String → Type 0
PoolFits s [] = Unit
PoolFits s (t ∷ ts) = PickFits s.pick_n (length (t ∷ ts))

pub record IsValidSendText (s : SendTextStep) : Type 0 where
  pub deleted_later : (n : ℕ) → s.delete_after ≡ some n → 0 < n
  pub addressed : is_blank_id s.chat_id ≡ false
  pub one_source : is_some s.text ≡ is_empty (pool_of s.text_pool)
  pub pool_fits : PoolFits s (pool_of s.text_pool)

check_pick_n_iff : (o : Option Count) (size : ℕ) → (check_pick_n o size ≡ ok tt) ↔ PickFits o size
unfolding check_pick_n
check_pick_n_iff none size = (λ h. cc, λ h. absurd h)
check_pick_n_iff (some n) size = (λ h. ground arith, λ h. ground arith)

check_payload_iff :
    (s : SendTextStep) (pool : List String)
    → (check_payload s pool ≡ ok tt) ↔ ((is_some s.text ≡ is_empty pool) × PoolFits s pool)
unfolding check_payload
check_payload_iff s [] = (λ h. (ground arith, tt), λ h. ground (arith, h.0))
check_payload_iff s (t ∷ ts) = (
  λ h. (ground arith, (check_pick_n_iff s.pick_n (length (t ∷ ts))).0 (ground arith)),
  λ h. ground (arith, h.0, (check_pick_n_iff s.pick_n (length (t ∷ ts))).1 h.1),
)

is_positive_iff : (o : Option ℕ) → (is_positive o ≡ true) ↔ ((n : ℕ) → o ≡ some n → 0 < n)
is_positive_iff none = (λ h n e. absurd cc, λ h. refl)
is_positive_iff (some m) = (λ h n e. ground arith, λ h. lt→ltb 0 m (h m refl))

-- The fields of a `send_text` step's own are accepted exactly when `delete_after` is positive if it is
-- given, the chat is not blank, it has a text or a non-empty pool and not both, and a pool comes with
-- a `pick_n` of at most its size.
pub validate_send_text_iff : (s : SendTextStep) → (validate_send_text s ≡ ok tt) ↔ IsValidSendText s
unfolding validate_send_text
validate_send_text_iff s = (
  λ h.
      let payload = (check_payload_iff s (pool_of s.text_pool)).0 (ground arith) in
      record {
        deleted_later = (is_positive_iff s.delete_after).0 (ground arith);
        addressed = ground arith;
        one_source = payload.0;
        pool_fits = payload.1;
      },
  λ v. ground (
    arith,
    (is_positive_iff s.delete_after).1 v.deleted_later,
    v.addressed,
    (check_payload_iff s (pool_of s.text_pool)).1 (v.one_source, v.pool_fits),
  ),
)
