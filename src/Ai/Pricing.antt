-- ===== src/Ai/Pricing.antt =====
-- tg_conductor/ai/pricing.py: what a call costs. A price is a `float`, and its product with a number of
-- tokens, rounded up, is a parameter.
use tg_conductor.Base.{
  ℕ, ◌+◌, String, Bool, false, ◌||◌, Option, none, some, List, [], ◌∷◌, ◌++◌, str_eq, if◌then◌else◌,
}

module _ (Float : Type 0) (ceil_product : ℕ → Float → ℕ) where
  pub record ModelPrice : Type 0 where
    pub input_per_1m_yuan : Float
    pub output_per_1m_yuan : Float

  -- `logged` are the models that the log warned of, in order
  pub record PricingTable : Type 0 where
    pub models : List (String × ModelPrice)
    pub warned : List String
    pub logged : List String

  unfoldable pub price_of : String → List (String × ModelPrice) → Option ModelPrice
  price_of model [] = none
  price_of model ((name, price) ∷ ms) =
      let rest = price_of model ms in if str_eq name model then some price else rest

  abbrev pub is_warned : String → List String → Bool
  is_warned model [] = false
  is_warned model (m ∷ ms) = str_eq m model || is_warned model ms

  abbrev pub warn_once : String → PricingTable → PricingTable
  warn_once model t =
      if is_warned model t.warned
      then t
      else record t { warned = model ∷ t.warned; logged = t.logged ++ model ∷ [] }

  unfoldable pub cost_micros : String → ℕ → ℕ → PricingTable → ℕ × PricingTable
  unfolding price_of
  cost_micros model prompt_tokens completion_tokens t = elim (price_of model t.models) [
    | none ↦ (0, warn_once model t)
    | some price ↦ (
      ceil_product prompt_tokens price.input_per_1m_yuan
          + ceil_product completion_tokens price.output_per_1m_yuan,
      t,
    )
  ]
