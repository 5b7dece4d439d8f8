-- ===== src/Actions/Extras.antt =====
-- `ActionContext.extras` of tg_conductor/actions/context.py: a `dict` with text keys, in the order of
-- insertion.
use Prim.Native.String.{◌++◌ as str_append}
use tg_conductor.Base.{
  ℕ, zero, suc, ◌/◌, ◌%◌, String, ◌≡◌, refl, Option, none, some, List, [], ◌∷◌, arith, str_eq,
  eq_iff, ltb, ◌==◌, if◌then◌else◌,
}
use tg_conductor.TgCore.Protocol.{Message}

-- a value that the program puts there: a variant's label, or a matched message
pub data Extra : Type 0 where
  label : String → Extra
  message : Message → Extra

abbrev pub Extras : Type 0
Extras = List (String × Extra)

-- `extras.get(key)`
unfoldable pub get : String → Extras → Option Extra
get key [] = none
get key ((k, v) ∷ rest) = if str_eq k key then some v else get key rest

-- `extras[key] = value`
unfoldable pub put : String → Extra → Extras → Extras
put key v [] = (key, v) ∷ []
put key v ((k, w) ∷ rest) = if str_eq k key then (k, v) ∷ rest else (k, w) ∷ put key v rest

pub get-put :
    (key other : String) (v : Extra) (extras : Extras)
    → get other (put key v extras) ≡ (if str_eq key other then some v else get other extras)
unfolding get put
get-put key other v [] = refl
get-put key other v ((k, w) ∷ rest) =
    ground (arith, eq_iff key other, eq_iff k key, eq_iff k other, get-put key other v rest)

abbrev digit_text : ℕ → String
digit_text d =
    if d == 0
    then "0"
    else if d == 1
    then "1"
    else if d == 2
    then "2"
    else if d == 3
    then "3"
    else if d == 4
    then "4"
    else if d == 5
    then "5"
    else if d == 6
    then "6"
    else if d == 7
    then "7"
    else if d == 8
    then "8"
    else "9"

unfoldable pub decimal_fuel : ℕ → ℕ → String
decimal_fuel zero n = ""
decimal_fuel (suc fuel) n =
    let rest = decimal_fuel fuel (n / 10) in
    if ltb n 10 then digit_text n else str_append rest (digit_text (n % 10))

-- `str(n)`: a number has fewer digits than it counts
unfoldable pub decimal : ℕ → String
unfolding decimal_fuel
decimal n = decimal_fuel (suc n) n

-- `f"wait_for_step_{idx}"` and `f"variant_{index}"`
unfoldable pub step_key : ℕ → String
unfolding decimal
step_key idx = str_append "wait_for_step_" (decimal idx)

unfoldable pub variant_key : ℕ → String
unfolding decimal
variant_key index = str_append "variant_" (decimal index)
