-- ===== src/Triggers/Duration.antt =====
-- `parse_duration` of tg_conductor/triggers/duration.py, over code points: a scanner for
-- `findall` of `(\d+)\s*([smh])`. The result is in seconds; `none` is the `ValueError`.
use tg_conductor.Base.{ℕ, ◌+◌, ◌-◌, ◌*◌, Option, none, some, List, [], ◌∷◌, ◌==◌, if◌then◌else◌}
use tg_conductor.Workflows.Schema.{is_space}
use tg_conductor.Workflows.Schema.Window.{is_digit}

-- where a match may be: at no number, after the digits of one, after spaces behind them
pub data Scan : Type 0 where
  idle : Scan
  number : ℕ → Scan
  spaces : ℕ → Scan

abbrev pub add_digit : ℕ → Scan → Scan
add_digit d (number n) = number (n * 10 + d)
add_digit d _ = number d

abbrev pub add_space : Scan → Scan
add_space (number n) = spaces n
add_space (spaces n) = spaces n
add_space idle = idle

-- the value of a token that a unit completes
abbrev pub taken : Scan → Option ℕ
taken idle = none
taken (number n) = some n
taken (spaces n) = some n

unfoldable pub unit_seconds : ℕ → Option ℕ
unit_seconds c =
    if c == b's'
    then some 1
    else if c == b'm'
    then some 60
    else if c == b'h'
    then some 3600
    else none

abbrev pub next_scan : ℕ → Scan → Scan
next_scan c s =
    if is_digit c then add_digit (c - 48) s else if is_space c then add_space s else idle

abbrev pub token : Option ℕ → Option ℕ → Option ℕ
token none n = none
token (some u) none = none
token (some u) (some n) = some (n * u)

-- the tokens in seconds
unfoldable pub find_tokens : Scan → List ℕ → List ℕ
unfolding unit_seconds is_space
find_tokens s [] = []
find_tokens s (c ∷ cs) =
    let rest = find_tokens (next_scan c s) cs in
    elim (token (unit_seconds c) (taken s)) [ none ↦ rest | some t ↦ t ∷ rest ]

unfoldable pub sum : List ℕ → ℕ
sum [] = 0
sum (x ∷ xs) = x + sum xs

unfoldable pub parse_duration : List ℕ → Option ℕ
unfolding find_tokens sum
parse_duration text =
    let total = sum (find_tokens idle text) in if total == 0 then none else some total
