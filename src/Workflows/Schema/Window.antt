-- ===== src/Workflows/Schema/Window.antt =====
-- `parse_window` and `TimeWindowTrigger._validate` of tg_conductor/workflows/schema.py, over the code
-- points of the text; digits are the ASCII ones. `none` is the `ValueError`.
use mathlib.Core.List.{reverse}
use Prim.Native.Char.{code}
use tg_conductor.Base.{
  ℕ, ◌+◌, ◌-◌, ◌*◌, ◌≤◌, String, Bool, ◌&&◌, ◌||◌, Option, none, some, List, [], ◌∷◌, ltb, leb,
  ◌==◌, if◌then◌else◌,
}
use tg_conductor.Workflows.Schema.{is_space}

abbrev pub codes : String → List ℕ
codes String.[] = []
codes (String.◌∷◌ c s) = code c ∷ codes s

abbrev pub is_digit : ℕ → Bool
is_digit c = leb 48 c && leb c 57

unfoldable pub lstrip : List ℕ → List ℕ
unfolding is_space
lstrip [] = []
lstrip (c ∷ cs) = if is_space c then lstrip cs else c ∷ cs

-- `str.strip`
unfoldable pub strip : List ℕ → List ℕ
unfolding lstrip
strip cs = reverse (lstrip (reverse (lstrip cs)))

pub record Window : Type 0 where
  pub start_h : ℕ
  pub start_m : ℕ
  pub end_h : ℕ
  pub end_m : ℕ

abbrev pub two_digits : ℕ → ℕ → ℕ
two_digits a b = (a - 48) * 10 + (b - 48)

-- the pattern `^(\d{2}):(\d{2})-(\d{2}):(\d{2})$`
unfoldable pub match_window : List ℕ → Option Window
match_window (a ∷ b ∷ c ∷ d ∷ e ∷ f ∷ g ∷ h ∷ i ∷ j ∷ k ∷ []) =
    if is_digit a
      && is_digit b
      && c == b':'
      && is_digit d
      && is_digit e
      && f == b'-'
      && is_digit g
      && is_digit h
      && i == b':'
      && is_digit j
      && is_digit k
    then some (record {
      start_h = two_digits a b;
      start_m = two_digits d e;
      end_h = two_digits g h;
      end_m = two_digits j k;
    })
    else none
match_window _ = none

abbrev pub in_range : Window → Bool
in_range w = leb w.start_h 23 && leb w.start_m 59 && leb w.end_h 23 && leb w.end_m 59

abbrev pub checked : Option Window → Option Window
checked none = none
checked (some w) = if in_range w then some w else none

unfoldable pub parse_window : List ℕ → Option Window
unfolding strip match_window
parse_window cs = checked (match_window (strip cs))

-- `(end_h, end_m) <= (start_h, start_m)`, as tuples
unfoldable pub ends_before : Window → Bool
ends_before w = ltb w.end_h w.start_h || (w.end_h == w.start_h && leb w.end_m w.start_m)

abbrev pub minute_of_day : ℕ → ℕ → ℕ
minute_of_day h m = h * 60 + m

record InDay (w : Window) : Type 0 where
  start_hour : w.start_h ≤ 23
  start_minute : w.start_m ≤ 59
  end_hour : w.end_h ≤ 23
  end_minute : w.end_m ≤ 59
