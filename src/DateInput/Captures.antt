-- ===== src/DateInput/Captures.antt =====
-- The two patterns of `parseDate` in files/graph.js. The parts of a pattern are runs of digits between other
-- characters, so that the groups are found run by run.
use istatd.Prelude.{
  ℕ, ◌+◌, ◌-◌, ◌*◌, Bool, ◌&&◌, Option, none, some, [], ◌∷◌, Text, leb, ◌==◌, if◌then◌else◌, ◌>>=◌,
}

pub record Groups : Type 0 where
  pub year : ℕ
  pub month : ℕ
  pub day : ℕ
  pub clock : Option (ℕ × ℕ)

unfoldable pub is_digit : ℕ → Bool
is_digit c = leb 48 c && leb c 57

-- The digits at the start, and what is behind them.
unfoldable pub run : Text → Text × Text
unfolding is_digit
run [] = ([], [])
run (c ∷ s) = let (digits, rest) = run s in if is_digit c then (c ∷ digits, rest) else ([], c ∷ s)

-- " *"
unfoldable pub skip : Text → Text
skip [] = []
skip (c ∷ s) = if c == b' ' then skip s else c ∷ s

unfoldable pub expect : ℕ → Text → Option Text
expect x [] = none
expect x (c ∷ s) = if c == x then some s else none

-- "20[0-9][0-9]"
unfoldable pub year_of : Text → Option ℕ
year_of (a ∷ b ∷ c ∷ d ∷ []) =
    if a == b'2' && b == b'0' then some (2000 + (c - 48) * 10 + (d - 48)) else none
year_of _ = none

-- "0?([1-tens]?[0-9])"
unfoldable pub small_of : (tens : ℕ) → Text → Option ℕ
small_of tens (c ∷ []) = some (c - 48)
small_of tens (t ∷ c ∷ []) = if leb (t - 48) tens then some ((t - 48) * 10 + (c - 48)) else none
small_of tens (z ∷ t ∷ c ∷ []) =
    if z == 48 && leb 49 t && leb (t - 48) tens then some ((t - 48) * 10 + (c - 48)) else none
small_of _ _ = none

-- "[0-tens][0-9]"
unfoldable pub pair_of : (tens : ℕ) → Text → Option ℕ
pair_of tens (t ∷ c ∷ []) = if leb (t - 48) tens then some ((t - 48) * 10 + (c - 48)) else none
pair_of _ _ = none

-- What is behind the day: nothing, or a time behind at least one space.
unfoldable pub clock_of : Text → Option (Option (ℕ × ℕ))
unfolding run skip expect pair_of
clock_of [] = some none
clock_of (c ∷ s) = do
  rest ← expect b' ' (c ∷ s)
  elim (skip rest) [
    | [] ↦ some none
    | x ∷ time ↦ do
      hours ← pair_of 2 (run (x ∷ time)).0
      s ← expect b':' (run (x ∷ time)).1
      minutes ← pair_of 5 (run s).0
      (elim (skip (run s).1) [ [] ↦ some (some (hours, minutes)) | _ ∷ _ ↦ none ])
  ]

-- The rest of the first pattern that matches, from the digits that were read last.
unfoldable pub from_day : (year month : ℕ) → Text × Text → Option Groups
unfolding small_of clock_of
from_day year month (digits, rest) = do
  day ← small_of 3 digits
  clock ← clock_of rest
  some (record { year = year; month = month; day = day; clock = clock })

unfoldable pub from_month : ℕ → Text × Text → Option Groups
unfolding small_of expect run from_day
from_month year (digits, rest) = do
  month ← small_of 1 digits
  s ← expect b'-' rest
  from_day year month (run s)

unfoldable pub from_year : Text × Text → Option Groups
unfolding year_of expect run from_month
from_year (digits, rest) = do year ← year_of digits; s ← expect b'-' rest; from_month year (run s)

unfoldable pub captures : Text → Option Groups
unfolding skip run from_year
captures x = from_year (run (skip x))
