-- ===== src/Engine/Duration.antt =====
-- packages/core/src/engine/duration.ts: the duration parser. A text is the list of its code points.
-- A numeric duration is a whole number of milliseconds, or one of the numbers that are refused.
pub mod Grammar
use workit.Prelude.{
  ℕ, ◌+◌, ◌-◌, ◌*◌, Bool, ◌&&◌, Option, none, some, List, [], ◌∷◌, leb, ◌==◌, if◌then◌else◌, Result,
  ok, err,
}
use workit.Engine.Errors.{RangeError, invalid_duration, invalid_duration_string, exceeds_maximum}

pub data Number : Type 0 where
  whole : ℕ → Number
  negative not_finite : Number

pub data Duration : Type 0 where
  number : Number → Duration
  text : List ℕ → Duration

pub data DurationUnit : Type 0 where
  ms s m h : DurationUnit

abbrev pub multiplier : DurationUnit → ℕ
multiplier ms = 1
multiplier s = 1000
multiplier m = 60000
multiplier h = 3600000

abbrev pub max_timeout_ms : ℕ
max_timeout_ms = 2147483647

abbrev pub is_digit : ℕ → Bool
is_digit c = leb b'0' c && leb c b'9'

-- `\d+` takes all digits that stand in front.
pub digits : List ℕ → List ℕ
digits [] = []
digits (c ∷ cs) = let rest = digits cs in if is_digit c then c ∷ rest else []

pub after_digits : List ℕ → List ℕ
after_digits [] = []
after_digits (c ∷ cs) = let rest = after_digits cs in if is_digit c then rest else c ∷ cs

-- `(ms|s|m|h)$`.
pub unit_of : List ℕ → Option DurationUnit
unit_of [] = none
unit_of (c ∷ []) =
    if c == b's' then some s else if c == b'm' then some m else if c == b'h' then some h else none
unit_of (c ∷ d ∷ []) = if c == b'm' && d == b's' then some ms else none
unit_of (c ∷ d ∷ e ∷ r) = none

-- `Number(m[1])`.
abbrev pub decimal_from : ℕ → List ℕ → ℕ
decimal_from acc [] = acc
decimal_from acc (c ∷ cs) = decimal_from (10 * acc + (c - b'0')) cs

abbrev pub decimal : List ℕ → ℕ
decimal = decimal_from 0

-- A product beyond the safe integers is beyond the maximum too, and both are refused alike.
in_range : ℕ → Result RangeError ℕ
in_range n = if leb n max_timeout_ms then ok n else err exceeds_maximum

parse_match : List ℕ → Option DurationUnit → Result RangeError ℕ
unfolding in_range
parse_match [] u = err invalid_duration_string
parse_match (c ∷ cs) none = err invalid_duration_string
parse_match (c ∷ cs) (some u) = in_range (decimal (c ∷ cs) * multiplier u)

unfoldable pub parse_duration : Duration → Result RangeError ℕ
unfolding digits after_digits unit_of parse_match
parse_duration (number (whole n)) = if leb n max_timeout_ms then ok n else err invalid_duration
parse_duration (number _) = err invalid_duration
parse_duration (text t) = parse_match (digits t) (unit_of (after_digits t))
