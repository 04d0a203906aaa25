-- ===== src/Playback/Segments.antt =====
-- service.go: `segmentPathPattern` and `validSegmentPath`, the grammar of the paths of segments.
use iolink.Base.{
  is_digit, value, ℕ, zero, suc, ◌^◌, ◌%◌, ◌==◌, nat_eq, text_eq, Bool, false, ◌&&◌, ◌||◌, not,
  if◌then◌else◌, ltb, leb, Text, text, is_empty, List, [], ◌∷◌, Option, none, some, contains_any,
  has_prefix, contains,
}

abbrev add_digit : ℕ → Option (Text × Text) → Option (Text × Text)
add_digit c none = none
add_digit c (some (ds, rest)) = some (c ∷ ds, rest)

-- `\d{k}`: the digits and the rest.
unfoldable pub take_digits : ℕ → Text → Option (Text × Text)
take_digits zero s = some ([], s)
take_digits (suc k) [] = none
take_digits (suc k) (c ∷ s) =
    let more = take_digits k s in if is_digit c then add_digit c more else none

-- `\d+` before a byte that is no digit.
unfoldable pub span_digits : Text → Text × Text
span_digits [] = ([], [])
span_digits (c ∷ s) =
    let more = span_digits s in if is_digit c then (c ∷ more.0, more.1) else ([], c ∷ s)

-- One byte.
unfoldable pub skip : ℕ → Text → Option Text
skip sep [] = none
skip sep (c ∷ s) = if c == sep then some s else none

unfoldable pub last_field : Text → Option Text
unfolding span_digits
last_field s =
    if not (is_empty (span_digits s).0) && (span_digits s).1 == text ".ts"
    then some (span_digits s).0
    else none

-- What the pattern matches, as numbers of a width with the byte behind them, and one last number.
-- The first group of the pattern, a date, is kept as its three numbers.
abbrev pub Groups : List (ℕ × ℕ) → Type 0
Groups [] = Text
Groups (f ∷ fs) = Text × Groups fs

abbrev pub layout : List (ℕ × ℕ)
layout = (4, b'-') ∷ (2, b'-') ∷ (2, b'/') ∷ (2, b'/') ∷ (2, b'-') ∷ (2, b'_') ∷ []

-- One number and the byte behind it, and the rest.
unfoldable pub field : ℕ → ℕ → Text → Option (Text × Text)
unfolding take_digits skip
field k sep s = elim (take_digits k s) [
  | none ↦ none
  | some (ds, rest) ↦ elim (skip sep rest) [ none ↦ none | some after ↦ some (ds, after) ]
]

unfoldable pub match_groups : (fs : List (ℕ × ℕ)) → Text → Option (Groups fs)
unfolding field last_field
match_groups [] s = last_field s
match_groups ((k, sep) ∷ fs) s = elim (field k sep s) [
  | none ↦ none
  | some (ds, rest) ↦ elim (match_groups fs rest) [ none ↦ none | some gs ↦ some (ds, gs) ]
]

-- `segmentPathPattern.FindStringSubmatch(path)`.
unfoldable pub find_submatch : Text → Option (Groups layout)
unfolding match_groups
find_submatch path = match_groups layout path

abbrev is_leap : ℕ → Bool
is_leap year = year % 4 == 0 && (not (year % 100 == 0) || year % 400 == 0)

unfoldable pub days_in : ℕ → ℕ → ℕ
days_in year month =
    if month == 2
    then if is_leap year then 29 else 28
    else if month == 4 || month == 6 || month == 9 || month == 11
    then 30
    else 31

-- `time.Parse("2006-01-02", date)`, whether it succeeds on a date of the pattern.
unfoldable pub valid_date : ℕ → ℕ → ℕ → Bool
unfolding days_in
valid_date year month day = leb 1 month && leb month 12 && leb 1 day && leb day (days_in year month)

-- The checks behind the pattern; hours, minutes and seconds have two digits, and a number must fit
-- 32 bits.
unfoldable pub valid_parts : Groups layout → Bool
unfolding valid_date value
valid_parts (year, (month, (day, (hour, (minute, (second, number)))))) =
    valid_date (value year) (value month) (value day)
    && leb (value hour) 23
    && leb (value minute) 59
    && leb (value second) 59
    && ltb (value number) (2 ^ 32)

unfoldable pub valid_segment_path : Text → Bool
unfolding find_submatch valid_parts
valid_segment_path path =
    not (
      is_empty path
      || contains_any path (text "%?#\\")
      || has_prefix path (text "/")
      || contains path (text ".."))
    && elim (find_submatch path) [ none ↦ false | some m ↦ valid_parts m ]
