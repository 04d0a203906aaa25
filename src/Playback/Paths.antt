-- ===== src/Playback/Paths.antt =====
-- service.go: which paths `validSegmentPath` accepts.
use iolink.Base.{
  is_digit, value, ℕ, ◌^◌, ◌≤◌, ◌<◌, suc, ◌≡◌, refl, sym, subst, ◌∙◌, ◌↔◌, inl, inr, ◌==◌, nat_eq,
  Bool, true, false, ◌||◌, Text, text, is_empty, List, [], ◌∷◌, ◌++◌, all, All, some, Option-cases,
  arith, contains_any, contains, has_prefix,
}
use iolink.Playback.Segments.{
  Groups, layout, find_submatch, days_in, valid_date, valid_parts, valid_segment_path,
}
use iolink.Playback.Grammar.{IsNumeral, render, IsMatch, match_groups-render, match_groups-some}

-- The path of a segment: the day and the time at which it starts, and its number, as text.
pub record SegmentAt (path : Text) : Type 0 where
  pub year : Text
  pub month : Text
  pub day : Text
  pub hour : Text
  pub minute : Text
  pub second : Text
  pub number : Text
  pub written :
      path
      ≡ year
        ++ b'-'
          ∷ (month
              ++ b'-'
                ∷ (day
                    ++ b'/'
                      ∷ (hour
                          ++ b'/' ∷ (minute ++ b'-' ∷ (second ++ b'_' ∷ (number ++ text ".ts"))))))
  pub date_widths : IsNumeral 4 year × IsNumeral 2 month × IsNumeral 2 day
  pub time_widths : IsNumeral 2 hour × IsNumeral 2 minute × IsNumeral 2 second
  pub number_digits : (all is_digit number ≡ true) × (is_empty number ≡ false)
  pub on_calendar :
      (1 ≤ value month)
      × (value month ≤ 12)
      × (1 ≤ value day)
      × (value day ≤ days_in (value year) (value month))
  pub in_day : (value hour < 24) × (value minute < 60) × (value second < 60)
  pub in_bits : value number < 2 ^ 32

-- The tests in front of the pattern, as one.
abbrev refused : Text → Bool
refused s = contains_any s (text "%?#\\") || contains s (text "..")

-- A byte that none of them looks for.
abbrev is_plain : ℕ → Bool
is_plain c = is_digit c || c == b'-' || c == b'/' || c == b'_'

refused-plain : (c : ℕ) (s : Text) → is_plain c ≡ true → refused (c ∷ s) ≡ refused s
unfolding contains_any contains has_prefix
refused-plain c s h = ground arith

refused-digits : (ds s : Text) → all is_digit ds ≡ true → refused (ds ++ s) ≡ refused s
refused-digits [] s h = refl
refused-digits (c ∷ ds) s h =
    refused-plain c (ds ++ s) (ground arith) ∙ refused-digits ds s (ground arith)

refused-field :
    (ds : Text) (sep : ℕ) (s : Text)
    → all is_digit ds ≡ true
    → is_plain sep ≡ true
    → refused (ds ++ sep ∷ s) ≡ refused s
refused-field ds sep s h k = refused-digits ds (sep ∷ s) h ∙ refused-plain sep s k

refused-render :
    (fs : List (ℕ × ℕ)) (gs : Groups fs)
    → All (λ f. is_plain f.1 ≡ true) fs
    → IsMatch fs gs
    → refused (render fs gs) ≡ false
unfolding contains_any contains
refused-render [] number u v = refused-digits number (text ".ts") v.0 ∙ refl
refused-render ((k, sep) ∷ fs) (ds, gs) u v =
    refused-field ds sep (render fs gs) v.0.numerals u.0 ∙ refused-render fs gs u.1 v.1

digit_first :
    (k : ℕ) (ds s : Text)
    → IsNumeral (suc k) ds
    → (has_prefix (ds ++ s) (text "/") ≡ false) × (is_empty (ds ++ s) ≡ false)
unfolding has_prefix
digit_first k [] s v = absurd (ground (arith, v.width))
digit_first k (c ∷ ds) s v = ground (arith, v.numerals)

valid_parts_iff :
    (y mo d h mi s n : Text)
    → (valid_parts (y, (mo, (d, (h, (mi, (s, n)))))) ≡ true) ↔ (
        ((1 ≤ value mo)
          × (value mo ≤ 12)
          × (1 ≤ value d)
          × (value d ≤ days_in (value y) (value mo)))
        × ((value h < 24) × (value mi < 60) × (value s < 60))
        × (value n < 2 ^ 32))
unfolding valid_parts valid_date
valid_parts_iff y mo d h mi s n = (λ e. ground arith, λ e. ground arith)

-- The layout behind the year.
abbrev rest_layout : List (ℕ × ℕ)
rest_layout = (2, b'-') ∷ (2, b'/') ∷ (2, b'/') ∷ (2, b'-') ∷ (2, b'_') ∷ []

valid_segment_path-match :
    (path : Text) (gs : Groups layout)
    → find_submatch path ≡ some gs
    → refused path ≡ false
    → (has_prefix path (text "/") ≡ false) × (is_empty path ≡ false)
    → valid_parts gs ≡ true
    → valid_segment_path path ≡ true
unfolding valid_segment_path
valid_segment_path-match path gs f r b v = ground arith

valid_segment_path-render :
    (gs : Groups layout)
    → IsMatch layout gs
    → valid_parts gs ≡ true
    → valid_segment_path (render layout gs) ≡ true
unfolding find_submatch
valid_segment_path-render gs v p =
    valid_segment_path-match (render layout gs) gs (match_groups-render layout gs v)
      (refused-render layout gs (refl, (refl, (refl, (refl, (refl, (refl, tt)))))) v)
      (digit_first 3 gs.0 (b'-' ∷ render rest_layout gs.1) v.0) p

valid_segment_path-SegmentAt : (path : Text) → valid_segment_path path ≡ true → SegmentAt path
unfolding valid_segment_path find_submatch
valid_segment_path-SegmentAt path h = elim (Option-cases (find_submatch path)) [
  | inl e ↦ absurd (ground arith)
  | inr ((year, (month, (day, (hour, (minute, (second, number)))))), e) ↦
      let (written, (y, (mo, (d, (ho, (mi, (s, n))))))) = match_groups-some layout path e in
      let (calendar, day_time, bits) =
        (valid_parts_iff year month day hour minute second number).0 (ground arith) in
      record {
        year = year;
        month = month;
        day = day;
        hour = hour;
        minute = minute;
        second = second;
        number = number;
        written = written;
        date_widths = (y, mo, d);
        time_widths = (ho, mi, s);
        number_digits = n;
        on_calendar = calendar;
        in_day = day_time;
        in_bits = bits;
      }
]

SegmentAt-valid_segment_path : (path : Text) → SegmentAt path → valid_segment_path path ≡ true
SegmentAt-valid_segment_path path v =
    let (y, mo, d) = v.date_widths in
    let (h, mi, s) = v.time_widths in
    let n = v.number_digits in
    subst (λ p. valid_segment_path p ≡ true) (sym v.written)
      (valid_segment_path-render
        (v.year, (v.month, (v.day, (v.hour, (v.minute, (v.second, v.number))))))
        (y, (mo, (d, (h, (mi, (s, n))))))
        ((valid_parts_iff v.year v.month v.day v.hour v.minute v.second v.number).1
          (v.on_calendar, v.in_day, v.in_bits)))

-- A path is accepted exactly when it is written `year-month-day/hour/minute-second_number.ts`, its
-- numbers but the last of fixed width, names a day of the calendar and a time of the day, and has a
-- number that fits 32 bits. The tests in front of the pattern refuse no such path.
pub valid_segment_path_iff : (path : Text) → (valid_segment_path path ≡ true) ↔ SegmentAt path
valid_segment_path_iff path = (valid_segment_path-SegmentAt path, SegmentAt-valid_segment_path path)
