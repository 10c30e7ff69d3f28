-- ===== src/Sig/Time.antt =====
-- sig/sig.go: ParseTime and FormatTime, over what they use of package time. An instant is the number
-- of nanoseconds since the beginning of the year 0, in UTC.
pub mod Calendar
pub mod RoundTrip
pub mod Texts
use onym_audit.Prelude.{
  ℕ, zero, suc, ◌+◌, ◌-◌, ◌*◌, ◌/◌, ◌%◌, ◌^◌, ◌<◌, ◌≤◌, Bool, true, false, ◌&&◌, ◌||◌, not, [], ◌∷◌,
  ◌++◌, List, ltb, leb, ◌==◌, between, is_nil, Bytes, if◌then◌else◌, Result, ok, err, plain, ◌>>=◌,
  ◌>>◌, require,
}
use onym_audit.Canon.Value.{is_digit}

abbrev pub Time : Type 0
Time = ℕ

abbrev pub second : ℕ
second = 10 ^ 9

abbrev pub minute : ℕ
minute = 60 * second

abbrev pub hour : ℕ
hour = 60 * minute

-- (Time).After and (Time).Before
abbrev pub after : Time → Time → Bool
after a b = ltb b a

abbrev pub before : Time → Time → Bool
before a b = ltb a b

unfoldable pub is_leap : ℕ → Bool
is_leap y = y % 4 == 0 && (not (y % 100 == 0) || y % 400 == 0)

-- The days before a year, in the proleptic Gregorian calendar.
unfoldable pub before_year : ℕ → ℕ
before_year y = 365 * y + (y + 3) / 4 + (y + 399) / 400 - (y + 99) / 100

unfoldable pub month_lengths : Bool → List ℕ
month_lengths leap =
    31 ∷ (if leap then 29 else 28) ∷ 31 ∷ 30 ∷ 31 ∷ 30 ∷ 31 ∷ 31 ∷ 30 ∷ 31 ∷ 30 ∷ 31 ∷ []

-- The sum of the first lengths, and the next length.
unfoldable pub sum_first : ℕ → List ℕ → ℕ
sum_first zero ls = 0
sum_first (suc k) [] = 0
sum_first (suc k) (l ∷ ls) = l + sum_first k ls

unfoldable pub nth : ℕ → List ℕ → ℕ
nth k [] = 0
nth zero (l ∷ ls) = l
nth (suc k) (l ∷ ls) = nth k ls

-- A number of so many digits.
unfoldable pub digits : ℕ → ℕ → Bytes → Result (ℕ × Bytes)
digits zero acc s = ok (acc, s)
digits (suc n) acc [] = err plain
digits (suc n) acc (c ∷ s) =
    let rest = digits n (acc * 10 + (c - b'0')) s in if is_digit c then rest else err plain

unfoldable pub sign : ℕ → Bytes → Result Bytes
sign x [] = err plain
sign x (c ∷ s) = if c == x then ok s else err plain

-- The instant of a date and a time of day.
unfoldable pub instant : (y m d h mi s : ℕ) → Time
instant y m d h mi s =
    ((((before_year y + sum_first (m - 1) (month_lengths (is_leap y)) + (d - 1)) * 24 + h) * 60
          + mi)
        * 60
      + s)
    * second

abbrev pub in_calendar : (y m d h mi s : ℕ) → Bool
in_calendar y m d h mi s =
    between 1 12 m
    && (between 1 (nth (m - 1) (month_lengths (is_leap y))) d
        && (ltb h 24 && (ltb mi 60 && ltb s 60)))

-- ParseTime. What else time.Parse reads by the layout (an hour of one digit, a fraction of a second)
-- FormatTime writes otherwise, so that the second test refuses it: only the full form is left.
unfoldable pub parse_time : Bytes → Result Time
parse_time text = do
  (y, s1) ← digits 4 0 text
  s2 ← sign b'-' s1
  (m, s3) ← digits 2 0 s2
  s4 ← sign b'-' s3
  (d, s5) ← digits 2 0 s4
  s6 ← sign b'T' s5
  (h, s7) ← digits 2 0 s6
  s8 ← sign b':' s7
  (mi, s9) ← digits 2 0 s8
  s10 ← sign b':' s9
  (s, s11) ← digits 2 0 s10
  s12 ← sign b'Z' s11
  require (is_nil s12 && in_calendar y m d h mi s) plain
  ok (instant y m d h mi s)

-- The year of a day, sought downwards from a year that is not too early.
unfoldable pub year_from : ℕ → ℕ → ℕ → ℕ
year_from zero y day = y
year_from (suc f) y day = elim (leb (before_year y) day) [
  | true ↦ y
  | false ↦ year_from f (y - 1) day
]

-- The month and the day of the month, both from zero.
unfoldable pub month_from : ℕ → ℕ → List ℕ → ℕ × ℕ
month_from k day [] = (k, day)
month_from k day (l ∷ ls) =
    let rest = month_from (suc k) (day - l) ls in if ltb day l then (k, day) else rest

abbrev pub two : ℕ → Bytes
two n = (b'0' + n / 10) ∷ (b'0' + n % 10) ∷ []

abbrev pub four : ℕ → Bytes
four n = (b'0' + n / 1000) ∷ (b'0' + n / 100 % 10) ∷ (b'0' + n / 10 % 10) ∷ (b'0' + n % 10) ∷ []

unfoldable pub date_text : ℕ → ℕ × ℕ → Bytes → Bytes
date_text y (m, d) rest = four y ++ b'-' ∷ (two (m + 1) ++ b'-' ∷ (two (d + 1) ++ b'T' ∷ rest))

unfoldable pub clock_text : ℕ → Bytes
clock_text s = two (s / 3600) ++ b':' ∷ (two (s / 60 % 60) ++ b':' ∷ (two (s % 60) ++ b'Z' ∷ []))

-- FormatTime, of a year of four digits
unfoldable pub format_time : Time → Bytes
format_time t =
    let s = t / second in
    let day = s / 86400 in
    let y = year_from (suc (day / 365)) (day / 365) day in
    date_text y (month_from 0 (day - before_year y) (month_lengths (is_leap y)))
      (clock_text (s % 86400))

-- Go's zero time, 1 January of the year 1, which ParseTime returns beside an error.
abbrev pub zero_time : Time
zero_time = 366 * 86400 * second

abbrev pub or_zero_time : Result Time → Time
or_zero_time (ok t) = t
or_zero_time (err e) = zero_time
