-- ===== src/Sig/Time/RoundTrip.antt =====
-- sig/sig.go: ParseTime reads FormatTime's text back.
use onym_audit.Prelude.{
  ℕ, zero, suc, ◌+◌, ◌-◌, ◌*◌, ◌/◌, ◌%◌, ◌<◌, ◌≤◌, ◌≡◌, Bool, true, false, [], ◌∷◌, ◌++◌, List,
  arith, ltb, Bytes, ok, if◌then◌else◌, All, Bool-cases, inl, inr, ap, ◌∙◌,
}
use onym_audit.Sig.Time.{
  Time, second, is_leap, before_year, month_lengths, sum_first, nth, year_from, month_from, digits,
  sign, instant, in_calendar, parse_time, two, four, date_text, clock_text, format_time,
}
use onym_audit.Sig.Time.Calendar.{
  year_from_lem, year_length, before_year_lower, before_year_mono, month_of_day,
}

bounded : (ls : List ℕ) → All (λ l. l ≤ 31) ls → (k : ℕ) → nth k ls ≤ 31
unfolding nth
bounded [] h k = omega arith
bounded (l ∷ ls) h zero = h.0
bounded (l ∷ ls) h (suc k) = bounded ls h.1 k

digits-two : (n : ℕ) (rest : Bytes) → n < 100 → digits 2 0 (two n ++ rest) ≡ ok (n, rest)
unfolding digits
digits-two n rest h = ground arith

digits-four : (n : ℕ) (rest : Bytes) → n < 10000 → digits 4 0 (four n ++ rest) ≡ ok (n, rest)
unfolding digits
digits-four n rest h = ground arith

sign-cons : (x : ℕ) (s : Bytes) → sign x (x ∷ s) ≡ ok s
unfolding sign
sign-cons x s = ground arith

nth-le : (leap : Bool) (m : ℕ) → nth m (month_lengths leap) ≤ 31
nth-le leap m = bounded (month_lengths leap) (all_short leap) m
  where
    all_short : (b : Bool) → All (λ l. l ≤ 31) (month_lengths b)
    all_short true = unfold month_lengths in omega arith
    all_short false = unfold month_lengths in omega arith

date_in_calendar :
    (y m d s : ℕ)
    → m < 12
    → d < nth m (month_lengths (is_leap y))
    → s < 86400
    → in_calendar y (m + 1) (d + 1) (s / 3600) (s / 60 % 60) (s % 60) ≡ true
date_in_calendar y m d s hm hd hs = let z : m + 1 - 1 ≡ m = omega arith in rw z (ground arith)

-- The text of a date and a time of day is read as their instant.
parse_time-fields :
    (y m d s : ℕ)
    → y < 10000
    → m < 12
    → d < nth m (month_lengths (is_leap y))
    → s < 86400
    → parse_time (date_text y (m, d) (clock_text s))
      ≡ ok (instant y (m + 1) (d + 1) (s / 3600) (s / 60 % 60) (s % 60))
unfolding date_text clock_text parse_time
parse_time-fields y m d s hy hm hd hs = rw (
  digits-four y _ hy,
  sign-cons,
  digits-two (m + 1) _ (omega arith),
  sign-cons,
  digits-two (d + 1) _ (omega (arith, nth-le (is_leap y) m)),
  sign-cons,
  digits-two (s / 3600) _ (omega arith),
  sign-cons,
  digits-two (s / 60 % 60) _ (omega arith),
  sign-cons,
  digits-two (s % 60) _ (omega arith),
  sign-cons,
  date_in_calendar y m d s hm hd hs,
)

-- A day counted by years, months and days is that day.
instant-day :
    (day s y m d : ℕ)
    → before_year y ≤ day
    → sum_first m (month_lengths (is_leap y)) + d ≡ day - before_year y
    → s < 86400
    → instant y (m + 1) (d + 1) (s / 3600) (s / 60 % 60) (s % 60) ≡ (day * 86400 + s) * second
unfolding instant
instant-day day s y m d hy hm hs =
    let z : m + 1 - 1 ≡ m = omega arith in rw z (ap (λ (x : ℕ). x * second) (omega arith))

-- ParseTime reads what FormatTime writes for an instant before the year 10000, to the whole second.
pub parse_time-format_time :
    (t : Time)
    → t < before_year 10000 * 86400 * second
    → parse_time (format_time t) ≡ ok (t / second * second)
unfolding format_time
parse_time-format_time t h =
    let s = t / second in
    let day = s / 86400 in
    let y = year_from (suc (day / 365)) (day / 365) day in
    let found = year_from_lem (suc (day / 365)) (day / 365) day (omega arith) (late day) in
    let (hm, hs, hd) =
      month_of_day (is_leap y) (day - before_year y) (in_year y day found.0 found.1) in
    let r = month_from 0 (day - before_year y) (month_lengths (is_leap y)) in
    parse_time-fields y r.0 r.1 (s % 86400)
      (year_below y day found.0 (day_below (before_year 10000) t h)) hm hd (omega arith)
    ∙ ap ok (
        instant-day day (s % 86400) y r.0 r.1 found.0 hs (omega arith)
        ∙ ap (λ (x : ℕ). x * second) (omega arith))
  where
    late : (n : ℕ) → n < before_year (suc (n / 365))
    late n = omega (arith, before_year_lower (suc (n / 365)))

    in_year :
        (y n : ℕ)
        → before_year y ≤ n
        → n < before_year (suc y)
        → n - before_year y < (if is_leap y then 366 else 365)
    in_year y n l u = ground (arith, year_length y)

    year_below : (y n : ℕ) → before_year y ≤ n → n < before_year 10000 → y < 10000
    year_below y n l u = elim (Bool-cases (ltb y 10000)) [
      | inl e ↦ ground arith
      | inr e ↦ absurd (
          let z : 10000 + (y - 10000) ≡ y = ground arith in
          let up = rw z at (before_year_mono 10000 (y - 10000)) in omega arith)
    ]

    day_below : (n x : ℕ) → x < n * 86400 * second → x / second / 86400 < n
    day_below n x l = omega arith
