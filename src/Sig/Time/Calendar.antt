-- ===== src/Sig/Time/Calendar.antt =====
-- The searches of FormatTime find the year, the month and the day that ParseTime counts from.
use onym_audit.Prelude.{
  ℕ, zero, suc, ◌+◌, ◌-◌, ◌*◌, ◌<◌, ◌≤◌, ◌≡◌, refl, Bool, true, false, [], ◌∷◌, List, arith, ltb,
  leb, Bool-cases, inl, inr, length, if◌then◌else◌,
}
use onym_audit.Sig.Time.{is_leap, before_year, month_lengths, sum_first, nth, year_from, month_from}

-- A year is as long as its months.
pub year_length : (y : ℕ) → before_year (suc y) ≡ before_year y + (if is_leap y then 366 else 365)
unfolding before_year is_leap
year_length y = ground arith

before_year_step :
    (y : ℕ)
    → (before_year y + 365 ≤ before_year (suc y)) × (before_year (suc y) ≤ before_year y + 366)
before_year_step y = ground (arith, year_length y)

pub before_year_lower : (y : ℕ) → 365 * y ≤ before_year y
before_year_lower zero = omega arith
before_year_lower (suc y) = omega (arith, before_year_lower y, before_year_step y)

pub before_year_mono : (y k : ℕ) → before_year y ≤ before_year (y + k)
before_year_mono y zero = let z : y + zero ≡ y = omega arith in rw z (omega arith)
before_year_mono y (suc k) =
    let z : y + suc k ≡ suc (y + k) = omega arith in
    rw z (omega (arith, before_year_mono y k, (before_year_step (y + k)).0))

before_year_zero : before_year 0 ≡ 0
unfolding before_year
before_year_zero = refl

year_from_found : (f y day : ℕ) → leb (before_year y) day ≡ true → year_from (suc f) y day ≡ y
unfolding year_from
year_from_found f y day e = ground arith

year_from_earlier :
    (f y day : ℕ)
    → leb (before_year y) day ≡ false
    → year_from (suc f) y day ≡ year_from f (y - 1) day
unfolding year_from
year_from_earlier f y day e = ground arith

pred_suc : (y : ℕ) → suc y - 1 ≡ y
pred_suc y = omega arith

-- The year found is the year of the day.
pub year_from_lem :
    (f y day : ℕ)
    → y < f
    → day < before_year (suc y)
    → (before_year (year_from f y day) ≤ day) × (day < before_year (suc (year_from f y day)))
year_from_lem zero y day l h = absurd (omega arith)
year_from_lem (suc f) zero day l h =
    rw (year_from_found f zero day (ground (arith, before_year_zero)))
      (omega (arith, before_year_zero), h)
year_from_lem (suc f) (suc y) day l h = elim (Bool-cases (leb (before_year (suc y)) day)) [
  | inl e ↦ rw (year_from_found f (suc y) day e) (ground arith, h)
  | inr e ↦
      rw (year_from_earlier f (suc y) day e, pred_suc y)
        (year_from_lem f y day (omega arith) (ground arith))
]

sum_all : List ℕ → ℕ
sum_all [] = 0
sum_all (l ∷ ls) = l + sum_all ls

record IsMonth (k day : ℕ) (ls : List ℕ) (m d : ℕ) : Type 0 where
  from : k ≤ m
  below : m < k + length ls
  sum : sum_first (m - k) ls + d ≡ day
  within : d < nth (m - k) ls

month_from-IsMonth :
    (k day : ℕ) (ls : List ℕ)
    → day < sum_all ls
    → IsMonth k day ls (month_from k day ls).0 (month_from k day ls).1
unfolding month_from sum_all sum_first nth
month_from-IsMonth k day [] h = absurd (omega arith)
month_from-IsMonth k day (l ∷ ls) h = elim (Bool-cases (ltb day l)) [
  | inl e ↦ rw e (here (ground arith))
  | inr e ↦ rw e (later (ground arith) (month_from-IsMonth (suc k) (day - l) ls (ground arith)))
]
  where
    here : day < l → IsMonth k day (l ∷ ls) k day
    here lt =
        let z : k - k ≡ 0 = omega arith in
        record {
          from = omega arith;
          below = omega arith;
          sum = rw z (omega arith);
          within = rw z lt;
        }

    later : {m d : ℕ} → l ≤ day → IsMonth (suc k) (day - l) ls m d → IsMonth k day (l ∷ ls) m d
    later {m} {d} le r =
        let z : m - k ≡ suc (m - suc k) = omega (arith, r.from) in
        record {
          from = omega (arith, r.from);
          below = omega (arith, r.below);
          sum = rw z (omega (arith, r.sum));
          within = rw z r.within;
        }

sub_zero : (m : ℕ) → m - 0 ≡ m
sub_zero m = omega arith

-- The month and the day that a day of the year falls on.
pub month_of_day :
    (leap : Bool) (day : ℕ)
    → day < (if leap then 366 else 365)
    → ((month_from 0 day (month_lengths leap)).0 < 12)
      × (sum_first (month_from 0 day (month_lengths leap)).0 (month_lengths leap)
            + (month_from 0 day (month_lengths leap)).1
          ≡ day)
      × ((month_from 0 day (month_lengths leap)).1
          < nth (month_from 0 day (month_lengths leap)).0 (month_lengths leap))
month_of_day leap day h =
    let r = month_from-IsMonth 0 day (month_lengths leap) (total leap h) in
    (omega (arith, r.below, twelve leap), rw sub_zero at r.sum, rw sub_zero at r.within)
  where
    total : (b : Bool) → day < (if b then 366 else 365) → day < sum_all (month_lengths b)
    total true l = unfold month_lengths sum_all in l
    total false l = unfold month_lengths sum_all in l

    twelve : (b : Bool) → length (month_lengths b) ≡ 12
    twelve b = unfold month_lengths in refl
