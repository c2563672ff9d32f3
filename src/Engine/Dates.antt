-- ===== src/Engine/Dates.antt =====
-- `parseDate` of libs/engine/src/weighted-participation-base.ts, with the calendar of `Date`. A date
-- is the number of its day from the first day of the year 0 on: the source's milliseconds,
-- by the day and from another origin.
use pms_backend.Base.{
  ℕ, zero, suc, ◌+◌, ◌-◌, ◌*◌, ◌/◌, ◌%◌, Bool, ◌&&◌, ◌||◌, not, List, [], ◌∷◌, leb, ◌==◌,
  if◌then◌else◌,
}
use pms_backend.Fault.{Result, ok, err, ◌>>◌, throw_if, date_format, date_invalid}
use pms_backend.Text.{Text}
use pms_backend.Text.Digits.{big_int}
use pms_backend.Account.{is_date_text}

unfoldable pub is_leap : ℕ → Bool
is_leap year = year % 4 == 0 && (not (year % 100 == 0) || year % 400 == 0)

-- The days of the months of a year.
unfoldable pub month_lengths : ℕ → List ℕ
unfolding is_leap
month_lengths year =
    31 ∷ (if is_leap year then 29 else 28) ∷ 31 ∷ 30 ∷ 31 ∷ 30 ∷ 31 ∷ 31 ∷ 30 ∷ 31 ∷ 30 ∷ 31 ∷ []

-- The length of a month counted from 0, and 0 for no month.
unfoldable pub length_of : List ℕ → ℕ → ℕ
length_of [] m = 0
length_of (l ∷ ls) zero = l
length_of (l ∷ ls) (suc m) = length_of ls m

unfoldable pub days_before_month : List ℕ → ℕ → ℕ
days_before_month [] m = 0
days_before_month (l ∷ ls) zero = 0
days_before_month (l ∷ ls) (suc m) = l + days_before_month ls m

-- The year 0 is a leap year.
unfoldable pub days_before_year : ℕ → ℕ
days_before_year zero = 0
days_before_year (suc y) = 365 * suc y + y / 4 - y / 100 + y / 400 + 1

-- The checks of `Date.parse` and of the comparison with `formatDate`: the day exists.
unfoldable pub day_number : ℕ → ℕ → ℕ → Result ℕ
unfolding month_lengths length_of days_before_month days_before_year
day_number year month day =
    if leb 1 month && leb 1 day && leb day (length_of (month_lengths year) (month - 1))
    then ok (days_before_year year + days_before_month (month_lengths year) (month - 1) + (day - 1))
    else err date_invalid

-- The parts of a date text.
unfoldable pub dated : Text → Result ℕ
unfolding day_number
dated (a ∷ b ∷ c ∷ d ∷ _ ∷ e ∷ f ∷ _ ∷ g ∷ h ∷ []) =
    day_number (big_int (a ∷ b ∷ c ∷ d ∷ [])) (big_int (e ∷ f ∷ [])) (big_int (g ∷ h ∷ []))
dated _ = err date_format

-- `parseDate`
unfoldable pub parse_date : Text → Result ℕ
unfolding dated
parse_date value = do throw_if (not (is_date_text value)) date_format; dated value
