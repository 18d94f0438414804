-- ===== src/Billing/Calendar.antt =====
-- `getInvoicePeriod` of src/modules/billing/subscriptions.service.ts. `setUTCMonth(m + 1)` keeps the
-- day of the month and lets it overflow (31 January becomes 2 or 3 March), so it moves a date on by
-- the length of its own month. Years run from March, and 400 of them have 146097 days.
use hivepoint_backend.Common.{
  ℕ, ◌+◌, ◌-◌, ◌*◌, ◌/◌, ◌%◌, ◌≡◌, Bool, ◌==◌, ◌&&◌, ◌||◌, not, ltb, refl, if◌then◌else◌,
}
use hivepoint_backend.Usage.Days.{day_ms}

-- The day of a date in its 400 years, counted from 1 March.
day_of_era : ℕ → ℕ
day_of_era date = (date / day_ms + 719468) % 146097

year_of_era : ℕ → ℕ
year_of_era doe = (doe - doe / 1460 + doe / 36524 - doe / 146096) / 365

day_of_year : ℕ → ℕ
unfolding year_of_era
day_of_year doe = let yoe = year_of_era doe in doe - (365 * yoe + yoe / 4 - yoe / 100)

-- The first day of a month of the year, where 0 is March.
month_start : ℕ → ℕ
month_start month = (153 * month + 2) / 5

is_leap_year : ℕ → Bool
is_leap_year year = year % 4 == 0 && (not (year % 100 == 0) || year % 400 == 0)

-- February, the last month, has the year's remaining days.
month_length : ℕ → ℕ → ℕ
unfolding month_start is_leap_year
month_length year month =
    if ltb month 11
    then month_start (month + 1) - month_start month
    else if is_leap_year (year + 1)
    then 29
    else 28

unfoldable pub days_of_month : ℕ → ℕ
unfolding month_length day_of_era year_of_era day_of_year
days_of_month date =
    let doe = day_of_era date in month_length (year_of_era doe) ((5 * day_of_year doe + 2) / 153)

-- `date.setUTCMonth(date.getUTCMonth() + 1)`
unfoldable pub add_utc_month : ℕ → ℕ
add_utc_month date = date + days_of_month date * day_ms

-- 31 January 2026 becomes 3 March; 15 February 2028 becomes 15 March.
january_overflows : add_utc_month 1769817600000 ≡ 1772496000000
unfolding add_utc_month days_of_month
january_overflows = refl

leap_february : add_utc_month 1834185600000 ≡ 1836691200000
unfolding add_utc_month days_of_month
leap_february = refl
