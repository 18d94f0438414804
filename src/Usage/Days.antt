-- ===== src/Usage/Days.antt =====
-- The UTC day arithmetic of src/modules/usage/usage-aggregation.service.ts. A date is its number of
-- milliseconds since 1970; UTC has no daylight saving, so a day is always `day_ms` long.
use hivepoint_backend.Common.{
  ℕ, ◌+◌, ◌*◌, ◌/◌, ◌%◌, ◌≡◌, Bool, true, ◌&&◌, ◌==◌, if◌then◌else◌, arith, ◌↔◌,
}

abbrev pub day_ms : ℕ
day_ms = 86400000

-- `setUTCHours(0, 0, 0, 0)`
abbrev pub get_utc_day_start : ℕ → ℕ
get_utc_day_start date = date / day_ms * day_ms

-- `setUTCDate(getUTCDate() + 1)` of the day's start
abbrev pub get_next_utc_day_start : ℕ → ℕ
get_next_utc_day_start date = get_utc_day_start date + day_ms

abbrev get_utc_hours : ℕ → ℕ
get_utc_hours date = date / 3600000 % 24

abbrev get_utc_minutes : ℕ → ℕ
get_utc_minutes date = date / 60000 % 60

abbrev get_utc_seconds : ℕ → ℕ
get_utc_seconds date = date / 1000 % 60

abbrev get_utc_milliseconds : ℕ → ℕ
get_utc_milliseconds date = date % 1000

unfoldable pub is_utc_day_boundary : ℕ → Bool
is_utc_day_boundary date =
    get_utc_hours date == 0
    && (get_utc_minutes date == 0 && (get_utc_seconds date == 0 && get_utc_milliseconds date == 0))

-- The clock shows midnight exactly at the multiples of a day.
pub is_utc_day_boundary_iff : (date : ℕ) → (is_utc_day_boundary date ≡ true) ↔ (date % day_ms ≡ 0)
unfolding is_utc_day_boundary
is_utc_day_boundary_iff date = ground arith

-- The first midnight at or after a date, as the two services take it.
unfoldable pub full_days_start : ℕ → ℕ
full_days_start date = if is_utc_day_boundary date then date else get_next_utc_day_start date
