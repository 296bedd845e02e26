-- ===== src/Dates/Ranges.antt =====
-- The ranges of datetimes that stand for a date in summary data, and the window of the last days
-- (datacube_ows/time_utils.py). A datetime in UTC is its second from the year 1 on, as Python's
-- proleptic Gregorian calendar counts it.
pub mod Lengths
use datacube_ows.Base.{
  ℕ, zero, suc, ◌+◌, ◌-◌, ◌*◌, ◌/◌, ◌%◌, Bool, ◌&&◌, ◌||◌, not, Option, none, some, List, ◌==◌,
  nat_eq, if◌then◌else◌, length, leb, get_elem?, drop,
}

pub is_leap : ℕ → Bool
is_leap y = y % 400 == 0 || (y % 4 == 0 && not (y % 100 == 0))

-- The days of a month, 0 for a number that is none.
pub month_days : ℕ → ℕ → ℕ
unfolding is_leap
month_days y m =
    if m == 2
    then (if is_leap y then 29 else 28)
    else if m == 4 || m == 6 || m == 9 || m == 11
    then 30
    else if m == 0 || not (leb m 12)
    then 0
    else 31

-- The days of the years before a year, and of the months before a month of it.
pub days_before_year : ℕ → ℕ
days_before_year y = let n = y - 1 in n * 365 + n / 4 - n / 100 + n / 400

pub days_before_month : ℕ → ℕ → ℕ
days_before_month y zero = 0
days_before_month y (suc m) = days_before_month y m + month_days y m

abbrev pub day_seconds : ℕ
day_seconds = 86400

-- `datetime(year, month, day, 0, 0, 0, tzinfo=utc)`
pub midnight : ℕ → ℕ → ℕ → ℕ
unfolding days_before_year days_before_month
midnight y m d = (days_before_year y + days_before_month y m + (d - 1)) * day_seconds

-- `datetime(year, month, day, 23, 59, 59, tzinfo=utc)`
abbrev last_second : ℕ → ℕ → ℕ → ℕ
last_second y m d = midnight y m d + 86399

-- `month_date_range`
pub month_date_range : ℕ → ℕ → ℕ × ℕ
unfolding midnight
month_date_range year month =
    let wraps = month + 1 == 13 in
    let m = if wraps then 1 else month + 1 in
    let y = if wraps then year + 1 else year in
    (midnight year month 1, midnight y m 1 - day_seconds)

-- `year_date_range`
pub year_date_range : ℕ → ℕ × ℕ
unfolding midnight
year_date_range year = (midnight year 1 1, last_second year 12 31)

-- `day_summary_date_range`
pub day_summary_date_range : ℕ → ℕ → ℕ → ℕ × ℕ
unfolding midnight
day_summary_date_range year month day = (midnight year month day, last_second year month day)

-- `rolling_window_ndays`: from the start of the n-th last date to the end of the last one; `search_times`
-- is that of the layer. `none` is an IndexError; no date is counted for n = 0 as for all of them.
pub rolling_window_ndays : {D T : Type 0} → (D → T × T) → List D → ℕ → Option (T × T)
rolling_window_ndays search_times available_dates ndays =
    let days =
      if ndays == 0
      then available_dates
      else drop (length available_dates - ndays) available_dates in
    let first =
      if ndays == 0
      then get_elem? days 0
      else if leb ndays (length days)
      then get_elem? days (length days - ndays)
      else none in
    elim first [
      | none ↦ none
      | some d ↦ elim (get_elem? days (length days - 1)) [
        | none ↦ none
        | some last ↦ some ((search_times d).0, (search_times last).1)
      ]
    ]
