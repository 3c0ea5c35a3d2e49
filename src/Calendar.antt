-- ===== src/Calendar.antt =====
-- The UTC calendar of the language's `Date`: days are counted from 0000-01-01, instants in
-- milliseconds from its midnight, months from 0 as `getUTCMonth` does. Dates before the year 0 do not
-- occur.
pub mod Years
pub mod Months
use able_work.Base.{
  ℕ, ◌+◌, ◌-◌, ◌*◌, ◌/◌, ◌%◌, Bool, true, false, not, ◌&&◌, ◌||◌, ltb, leb, if◌then◌else◌, ◌==◌,
  nat_eq,
}

abbrev pub ms_per_day : ℕ
ms_per_day = 86_400_000

unfoldable pub is_leap : ℕ → Bool
is_leap y = y % 4 == 0 && (not (y % 100 == 0) || y % 400 == 0)

-- The day number of January 1.
unfoldable pub year_start : ℕ → ℕ
year_start y = 365 * y + (y + 3) / 4 + (y + 399) / 400 - (y + 99) / 100

-- The year of a day: an estimate by the mean length of a year is off by one at most.
unfoldable pub year_of : ℕ → ℕ
year_of day =
    let y = day * 400 / 146_097 in
    if leb (year_start (y + 1)) day then y + 1 else if ltb day (year_start y) then y - 1 else y

-- The days of a year before a month.
unfoldable pub month_start : Bool → ℕ → ℕ
month_start leap m =
    let extra : ℕ = if leap then 1 else 0 in
    if m == 0
    then 0
    else if m == 1
    then 31
    else if m == 2
    then 59 + extra
    else if m == 3
    then 90 + extra
    else if m == 4
    then 120 + extra
    else if m == 5
    then 151 + extra
    else if m == 6
    then 181 + extra
    else if m == 7
    then 212 + extra
    else if m == 8
    then 243 + extra
    else if m == 9
    then 273 + extra
    else if m == 10
    then 304 + extra
    else if m == 11
    then 334 + extra
    else 365 + extra

-- The month of the n-th day of a year, counted from 0.
unfoldable pub month_of : Bool → ℕ → ℕ
month_of leap n =
    let extra : ℕ = if leap then 1 else 0 in
    if ltb n 31
    then 0
    else if ltb n (59 + extra)
    then 1
    else if ltb n (90 + extra)
    then 2
    else if ltb n (120 + extra)
    then 3
    else if ltb n (151 + extra)
    then 4
    else if ltb n (181 + extra)
    then 5
    else if ltb n (212 + extra)
    then 6
    else if ltb n (243 + extra)
    then 7
    else if ltb n (273 + extra)
    then 8
    else if ltb n (304 + extra)
    then 9
    else if ltb n (334 + extra)
    then 10
    else 11

-- `getUTCFullYear`, `getUTCMonth` and `getUTCDate` of a day.
pub record Civil : Type 0 where
  pub year : ℕ
  pub month : ℕ
  pub date : ℕ

unfoldable pub civil_of : ℕ → Civil
civil_of day =
    let y = year_of day in
    let n = day - year_start y in
    let m = month_of (is_leap y) n in
    record { year = y; month = m; date = n - month_start (is_leap y) m + 1 }

-- `Date.UTC(year, month, date)` with months past the year's end carried over: `months` is
-- year * 12 + month.
unfoldable pub make_day : ℕ → ℕ → ℕ
make_day months date =
    let y = months / 12 in year_start y + month_start (is_leap y) (months % 12) + date - 1

-- Months since the year 0.
unfoldable pub month_index : ℕ → ℕ
month_index day = (civil_of day).year * 12 + (civil_of day).month
