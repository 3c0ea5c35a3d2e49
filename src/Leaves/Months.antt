-- ===== src/Leaves/Months.antt =====
-- leave-accrual.service.ts, `clampToYear` and `calcMonthlyAccrualCount`: the months that a rule
-- counts within a year.
use able_work.Base.{ℕ, ◌+◌, ◌*◌, ◌/◌, ◌%◌, ◌≤◌, ◌<◌, ◌≡◌, refl, Bool, arith}
use able_work.Calendar.{make_day, month_index, civil_of, is_leap, month_start}
use able_work.Calendar.Months.{month_index_mono, date_mono, civil_of-make_day}
use able_work.Leaves.Accrual.{
  utc, clamp_to_year, accrual_start, months_between, calc_monthly_accrual_count,
}

-- January has its 1st and December its 31st.
has_first : (leap : Bool) (m : ℕ) → m ≡ 0 → 1 + month_start leap m ≤ month_start leap (m + 1)
unfolding month_start
has_first leap m h = ground arith

has_last : (leap : Bool) (m : ℕ) → m ≡ 11 → 31 + month_start leap m ≤ month_start leap (m + 1)
unfolding month_start
has_last leap m h = ground arith

-- The first and the last day of a year, as the service writes them.
month_index-first : (y : ℕ) → month_index (make_day (y * 12) 1) ≡ y * 12
unfolding month_index
month_index-first y =
    rw (civil_of-make_day (y * 12) 1 (omega arith) (has_first _ _ (omega arith))) (omega arith)

month_index-last : (y : ℕ) → month_index (make_day (y * 12 + 11) 31) ≡ y * 12 + 11
unfolding month_index
month_index-last y =
    rw (civil_of-make_day (y * 12 + 11) 31 (omega arith) (has_last _ _ (omega arith))) (omega arith)

first_le_last : (y : ℕ) → make_day (y * 12) 1 ≤ make_day (y * 12 + 11) 31
unfolding make_day
first_le_last y =
    let h : (y * 12) / 12 ≡ y = omega arith in
    let k : (y * 12 + 11) / 12 ≡ y = omega arith in
    let h' : (y * 12) % 12 ≡ 0 = omega arith in
    let k' : (y * 12 + 11) % 12 ≡ 11 = omega arith in
    rw (h, k, h', k') (omega (arith, january (is_leap y)))
  where
    january : (leap : Bool) → month_start leap 0 ≤ month_start leap 11
    january leap = unfold month_start in ground arith

-- The clamped instant lies within the year.
pub clamp_to_year_range :
    (at y : ℕ) → (utc (y * 12) 1 ≤ clamp_to_year at y) × (clamp_to_year at y ≤ utc (y * 12 + 11) 31)
unfolding clamp_to_year
clamp_to_year_range at y = (ground (arith, first_le_last y), ground (arith, first_le_last y))

months_between_mono :
    (start a b : ℕ) → start ≤ a → a ≤ b → months_between start a ≤ months_between start b
unfolding months_between
months_between_mono start a b from le =
    let days : a / 86400000 ≤ b / 86400000 = omega arith in
    ground (
      arith,
      month_index_mono (a / 86400000) (b / 86400000) days,
      date_mono (a / 86400000) (b / 86400000) days,
    )

-- A later reference instant never counts fewer months.
pub calc_monthly_accrual_count_mono :
    (joined_at y a b : ℕ)
    → a ≤ b
    → calc_monthly_accrual_count joined_at y a ≤ calc_monthly_accrual_count joined_at y b
unfolding calc_monthly_accrual_count
calc_monthly_accrual_count_mono joined_at y a b le =
    ground (arith, months_between_mono (accrual_start joined_at y) a b)

count_bound :
    (joined_at y at : ℕ)
    → at ≤ utc (y * 12 + 11) 31
    → accrual_start joined_at y ≤ at
    → months_between (accrual_start joined_at y) at ≤ 11
unfolding months_between
count_bound joined_at y at le from =
    let first : make_day (y * 12) 1 ≤ accrual_start joined_at y / 86400000 = ground arith in
    let last : at / 86400000 ≤ make_day (y * 12 + 11) 31 = omega arith in
    ground (
      arith,
      month_index_mono _ _ first,
      month_index_mono _ _ last,
      month_index-first y,
      month_index-last y,
    )

-- A rule that accrues by the month accrues for 11 months of a year at most, whenever it runs and
-- whenever the employee joined.
pub calc_monthly_accrual_count_bound :
    (joined_at now y : ℕ) → calc_monthly_accrual_count joined_at y (clamp_to_year now y) ≤ 11
unfolding calc_monthly_accrual_count
calc_monthly_accrual_count_bound joined_at now y =
    ground (arith, count_bound joined_at y (clamp_to_year now y) (clamp_to_year_range now y).1)

date-make_day :
    (months date : ℕ)
    → 0 < date
    → date + month_start (is_leap (months / 12)) (months % 12)
      ≤ month_start (is_leap (months / 12)) (months % 12 + 1)
    → (civil_of (make_day months date)).date ≡ date
date-make_day months date lo hi = rw (civil_of-make_day months date lo hi) refl

-- For a year that is over, an employee who had joined by its first day gets 11 monthly accruals.
pub calc_monthly_accrual_count_past :
    (joined_at now y : ℕ)
    → joined_at ≤ utc (y * 12) 1
    → utc (y * 12 + 11) 31 ≤ now
    → calc_monthly_accrual_count joined_at y (clamp_to_year now y) ≡ 11
unfolding calc_monthly_accrual_count months_between clamp_to_year
calc_monthly_accrual_count_past joined_at now y early late =
    let first : make_day (y * 12) 1 * 86400000 / 86400000 ≡ make_day (y * 12) 1 = omega arith in
    let last : make_day (y * 12 + 11) 31 * 86400000 / 86400000 ≡ make_day (y * 12 + 11) 31 =
      omega arith in
    let clamped : clamp_to_year now y ≡ utc (y * 12 + 11) 31 = ground (arith, first_le_last y) in
    let from : accrual_start joined_at y ≡ utc (y * 12) 1 = ground arith in
    rw (clamped, from, first, last)
      (ground (
        arith,
        first_le_last y,
        month_index-first y,
        month_index-last y,
        date-make_day (y * 12) 1 (omega arith) (has_first _ _ (omega arith)),
        date-make_day (y * 12 + 11) 31 (omega arith) (has_last _ _ (omega arith)),
      ))
