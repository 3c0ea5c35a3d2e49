-- ===== src/Calendar/Years.antt =====
-- The order of days and of their years, months and dates, and that `Date.UTC` undoes the fields.
use able_work.Base.{ℕ, ◌+◌, ◌≤◌, ◌<◌, ◌≡◌, Bool, arith, if◌then◌else◌}
use able_work.Calendar.{is_leap, year_start, year_of, month_start, month_of}

pub year_start-suc : (y : ℕ) → year_start (y + 1) ≡ year_start y + (if is_leap y then 366 else 365)
unfolding year_start is_leap
year_start-suc y = ground arith

-- A day lies in its year, and in no other.
pub year_of_range :
    (day : ℕ) → (year_start (year_of day) ≤ day) × (day < year_start (year_of day + 1))
unfolding year_of year_start
year_of_range day = ground arith

pub year_start_mono : (y z : ℕ) → y ≤ z → year_start y ≤ year_start z
unfolding year_start
year_start_mono y z h = omega arith

pub year_of-eq : (y day : ℕ) → year_start y ≤ day → day < year_start (y + 1) → year_of day ≡ y
year_of-eq y day lo hi = ground (
  arith,
  year_of_range day,
  year_start_mono (year_of day + 1) y,
  year_start_mono (y + 1) (year_of day),
)

pub year_of_mono : (a b : ℕ) → a ≤ b → year_of a ≤ year_of b
year_of_mono a b h =
    ground (arith, year_of_range a, year_of_range b, year_start_mono (year_of b + 1) (year_of a))

-- The n-th day of a year lies in its month.
pub month_of_range :
    (leap : Bool) (n : ℕ)
    → n < 365 + (if leap then 1 else 0)
    → (month_start leap (month_of leap n) ≤ n)
      × (n < month_start leap (month_of leap n + 1))
      × (month_of leap n < 12)
unfolding month_of month_start
month_of_range leap n h = ground arith

pub month_of_mono : (leap : Bool) (m n : ℕ) → m ≤ n → month_of leap m ≤ month_of leap n
unfolding month_of
month_of_mono leap m n h = ground arith

pub month_of-eq :
    (leap : Bool) (m n : ℕ)
    → m < 12
    → month_start leap m ≤ n
    → n < month_start leap (m + 1)
    → month_of leap n ≡ m
unfolding month_of month_start
month_of-eq leap m n k lo hi = ground arith

pub month_start_bound : (leap : Bool) (m : ℕ) → m < 12 → month_start leap m < 365
unfolding month_start
month_start_bound leap m h = ground arith
