-- ===== src/Calendar/Months.antt =====
-- Days, months and dates: `Date.UTC` undoes the fields of a day, and the fields follow the order of
-- days.
use able_work.Base.{
  ℕ, ◌+◌, ◌-◌, ◌/◌, ◌%◌, ◌≤◌, ◌<◌, ◌≡◌, refl, ap, Bool, arith, if◌then◌else◌, ◌⊎◌, inl, inr,
}
use able_work.Calendar.{
  is_leap, year_start, year_of, month_start, month_of, civil_of, month_index, make_day,
}
use able_work.Calendar.Years.{
  year_start-suc, year_of_range, year_of-eq, year_of_mono, month_of_range, month_of_mono,
  month_of-eq,
}

-- The place of a day in its year.
pub nth_day : ℕ → ℕ
nth_day day = day - year_start (year_of day)

pub nth_day_bound : (day : ℕ) → nth_day day < 365 + (if is_leap (year_of day) then 1 else 0)
unfolding nth_day
nth_day_bound day = ground (arith, year_of_range day, year_start-suc (year_of day))

pub month_bound : (day : ℕ) → (civil_of day).month < 12
unfolding civil_of nth_day
month_bound day = (month_of_range (is_leap (year_of day)) (nth_day day) (nth_day_bound day)).2

pub index_parts :
    (day : ℕ)
    → (month_index day / 12 ≡ (civil_of day).year) × (month_index day % 12 ≡ (civil_of day).month)
unfolding month_index
index_parts day = omega (arith, month_bound day)

-- `Date.UTC` of the fields of a day is the day.
pub make_day-civil_of : (day : ℕ) → make_day (month_index day) (civil_of day).date ≡ day
unfolding make_day
make_day-civil_of day =
    rw ((index_parts day).0, (index_parts day).1)
      (unfold civil_of nth_day in
        omega (
          arith,
          year_of_range day,
          month_of_range (is_leap (year_of day)) (nth_day day) (nth_day_bound day),
        ))

nth_day_mono : (a b : ℕ) → a ≤ b → year_of a ≡ year_of b → nth_day a ≤ nth_day b
unfolding nth_day
nth_day_mono a b h e = omega (arith, ap year_start e)

month_mono : (a b : ℕ) → a ≤ b → year_of a ≡ year_of b → (civil_of a).month ≤ (civil_of b).month
unfolding civil_of nth_day
month_mono a b h e = omega (
  arith,
  month_of_mono (is_leap (year_of a)) (nth_day a) (nth_day b) (nth_day_mono a b h e),
  ap (λ y. month_of (is_leap y) (nth_day b)) e,
)

-- The months of a day follow the order of days, and within a month so do the dates.
pub month_index_mono : (a b : ℕ) → a ≤ b → month_index a ≤ month_index b
unfolding month_index
month_index_mono a b h = elim (year_cases (year_of a) (year_of b) (year_of_mono a b h)) [
  | inl later ↦ omega (arith, year_eq a, year_eq b, later, month_bound a)
  | inr same ↦ omega (arith, year_eq a, year_eq b, same, month_mono a b h same)
]
  where
    year_cases : (y z : ℕ) → y ≤ z → (y < z) ⊎ (y ≡ z)
    year_cases y z l = omega arith

    year_eq : (d : ℕ) → (civil_of d).year ≡ year_of d
    year_eq d = unfold civil_of in refl

pub same_index :
    (a b : ℕ)
    → month_index a ≡ month_index b
    → ((civil_of a).year ≡ (civil_of b).year) × ((civil_of a).month ≡ (civil_of b).month)
unfolding month_index
same_index a b e = omega (arith, month_bound a, month_bound b)

pub date_mono :
    (a b : ℕ) → a ≤ b → month_index a ≡ month_index b → (civil_of a).date ≤ (civil_of b).date
date_mono a b h e =
    let (years, months) = same_index a b e in
    unfold civil_of nth_day in
    omega (
      arith,
      nth_day_mono a b h years,
      ap (λ y. month_start (is_leap y) (civil_of a).month) years,
      ap (λ m. month_start (is_leap (year_of b)) m) months,
    )

month_end_bound :
    (leap : Bool) (m : ℕ) → m < 12 → month_start leap (m + 1) ≤ 365 + (if leap then 1 else 0)
unfolding month_start
month_end_bound leap m h = ground arith

-- The fields of a day that lies on a date of a month of a year.
module _ (y m date day : ℕ) (month_in : m < 12) (lo : 0 < date)
    (hi : date + month_start (is_leap y) m ≤ month_start (is_leap y) (m + 1))
    (at : day ≡ year_start y + month_start (is_leap y) m + date - 1) where
  year_is : year_of day ≡ y
  year_is =
      year_of-eq y day (omega arith)
        (ground (arith, month_end_bound (is_leap y) m, year_start-suc y))

  nth_is : nth_day day ≡ month_start (is_leap y) m + date - 1
  unfolding nth_day
  nth_is = omega (arith, ap year_start year_is)

  month_is : month_of (is_leap (year_of day)) (nth_day day) ≡ m
  month_is =
      rw (year_is, nth_is)
        (month_of-eq (is_leap y) m (month_start (is_leap y) m + date - 1) month_in (omega arith)
          (omega arith))

  date_is : nth_day day - month_start (is_leap (year_of day)) m + 1 ≡ date
  date_is = rw (year_is, nth_is) (omega arith)

  fields_of : civil_of day ≡ record { year = y; month = m; date = date }
  unfolding civil_of nth_day
  fields_of = ground (arith, year_is, month_is, date_is)

-- `Date.UTC` of a date that its month has gives these fields.
pub civil_of-make_day :
    (months date : ℕ)
    → 0 < date
    → date + month_start (is_leap (months / 12)) (months % 12)
      ≤ month_start (is_leap (months / 12)) (months % 12 + 1)
    → civil_of (make_day months date)
      ≡ record { year = months / 12; month = months % 12; date = date }
unfolding make_day
civil_of-make_day months date lo hi =
    fields_of (months / 12) (months % 12) date (make_day months date) (omega arith) lo hi refl
