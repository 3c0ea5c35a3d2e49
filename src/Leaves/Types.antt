-- ===== src/Leaves/Types.antt =====
-- The rows of the leave tables. An amount of days is kept in hundredths, as the decimal columns have
-- two places; a balance may fall below zero. Instants are milliseconds and dates days, both counted
-- as Calendar.antt does.
use able_work.Base.{ℕ, Bool, true, Option, List, Equality, nat_eq, nat_beq, ◌≡◌, ◌↔◌, arith}
use able_work.Base.Int.{ℤ}
use able_work.Access.{AccessLevel}

-- `timeOption`
pub data TimeOption : Type 0 where
  full_day half_day hourly : TimeOption

pub record LeaveGroup : Type 0 where
  pub id : ℕ
  pub company_id : ℕ
  pub is_active : Bool

pub record LeaveType : Type 0 where
  pub id : ℕ
  pub group_id : ℕ
  pub time_option : TimeOption
  pub paid_hours : Option ℕ
  pub deduction_days : ℕ
  pub is_active : Bool

pub data AccrualBasis : Type 0 where
  monthly yearly : AccrualBasis

-- A month and a day as a rule spells them, `MM-DD`.
pub record MonthDay : Type 0 where
  pub month : ℕ
  pub day : ℕ

pub record AccrualItem : Type 0 where
  pub accrual_basis : AccrualBasis
  pub tenure_months : Option ℕ
  pub tenure_years : Option ℕ
  pub accrual_days : ℕ
  pub valid_months : Option ℕ
  pub period_start_md : Option MonthDay
  pub period_end_md : Option MonthDay
  pub sort_order : ℕ

pub record AccrualRule : Type 0 where
  pub id : ℕ
  pub company_id : ℕ
  pub leave_group_id : ℕ
  pub is_active : Bool
  pub items : List AccrualItem

-- The unique index on employee, type and year makes these three the key of a row.
pub record LeaveBalance : Type 0 where
  pub employee_id : ℕ
  pub leave_type_id : ℕ
  pub year : ℕ
  pub accrued_days : ℤ
  pub used_days : ℤ
  pub remaining_days : ℤ
  pub expires_at : Option ℕ

pub record Leave : Type 0 where
  pub id : ℕ
  pub employee_id : ℕ
  pub leave_type_id : ℕ
  pub start_date : ℕ
  pub end_date : ℕ
  pub start_time : Option ℕ
  pub end_time : Option ℕ
  pub days_used : ℕ

-- A device id is a number here, as the ids are; the rows stand in the order of their creation.
pub record Employee : Type 0 where
  pub id : ℕ
  pub company_id : ℕ
  pub is_active : Bool
  pub joined_at : ℕ
  pub access_level : AccessLevel
  pub position_ids : List ℕ
  pub device_id : Option ℕ

pub record CompanyHoliday : Type 0 where
  pub company_id : ℕ
  pub holiday_date : ℕ
  pub is_annual_repeat : Bool

pub record LeaveStore : Type 0 where
  pub groups : List LeaveGroup
  pub types : List LeaveType
  pub rules : List AccrualRule
  pub balances : List LeaveBalance
  pub leaves : List Leave
  pub employees : List Employee
  pub holidays : List CompanyHoliday
  pub drawn : ℕ

abbrev option_code : TimeOption → ℕ
option_code TimeOption.full_day = 0
option_code TimeOption.hourly = 1
option_code TimeOption.half_day = 2

abbrev time_option_beq : TimeOption → TimeOption → Bool
time_option_beq a b = nat_beq (option_code a) (option_code b)

pub time_option_beq_iff : (a b : TimeOption) → (time_option_beq a b ≡ true) ↔ (a ≡ b)
time_option_beq_iff a b = ground arith

instance abbrev pub time_option_eq : Equality TimeOption
time_option_eq = record { same = time_option_beq; same_iff = time_option_beq_iff }
