-- ===== src/Leaves/Tests.antt =====
-- A company with one group of leave, on which the theorems of the leaves are instantiated.
use able_work.Base.{◌+◌, ◌*◌, ◌≤◌, ◌≡◌, true, none, List, [], ◌∷◌, arith}
use able_work.Base.Int.{pos}
use able_work.Access.{AccessLevel}
use able_work.Leaves.Types.{
  TimeOption, LeaveGroup, LeaveType, AccrualBasis, AccrualItem, AccrualRule, LeaveBalance, Employee,
  LeaveStore,
}
use able_work.Leaves.Accrual.{utc, clamp_to_year, calc_monthly_accrual_count, RunAccrualRule}
use able_work.Leaves.Months.{
  calc_monthly_accrual_count_mono, calc_monthly_accrual_count_bound,
  calc_monthly_accrual_count_past,
}

abbrev annual_group : LeaveGroup
annual_group = record { id = 10; company_id = 1; is_active = true }

abbrev pub annual_leave : LeaveType
annual_leave = record {
  id = 20;
  group_id = 10;
  time_option = TimeOption.full_day;
  paid_hours = none;
  deduction_days = 100;
  is_active = true;
}

-- Fifteen days a year, from the first day on.
abbrev yearly_item : AccrualItem
yearly_item = record {
  accrual_basis = AccrualBasis.yearly;
  tenure_months = none;
  tenure_years = none;
  accrual_days = 1500;
  valid_months = none;
  period_start_md = none;
  period_end_md = none;
  sort_order = 0;
}

abbrev yearly_rule : AccrualRule
yearly_rule = record {
  id = 30;
  company_id = 1;
  leave_group_id = 10;
  is_active = true;
  items = yearly_item ∷ [];
}

abbrev pub kim : Employee
kim = record {
  id = 40;
  company_id = 1;
  is_active = true;
  joined_at = 63_000_000_000_000;
  access_level = AccessLevel.employee;
  position_ids = [];
  device_id = none;
}

abbrev pub leaves_at : List LeaveBalance → LeaveStore
leaves_at balances = record {
  groups = annual_group ∷ [];
  types = annual_leave ∷ [];
  rules = yearly_rule ∷ [];
  balances = balances;
  leaves = [];
  employees = kim ∷ [];
  holidays = [];
  drawn = 100;
}

abbrev pub fifteen_days : LeaveBalance
fifteen_days = record {
  employee_id = 40;
  leave_type_id = 20;
  year = 2024;
  accrued_days = pos 1500;
  used_days = pos 0;
  remaining_days = pos 1500;
  expires_at = none;
}

abbrev everyone : RunAccrualRule
everyone = record { employee_id = none; employee_ids = none; year = 2024 }

calc_monthly_accrual_count_mono_example :
    calc_monthly_accrual_count 63_000_000_000_000 2024 63_873_000_000_000
    ≤ calc_monthly_accrual_count 63_000_000_000_000 2024 63_880_000_000_000
calc_monthly_accrual_count_mono_example =
    calc_monthly_accrual_count_mono 63_000_000_000_000 2024 63_873_000_000_000 63_880_000_000_000
      (omega arith)

calc_monthly_accrual_count_bound_example :
    calc_monthly_accrual_count 63_000_000_000_000 2024 (clamp_to_year 64_000_000_000_000 2024) ≤ 11
calc_monthly_accrual_count_bound_example =
    calc_monthly_accrual_count_bound 63_000_000_000_000 64_000_000_000_000 2024

calc_monthly_accrual_count_past_example :
    calc_monthly_accrual_count 0 2024 (clamp_to_year (utc (2024 * 12 + 11) 31) 2024) ≡ 11
calc_monthly_accrual_count_past_example =
    calc_monthly_accrual_count_past 0 (utc (2024 * 12 + 11) 31) 2024 (omega arith) (omega arith)
