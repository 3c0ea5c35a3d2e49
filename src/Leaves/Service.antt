-- ===== src/Leaves/Service.antt =====
-- leaves.service.ts: grants, the administrator's leave and the balances that they write, and
-- leave-accrual.scheduler.ts. The instant of a day `d` is its midnight in UTC; the year of an instant
-- on the server's clock (`getFullYear`) is a parameter. Events and the audit log are left out.
use able_work.Base.{
  ℕ, ◌+◌, ◌-◌, ◌*◌, ◌/◌, Bool, true, false, ◌&&◌, ◌||◌, Option, none, some, List, [], ◌∷◌, ltb,
  if◌then◌else◌, ◌==◌, nat_eq, not, or_option, filter, map,
}
use able_work.Base.Int.{ℤ, pos, ◌+ℤ◌, ◌-ℤ◌, ltb_ℤ}
use able_work.Access.{AccessLevel, JwtPayload}
use able_work.Errors.{Error, Result, ok, err, ◌>>=◌, ◌>>◌, guard}
use able_work.Calendar.{ms_per_day}
use able_work.Leaves.Types.{AccrualRule, LeaveBalance, Leave, LeaveStore}
use able_work.Leaves.Accrual.{
  find_balance, update_balance, new_balance, RunAccrualRule, run_accrual_rule,
}
use able_work.Leaves.Groups.{
  found_or, assert_employee_belongs_to_company, assert_type_belongs_to_company,
}

abbrev pub instant : ℕ → ℕ
instant day = day * ms_per_day

-- The update branch of the upsert.
unfoldable pub granted : ℕ → Option ℕ → LeaveBalance → LeaveBalance
granted days expires_at b = record b {
  accrued_days = b.accrued_days +ℤ pos days;
  remaining_days = b.remaining_days +ℤ pos days;
  expires_at = or_option expires_at b.expires_at;
}

unfoldable pub upsert_accrued_balance :
    ℕ → ℕ → ℕ → ℕ → Option ℕ → List LeaveBalance → List LeaveBalance
unfolding find_balance update_balance new_balance granted
upsert_accrued_balance employee_id leave_type_id year days expires_at balances =
    elim (find_balance employee_id leave_type_id year balances) [
      | none ↦ new_balance employee_id leave_type_id year days expires_at ∷ balances
      | some _ ↦ update_balance employee_id leave_type_id year (granted days expires_at) balances
    ]

pub record ManualAccrual : Type 0 where
  pub employee_ids : List ℕ
  pub leave_type_id : ℕ
  pub year : ℕ
  pub days : ℕ
  pub expires_at : Option ℕ

unfoldable pub assert_employees : ℕ → List ℕ → LeaveStore → Result (Unit {0})
unfolding assert_employee_belongs_to_company
assert_employees company_id [] st = ok tt
assert_employees company_id (e ∷ es) st = do
  _ ← assert_employee_belongs_to_company company_id e st
  assert_employees company_id es st

unfoldable pub upsert_all : ManualAccrual → List ℕ → List LeaveBalance → List LeaveBalance
unfolding upsert_accrued_balance
upsert_all dto [] balances = balances
upsert_all dto (e ∷ es) balances =
    upsert_all dto es
      (upsert_accrued_balance e dto.leave_type_id dto.year dto.days dto.expires_at balances)

unfoldable pub manual_accrual : ℕ → ManualAccrual → LeaveStore → Result LeaveStore
unfolding assert_employees assert_type_belongs_to_company upsert_all
manual_accrual company_id dto st = do
  _ ← assert_employees company_id dto.employee_ids st
  _ ← assert_type_belongs_to_company company_id dto.leave_type_id st
  ok (record st { balances = upsert_all dto dto.employee_ids st.balances })

pub record CompensationLeave : Type 0 where
  pub employee_id : ℕ
  pub leave_type_id : ℕ
  pub year : ℕ
  pub days : ℕ
  pub expires_at : Option ℕ

unfoldable pub create_compensation_leave : ℕ → CompensationLeave → LeaveStore → Result LeaveStore
unfolding assert_employee_belongs_to_company assert_type_belongs_to_company upsert_accrued_balance
create_compensation_leave company_id dto st = do
  _ ← assert_employee_belongs_to_company company_id dto.employee_id st
  _ ← assert_type_belongs_to_company company_id dto.leave_type_id st
  ok (record st {
    balances =
        upsert_accrued_balance dto.employee_id dto.leave_type_id dto.year dto.days dto.expires_at
          st.balances;
  })

abbrev is_manager : AccessLevel → Bool
is_manager AccessLevel.employee = false
is_manager AccessLevel.org_admin = true
is_manager AccessLevel.general_admin = true
is_manager AccessLevel.super_admin = true

unfoldable pub get_balance : ℕ → ℕ → JwtPayload → LeaveStore → Result (List LeaveBalance)
unfolding assert_employee_belongs_to_company
get_balance company_id employee_id requester st = do
  guard (employee_id == requester.employee_id || is_manager requester.access_level)
      Error.leave_balance_forbidden
  _ ← assert_employee_belongs_to_company company_id employee_id st
  ok (filter (λ b. b.employee_id == employee_id) st.balances)

-- Calendar days with both ends, times the type's deduction.
unfoldable pub calc_leave_days_used : ℕ → ℕ → ℕ → ℕ
calc_leave_days_used start_date end_date deduction_days =
    let calendar_days = if ltb end_date start_date then 1 else end_date - start_date + 1 in
    calendar_days * (if ltb 0 deduction_days then deduction_days else 100)

-- `balance.expiresAt && balance.expiresAt < at`
unfoldable pub has_expired : Option ℕ → ℕ → Bool
has_expired none at = false
has_expired (some expires_at) at = ltb expires_at at

unfoldable pub validate_balance : ℕ → ℕ → ℕ → ℕ → ℕ → List LeaveBalance → Result LeaveBalance
unfolding find_balance has_expired
validate_balance employee_id leave_type_id days_used start_date year balances = do
  balance ←
      found_or (find_balance employee_id leave_type_id year balances) Error.leave_balance_not_found
  guard (not (ltb_ℤ balance.remaining_days (pos days_used))) Error.leave_balance_insufficient
  guard (not (has_expired balance.expires_at start_date)) Error.leave_balance_expired
  ok balance

-- `usedDays: { increment }, remainingDays: { decrement }`, where the amount may be negative.
unfoldable pub moved : ℤ → LeaveBalance → LeaveBalance
moved days b = record b {
  used_days = b.used_days +ℤ days;
  remaining_days = b.remaining_days -ℤ days;
}

pub record CreateLeave : Type 0 where
  pub employee_id : ℕ
  pub leave_type_id : ℕ
  pub start_date : ℕ
  pub end_date : ℕ

-- The store with a new leave and the days taken from a balance.
unfoldable pub take_leave : Leave → ℕ → ℕ → LeaveStore → LeaveStore
unfolding update_balance moved
take_leave leave balance_type_id year st = record st {
  leaves = leave ∷ st.leaves;
  balances =
      update_balance leave.employee_id balance_type_id year (moved (pos leave.days_used))
        st.balances;
  drawn = st.drawn + 1;
}

module _ (local_year : ℕ → ℕ) where
  unfoldable pub create_leave : ℕ → CreateLeave → LeaveStore → Result LeaveStore
  unfolding assert_employee_belongs_to_company assert_type_belongs_to_company calc_leave_days_used
      validate_balance take_leave
  create_leave company_id dto st = do
    _ ← assert_employee_belongs_to_company company_id dto.employee_id st
    leave_type ← assert_type_belongs_to_company company_id dto.leave_type_id st
    let days_used = calc_leave_days_used dto.start_date dto.end_date leave_type.deduction_days
    let start_date = instant dto.start_date
    let year = local_year start_date
    _ ← validate_balance dto.employee_id dto.leave_type_id days_used start_date year st.balances
    ok (
        take_leave
          (record {
            id = st.drawn;
            employee_id = dto.employee_id;
            leave_type_id = dto.leave_type_id;
            start_date = dto.start_date;
            end_date = dto.end_date;
            start_time = none;
            end_time = none;
            days_used = days_used;
          })
          dto.leave_type_id year st)

  -- The active rules of active companies run for the year of the clock; a rule that fails is passed
  -- over.
  unfoldable pub run_rules : ℕ → List AccrualRule → LeaveStore → LeaveStore
  unfolding run_accrual_rule
  run_rules now [] st = st
  run_rules now (r ∷ rs) st =
      let dto : RunAccrualRule = record {
        employee_id = none;
        employee_ids = none;
        year = local_year now;
      } in
      elim (run_accrual_rule r.company_id r.id dto now st) [
        | ok (_, after) ↦ run_rules now rs after
        | err _ ↦ run_rules now rs st
      ]

-- The remaining days of a balance that expired before today are lost.
unfoldable pub expire_overdue_balances : ℕ → List LeaveBalance → List LeaveBalance
unfolding has_expired
expire_overdue_balances now = map (λ b.
    if has_expired b.expires_at (instant (now / ms_per_day)) && ltb_ℤ (pos 0) b.remaining_days
    then record b { remaining_days = pos 0 }
    else b)

module _ (local_year : ℕ → ℕ) (is_active_company : ℕ → Bool) where
  unfoldable pub handle_daily_accrual : ℕ → LeaveStore → LeaveStore
  unfolding run_rules expire_overdue_balances
  handle_daily_accrual now st =
      let after =
        run_rules local_year now
          (filter (λ r. r.is_active && is_active_company r.company_id) st.rules) st in
      record after { balances = expire_overdue_balances now after.balances }
