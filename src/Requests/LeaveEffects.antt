-- ===== src/Requests/LeaveEffects.antt =====
-- request-effects.service.ts: the days that a leave takes, the balance that they are charged to, and
-- the approved requests for leave.
use able_work.Base.{
  ℕ, ◌+◌, ◌-◌, ◌*◌, ◌/◌, ◌%◌, zero, suc, Bool, false, ◌&&◌, ◌||◌, Option, none, some, List, [], ◌∷◌,
  ltb, if◌then◌else◌, ◌==◌, nat_eq, not, or_else, or_option, find, filter, any, map, head?,
  includes,
}
use able_work.Base.Int.{pos, ◌-ℤ◌}
use able_work.Errors.{Error, Result, ok, ◌>>=◌, ◌>>◌, guard}
use able_work.Calendar.{civil_of}
use able_work.Leaves.Types.{
  TimeOption, LeaveType, Leave, CompanyHoliday, LeaveStore, time_option_eq,
}
use able_work.Leaves.Accrual.{update_balance}
use able_work.Leaves.Groups.{found_or}
use able_work.Leaves.Service.{instant, validate_balance, take_leave, moved}
use able_work.Requests.Types.{Payload, Env}

-- A holiday of the company, on its date or on the same day of every year.
unfoldable pub is_holiday : ℕ → List CompanyHoliday → ℕ → Bool
unfolding civil_of
is_holiday company_id holidays day =
    any
      (λ h.
        h.company_id == company_id
        && (if h.is_annual_repeat
            then (civil_of h.holiday_date).month == (civil_of day).month
              && (civil_of h.holiday_date).date == (civil_of day).date
            else h.holiday_date == day))
      holidays

-- `getUTCDay()` is 0 or 6; day 0 is a Saturday.
unfoldable pub is_weekend : ℕ → Bool
is_weekend day = day % 7 == 0 || day % 7 == 1

-- The loop over `n` days from a day on.
unfoldable pub count_days : (ℕ → Bool) → ℕ → ℕ → ℕ
count_days off day zero = 0
count_days off day (suc n) =
    let rest = count_days off (suc day) n in if off day then rest else suc rest

unfoldable pub count_business_days : ℕ → List CompanyHoliday → ℕ → ℕ → ℕ
unfolding is_holiday is_weekend count_days
count_business_days company_id holidays start_date end_date =
    if ltb end_date start_date
    then 0
    else count_days (λ d. is_weekend d || is_holiday company_id holidays d) start_date
        (end_date - start_date + 1)

unfoldable pub calc_leave_days_used : ℕ → List CompanyHoliday → ℕ → ℕ → ℕ → ℕ
unfolding count_business_days
calc_leave_days_used company_id holidays start_date end_date deduction_days =
    let n = count_business_days company_id holidays start_date end_date in
    (if n == 0 then 1 else n) * (if ltb 0 deduction_days then deduction_days else 100)

-- The minutes of times of two digits each for which the language's binary fractions of
-- (minutes / 60 / 8) * 100 fall below a half that the exact quotient meets.
abbrev rounded_down : List ℕ
rounded_down =
    276 ∷ 492 ∷ 612 ∷ 1044 ∷ 1164 ∷ 2028 ∷ 2148 ∷ 2268 ∷ 2388 ∷ 3876 ∷ 3996 ∷ 4116 ∷ 4236 ∷ 4356
    ∷ 4476 ∷ 4596 ∷ 4716 ∷ 4836 ∷ []

-- `Math.round((hours / 8) * 100)`
unfoldable pub day_hundredths : ℕ → ℕ
unfolding includes
day_hundredths minutes =
    let n = (minutes * 100 + 240) / 480 in if includes rounded_down minutes then n - 1 else n

-- The minutes between two times (`hoursBetween`), 0 where one is missing or they do not ascend.
unfoldable pub minutes_between : Option ℕ → Option ℕ → ℕ
minutes_between none end = 0
minutes_between (some start) none = 0
minutes_between (some start) (some end) = end - start

unfoldable pub compute_leave_days_used :
    ℕ → List CompanyHoliday → LeaveType → ℕ → ℕ → Option ℕ → Option ℕ → Result ℕ
unfolding minutes_between day_hundredths calc_leave_days_used
compute_leave_days_used company_id holidays leave_type start_date end_date start_time end_time =
    if leave_type.time_option == TimeOption.hourly
    then (do
      let minutes = minutes_between start_time end_time
      guard (ltb 0 minutes) Error.leave_time_invalid
      guard (not (elim leave_type.paid_hours [ none ↦ false | some h ↦ ltb (h * 60) minutes ]))
          Error.leave_time_exceeds_limit
      ok (day_hundredths minutes))
    else ok (calc_leave_days_used company_id holidays start_date end_date leave_type.deduction_days)

-- The types that may represent a group: the active ones, or all if none is.
unfoldable pub representative_pool : ℕ → List LeaveType → List LeaveType
representative_pool group_id types =
    let of_group = filter (λ t. t.group_id == group_id) types in
    if any (λ (t : LeaveType). t.is_active) of_group
    then filter (λ (t : LeaveType). t.is_active) of_group
    else of_group

unfoldable pub resolve_balance_type_id : ℕ → List LeaveType → ℕ
unfolding representative_pool
resolve_balance_type_id leave_type_id types = elim (find (λ t. t.id == leave_type_id) types) [
  | none ↦ leave_type_id
  | some lt ↦
      let pool = representative_pool lt.group_id types in
      elim (or_option
        (find (λ t. t.deduction_days == 100 && t.time_option == TimeOption.full_day) pool)
        (head? pool)) [ none ↦ leave_type_id | some rep ↦ rep.id ]
]

-- What the code takes from the payload without a test.
abbrev pub required : Option ℕ → Result ℕ
required a = found_or a Error.invalid_query

module _ (env : Env) (company_id employee_id : ℕ) (payload : Payload) where
  unfoldable pub validate_leave_create_payload : LeaveStore → Result (Unit {0})
  unfolding compute_leave_days_used resolve_balance_type_id validate_balance
  validate_leave_create_payload st = do
    leave_type_id ← found_or payload.leave_type_id Error.request_payload_invalid
    start_date ← found_or payload.start_date Error.request_payload_invalid
    end_date ← found_or payload.end_date Error.request_payload_invalid
    leave_type ← found_or (find (λ t. t.id == leave_type_id) st.types) Error.leave_type_not_found
    guard leave_type.is_active Error.leave_type_inactive
    guard (not (leave_type.time_option == TimeOption.hourly && not (start_date == end_date)))
        Error.leave_time_same_day_only
    days_used ←
        compute_leave_days_used company_id st.holidays leave_type start_date end_date
          payload.start_time payload.end_time
    _ ←
        validate_balance employee_id (resolve_balance_type_id leave_type_id st.types) days_used
          (instant start_date) (env.local_year (instant start_date)) st.balances
    ok tt

  unfoldable pub apply_leave_create : LeaveStore → Result LeaveStore
  unfolding compute_leave_days_used resolve_balance_type_id validate_balance take_leave
  apply_leave_create st = do
    leave_type_id ← required payload.leave_type_id
    start_date ← required payload.start_date
    leave_type ← found_or (find (λ t. t.id == leave_type_id) st.types) Error.leave_type_not_found
    let is_hourly = leave_type.time_option == TimeOption.hourly
    effective_end_date ← if is_hourly then ok start_date else required payload.end_date
    days_used ←
        compute_leave_days_used company_id st.holidays leave_type start_date effective_end_date
          payload.start_time payload.end_time
    let year = env.local_year (instant start_date)
    let balance_type_id = resolve_balance_type_id leave_type_id st.types
    _ ← validate_balance employee_id balance_type_id days_used (instant start_date) year st.balances
    ok (
        take_leave
          (record {
            id = st.drawn;
            employee_id = employee_id;
            leave_type_id = leave_type_id;
            start_date = start_date;
            end_date = effective_end_date;
            start_time = if is_hourly then payload.start_time else none;
            end_time = if is_hourly then payload.end_time else none;
            days_used = days_used;
          })
          balance_type_id year st)

  -- The requester's own leave in the company.
  unfoldable pub own_leave : ℕ → LeaveStore → Result Leave
  own_leave leave_id st =
      found_or
        (find
          (λ l.
            l.id == leave_id
            && l.employee_id == employee_id
            && any (λ e. e.id == l.employee_id && e.company_id == company_id) st.employees)
          st.leaves)
        Error.leave_not_found

  -- The foreign key of a leave gives its type.
  unfoldable pub apply_leave_modify : LeaveStore → Result LeaveStore
  unfolding own_leave compute_leave_days_used resolve_balance_type_id update_balance moved
  apply_leave_modify st = do
    leave_id ← required payload.leave_id
    leave ← own_leave leave_id st
    leave_type ←
        found_or (find (λ t. t.id == leave.leave_type_id) st.types) Error.leave_type_not_found
    let is_hourly = leave_type.time_option == TimeOption.hourly
    let new_start = or_else payload.start_date leave.start_date
    let new_end = if is_hourly then new_start else or_else payload.end_date leave.end_date
    new_days_used ←
        compute_leave_days_used company_id st.holidays leave_type new_start new_end
          payload.start_time payload.end_time
    ok (record st {
      leaves =
          map
            (λ l.
              if l.id == leave_id
              then record l {
                start_date = new_start;
                end_date = new_end;
                start_time = if is_hourly then payload.start_time else l.start_time;
                end_time = if is_hourly then payload.end_time else l.end_time;
                days_used = new_days_used;
              }
              else l)
            st.leaves;
      balances =
          if new_days_used == leave.days_used
          then st.balances
          else update_balance employee_id (resolve_balance_type_id leave.leave_type_id st.types)
              (env.local_year (instant leave.start_date))
              (moved (pos new_days_used -ℤ pos leave.days_used)) st.balances;
    })

  unfoldable pub apply_leave_delete : LeaveStore → Result LeaveStore
  unfolding own_leave resolve_balance_type_id update_balance moved
  apply_leave_delete st = do
    leave_id ← required payload.leave_id
    leave ← own_leave leave_id st
    ok (record st {
      leaves = filter (λ l. not (l.id == leave_id)) st.leaves;
      balances =
          update_balance leave.employee_id (resolve_balance_type_id leave.leave_type_id st.types)
            (env.local_year (instant leave.start_date)) (moved (pos 0 -ℤ pos leave.days_used))
            st.balances;
    })
