-- ===== src/Leaves/Accrual.antt =====
-- leave-accrual.service.ts: what a rule accrues for an employee, and its application to balances.
use able_work.Base.{
  ℕ, suc, ◌+◌, ◌-◌, ◌*◌, ◌/◌, ◌%◌, Bool, true, false, ◌&&◌, Option, none, some, List, [], ◌∷◌, ltb,
  leb, if◌then◌else◌, ◌==◌, nat_eq, or_else, or_option, find, filter, head?, includes, map, sort_by,
  ascending, descending,
}
use able_work.Base.Int.{pos, ◌+ℤ◌, ◌-ℤ◌, leb_ℤ}
use able_work.Errors.{Error, Result, ok, err}
use able_work.Calendar.{ms_per_day, make_day, month_index, civil_of}
use able_work.Leaves.Types.{
  TimeOption, LeaveType, AccrualBasis, MonthDay, AccrualItem, AccrualRule, LeaveBalance, Employee,
  LeaveStore, time_option_eq,
}

-- The representative type of a group: the first with one day's deduction by full days, else the
-- first one.
unfoldable pub pick_representative : List LeaveType → Option LeaveType
pick_representative types =
    or_option (find (λ t. t.deduction_days == 100 && t.time_option == TimeOption.full_day) types)
      (head? types)

-- `Date.UTC(year, month, date)` as an instant; `months` is year * 12 + month.
abbrev pub utc : ℕ → ℕ → ℕ
utc months date = make_day months date * ms_per_day

unfoldable pub date_from_md : ℕ → MonthDay → ℕ
date_from_md year md = utc (year * 12 + md.month - 1) md.day

-- `setUTCMonth(getUTCMonth() + months)`
unfoldable pub add_months : ℕ → ℕ → ℕ
add_months at months =
    let day = at / ms_per_day in
    utc (month_index day + months) (civil_of day).date + at % ms_per_day

-- The whole months by a mean length of 30.44 days.
unfoldable pub calc_tenure_months : ℕ → ℕ → ℕ
calc_tenure_months joined_at reference =
    if ltb reference joined_at then 0 else (reference - joined_at) / 2_630_016_000

unfoldable pub threshold_of : AccrualItem → ℕ
threshold_of item = elim item.accrual_basis [
  | AccrualBasis.yearly ↦ or_else item.tenure_years 0 * 12
  | AccrualBasis.monthly ↦ or_else item.tenure_months 0
]

-- `item.validMonths`, where 0 counts as missing.
abbrev valid_months_of : AccrualItem → Option ℕ
valid_months_of item = elim item.valid_months [
  | none ↦ none
  | some n ↦ if n == 0 then none else some n
]

unfoldable pub calc_expires_at : AccrualItem → ℕ → ℕ → Option ℕ
unfolding date_from_md add_months
calc_expires_at item joined_at year = elim item.period_start_md [
  | some start_md ↦
      let period_start = date_from_md year start_md in
      elim item.period_end_md [
        | some end_md ↦
            let same_year_end = date_from_md year end_md in
            some (
              if ltb same_year_end period_start
              then date_from_md (year + 1) end_md
              else same_year_end)
        | none ↦ elim (valid_months_of item) [
          | none ↦ none
          | some n ↦ some (add_months period_start n)
        ]
      ]
  | none ↦ elim (valid_months_of item) [
    | none ↦ none
    | some n ↦
        let joined = civil_of (joined_at / ms_per_day) in
        some (add_months (utc (year * 12 + joined.month) joined.date) n)
  ]
]

-- The later of the year's start and the joining, from which the months are counted.
abbrev pub accrual_start : ℕ → ℕ → ℕ
accrual_start joined_at year =
    let year_start = utc (year * 12) 1 in if ltb year_start joined_at then joined_at else year_start

-- The whole months between two instants, the first being the earlier.
unfoldable pub months_between : ℕ → ℕ → ℕ
months_between start reference =
    let from_day = start / ms_per_day in
    let to_day = reference / ms_per_day in
    let months = month_index to_day - month_index from_day in
    if ltb (civil_of to_day).date (civil_of from_day).date then months - 1 else months

unfoldable pub calc_monthly_accrual_count : ℕ → ℕ → ℕ → ℕ
unfolding months_between
calc_monthly_accrual_count joined_at year reference =
    let start = accrual_start joined_at year in
    let months = months_between start reference in
    if ltb reference start then 0 else if leb 12 months then 12 else months

pub record Accrual : Type 0 where
  pub target_days : ℕ
  pub expires_at : Option ℕ

-- The item of the highest threshold that the tenure reaches.
unfoldable pub applicable_item : List AccrualItem → ℕ → Option AccrualItem
unfolding threshold_of sort_by
applicable_item items tenure =
    find (λ item. leb (threshold_of item) tenure) (sort_by (descending threshold_of) items)

unfoldable pub calc_accrual_for_employee : List AccrualItem → ℕ → ℕ → ℕ → Option Accrual
unfolding applicable_item calc_tenure_months calc_expires_at calc_monthly_accrual_count
calc_accrual_for_employee items joined_at year reference =
    elim (applicable_item items (calc_tenure_months joined_at reference)) [
      | none ↦ none
      | some item ↦
          let expires_at = calc_expires_at item joined_at year in
          elim item.accrual_basis [
            | AccrualBasis.monthly ↦
                let months = calc_monthly_accrual_count joined_at year reference in
                if months == 0
                then none
                else some
                    (record { target_days = item.accrual_days * months; expires_at = expires_at })
            | AccrualBasis.yearly ↦
                some (record { target_days = item.accrual_days; expires_at = expires_at })
          ]
    ]

unfoldable pub clamp_to_year : ℕ → ℕ → ℕ
clamp_to_year at year =
    let year_start = utc (year * 12) 1 in
    let year_end = utc (year * 12 + 11) 31 in
    if ltb at year_start then year_start else if ltb year_end at then year_end else at

-- The key of the unique index.
abbrev pub is_balance : ℕ → ℕ → ℕ → LeaveBalance → Bool
is_balance employee_id leave_type_id year b =
    b.employee_id == employee_id && b.leave_type_id == leave_type_id && b.year == year

unfoldable pub find_balance : ℕ → ℕ → ℕ → List LeaveBalance → Option LeaveBalance
find_balance employee_id leave_type_id year = find (is_balance employee_id leave_type_id year)

-- `leaveBalance.update({ where: key, data })`
unfoldable pub update_balance :
    ℕ → ℕ → ℕ → (LeaveBalance → LeaveBalance) → List LeaveBalance → List LeaveBalance
update_balance employee_id leave_type_id year f =
    map (λ b. if is_balance employee_id leave_type_id year b then f b else b)

unfoldable pub new_balance : ℕ → ℕ → ℕ → ℕ → Option ℕ → LeaveBalance
new_balance employee_id leave_type_id year days expires_at = record {
  employee_id = employee_id;
  leave_type_id = leave_type_id;
  year = year;
  accrued_days = pos days;
  used_days = pos 0;
  remaining_days = pos days;
  expires_at = expires_at;
}

-- `accruedDays` is set to the target, the difference goes to `remainingDays`.
unfoldable pub raised : ℕ → Option ℕ → LeaveBalance → LeaveBalance
raised target expires_at b = record b {
  accrued_days = pos target;
  remaining_days = b.remaining_days +ℤ (pos target -ℤ b.accrued_days);
  expires_at = or_option expires_at b.expires_at;
}

unfoldable pub apply_accrual_target :
    ℕ → ℕ → ℕ → Accrual → List LeaveBalance → Bool × List LeaveBalance
unfolding find_balance update_balance new_balance raised
apply_accrual_target employee_id leave_type_id year accrual balances =
    elim (find_balance employee_id leave_type_id year balances) [
      | none ↦ (
        true,
        new_balance employee_id leave_type_id year accrual.target_days accrual.expires_at
            ∷ balances,
      )
      | some existing ↦
          if leb_ℤ (pos accrual.target_days) existing.accrued_days then (false, balances) else (
            true,
            update_balance employee_id leave_type_id year
                (raised accrual.target_days accrual.expires_at) balances,
          )
    ]

-- The loop over the employees: how many rows were written, and the balances.
unfoldable pub apply_all :
    List AccrualItem → ℕ → ℕ → ℕ → List Employee → ℕ → List LeaveBalance → ℕ × List LeaveBalance
unfolding calc_accrual_for_employee apply_accrual_target
apply_all items leave_type_id year reference [] processed balances = (processed, balances)
apply_all items leave_type_id year reference (e ∷ es) processed balances =
    elim (calc_accrual_for_employee items e.joined_at year reference) [
      | none ↦ apply_all items leave_type_id year reference es processed balances
      | some accrual ↦
          let (applied, after) = apply_accrual_target e.id leave_type_id year accrual balances in
          apply_all items leave_type_id year reference es
            (if applied then suc processed else processed) after
    ]

pub record RunAccrualRule : Type 0 where
  pub employee_id : Option ℕ
  pub employee_ids : Option (List ℕ)
  pub year : ℕ

-- The employees that the request names: the list, else the single one, else all.
unfoldable pub target_employee_ids : RunAccrualRule → Option (List ℕ)
target_employee_ids dto = elim (or_else dto.employee_ids []) [
  | x ∷ xs ↦ some (x ∷ xs)
  | [] ↦ elim dto.employee_id [ none ↦ none | some e ↦ some (e ∷ []) ]
]

unfoldable pub is_target : Option (List ℕ) → ℕ → Bool
unfolding includes
is_target none id = true
is_target (some ids) id = includes ids id

-- The active employees of the company that the request names.
unfoldable pub accrual_employees : ℕ → RunAccrualRule → List Employee → List Employee
unfolding is_target target_employee_ids
accrual_employees company_id dto =
    filter
      (λ e. e.company_id == company_id && e.is_active && is_target (target_employee_ids dto) e.id)

-- The active types of a group.
unfoldable pub active_types : ℕ → List LeaveType → List LeaveType
active_types group_id = filter (λ t. t.group_id == group_id && t.is_active)

-- The transaction: nothing is accrued without an employee or a representative type.
unfoldable pub accrue :
    AccrualRule → List Employee → Option LeaveType → ℕ → ℕ → LeaveStore → ℕ × LeaveStore
unfolding clamp_to_year apply_all sort_by
accrue rule [] target year now st = (0, st)
accrue rule (e ∷ es) none year now st = (0, st)
accrue rule (e ∷ es) (some target) year now st =
    let (processed, balances) =
      apply_all (sort_by (ascending (λ i. i.sort_order)) rule.items) target.id year
        (clamp_to_year now year) (e ∷ es) 0 st.balances in
    (processed, record st { balances = balances })

unfoldable pub run_accrual_rule : ℕ → ℕ → RunAccrualRule → ℕ → LeaveStore → Result (ℕ × LeaveStore)
unfolding accrual_employees active_types pick_representative accrue
run_accrual_rule company_id rule_id dto now st =
    elim (find (λ r. r.id == rule_id && r.company_id == company_id) st.rules) [
      | none ↦ err Error.accrual_rule_not_found
      | some rule ↦ ok (
          accrue rule (accrual_employees company_id dto st.employees)
            (pick_representative (active_types rule.leave_group_id st.types)) dto.year now st)
    ]
