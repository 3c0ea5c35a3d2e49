-- ===== src/Requests/Charge.antt =====
-- request-effects.service.ts beside leaves.service.ts and leave-accrual.service.ts: the days that a
-- leave is charged, and the type whose balance is charged.
use able_work.Base.{
  ℕ, zero, suc, ◌+◌, ◌-◌, ◌≤◌, ◌<◌, ◌||◌, Bool, true, false, ◌&&◌, some, List, [], ◌∷◌, ◌≡◌, ◌≢◌,
  Option, subst, refl, sym, ltb, if◌then◌else◌, ◌==◌, nat_eq, find, filter, Bool-cases, inl, inr,
  arith, Memᴰ, find-mem, any_of_mem, mem-filter_of,
}
use native.Mathlib.Nat.{mul-le-mul_right}
use able_work.Errors.{ok}
use able_work.Leaves.Types.{TimeOption, LeaveType, CompanyHoliday, time_option_eq}
use able_work.Leaves.Accrual.{pick_representative, active_types}
use able_work.Leaves.Service
use able_work.Requests.LeaveEffects.{
  compute_leave_days_used, count_days, count_business_days, calc_leave_days_used, is_holiday,
  is_weekend, representative_pool, resolve_balance_type_id,
}

count_days_bound : (off : ℕ → Bool) (day n : ℕ) → count_days off day n ≤ n
unfolding count_days
count_days_bound off day zero = omega arith
count_days_bound off day (suc n) = let rest = count_days_bound off (suc day) n in ground arith

-- A split of the days splits their count.
count_days-add :
    (off : ℕ → Bool) (day m n : ℕ)
    → count_days off day (m + n) ≡ count_days off day m + count_days off (day + m) n
unfolding count_days
count_days-add off day zero n =
    let sum : 0 + n ≡ n = omega arith in
    let same : day + 0 ≡ day = omega arith in rw (sum, same) (omega arith)
count_days-add off day (suc m) n =
    let at : suc day + m ≡ day + suc m = omega arith in
    let sum : suc m + n ≡ suc (m + n) = omega arith in
    rw (sum, sym at)
      (elim (Bool-cases (off day)) [
        | inl hit ↦ rw hit (count_days-add off (suc day) m n)
        | inr miss ↦ rw miss (omega (arith, count_days-add off (suc day) m n))
      ])

-- The business days of a leave that is split at a day are those of its two parts.
pub count_business_days-split :
    (company_id : ℕ) (holidays : List CompanyHoliday) (start_date mid end_date : ℕ)
    → start_date ≤ mid
    → mid < end_date
    → count_business_days company_id holidays start_date end_date
      ≡ count_business_days company_id holidays start_date mid
        + count_business_days company_id holidays (suc mid) end_date
unfolding count_business_days
count_business_days-split c hs from mid to lo hi =
    let off : ℕ → Bool = λ day. is_weekend day || is_holiday c hs day in
    let first : ltb mid from ≡ false = ground arith in
    let second : ltb to (suc mid) ≡ false = ground arith in
    let whole : ltb to from ≡ false = ground arith in
    let days : (mid - from + 1) + (to - suc mid + 1) ≡ to - from + 1 = omega arith in
    let at : from + (mid - from + 1) ≡ suc mid = omega arith in
    rw
      (
        first,
        second,
        whole,
        sym days,
        count_days-add off from (mid - from + 1) (to - suc mid + 1),
        at,
      )
      refl

calc_leave_days_used-le :
    (company_id : ℕ) (holidays : List CompanyHoliday) (start_date end_date deduction_days : ℕ)
    → calc_leave_days_used company_id holidays start_date end_date deduction_days
      ≤ Service.calc_leave_days_used start_date end_date deduction_days
unfolding calc_leave_days_used count_business_days Service.calc_leave_days_used
calc_leave_days_used-le c hs from to d = mul-le-mul_right (if ltb 0 d then d else 100) (
    ground
      (arith, count_days_bound (λ day. is_weekend day || is_holiday c hs day) from (to - from + 1)))

-- A request for a leave of a type that is not counted by hours charges at most the days that the
-- administrator's entry of the same leave does.
pub compute_leave_days_used-le :
    (company_id : ℕ) (holidays : List CompanyHoliday) (leave_type : LeaveType)
    (start_date end_date : ℕ) (start_time end_time : Option ℕ) (days : ℕ)
    → leave_type.time_option ≢ TimeOption.hourly
    → compute_leave_days_used company_id holidays leave_type start_date end_date start_time end_time
      ≡ ok days
    → days ≤ Service.calc_leave_days_used start_date end_date leave_type.deduction_days
unfolding compute_leave_days_used
compute_leave_days_used-le c hs t from to start end days by_day charged =
    let same : calc_leave_days_used c hs from to t.deduction_days ≡ days =
      ground (arith, charged) in
    subst (λ n. n ≤ Service.calc_leave_days_used from to t.deduction_days) same
      (calc_leave_days_used-le c hs from to t.deduction_days)

filter-filter :
    (p q : LeaveType → Bool) (ts : List LeaveType)
    → filter q (filter p ts) ≡ filter (λ t. p t && q t) ts
filter-filter p q [] = refl
filter-filter p q (t ∷ ts) =
    let rest = filter-filter p q ts in
    elim (Bool-cases (p t)) [ inl hit ↦ rw (hit, rest) refl | inr miss ↦ rw (miss, rest) refl ]

pool-active :
    (t : LeaveType) (types : List LeaveType)
    → Memᴰ t types
    → t.is_active ≡ true
    → representative_pool t.group_id types ≡ active_types t.group_id types
unfolding representative_pool active_types
pool-active t types m active =
    let here = mem-filter_of (λ (s : LeaveType). s.group_id == t.group_id) types m (ground arith) in
    rw (any_of_mem (λ (s : LeaveType). s.is_active) _ here active)
      (filter-filter (λ s. s.group_id == t.group_id) (λ s. s.is_active) types)

-- For an active leave type, the balance that a request is charged to is that of the type for which
-- the accrual rules of its group accrue.
pub resolve_balance_type_id-eq :
    (leave_type_id : ℕ) (types : List LeaveType) (t rep : LeaveType)
    → find (λ s. s.id == leave_type_id) types ≡ some t
    → t.is_active ≡ true
    → pick_representative (active_types t.group_id types) ≡ some rep
    → resolve_balance_type_id leave_type_id types ≡ rep.id
unfolding resolve_balance_type_id pick_representative
resolve_balance_type_id-eq id types t rep found active picked =
    rw
      (
        resolve_balance_type_id,
        found,
        pool-active t types ((find-mem _ types found).0) active,
        picked,
      )
      refl
