-- ===== src/Leaves/Covered.antt =====
-- The balances under every operation that writes them: what is used and what remains never exceed
-- what has accrued.
use able_work.Base.{
  ℕ, Option, none, some, List, [], ◌∷◌, sym, subst, All, Bool-cases, Option-cases, inl, inr, arith,
  if◌then◌else◌, ◌&&◌, ◌/◌,
}
use able_work.Base.Int.{ℤ, pos, ◌+ℤ◌, ◌≤ℤ◌, leb_ℤ, ltb_ℤ, +ℤ_parts, int_laws}
use able_work.Errors.{Holds, Holds-ok, Holds-err, Holds-option, Error}
use able_work.Calendar.{ms_per_day}
use able_work.Leaves.Types.{
  AccrualItem, AccrualRule, LeaveType, LeaveBalance, Leave, Employee, LeaveStore,
}
use able_work.Leaves.Accrual.{
  find_balance, new_balance, raised, apply_accrual_target, Accrual, calc_accrual_for_employee,
  apply_all, accrue, RunAccrualRule, run_accrual_rule,
}
use able_work.Leaves.Balances.{All-update_balance, apply-new, apply-reached, apply-raised}
use able_work.Leaves.Idempotent.{rule_of, apply_all-skip, apply_all-step}
use able_work.Leaves.Service.{
  granted, upsert_accrued_balance, ManualAccrual, upsert_all, moved, take_leave, has_expired,
  instant, expire_overdue_balances,
}

-- `usedDays + remainingDays <= accruedDays`; the difference has expired.
abbrev pub IsCovered : LeaveBalance → Type 0
IsCovered b = (b.used_days +ℤ b.remaining_days) ≤ℤ b.accrued_days

abbrev pub AllCovered : List LeaveBalance → Type 0
AllCovered = All IsCovered

new_balance-IsCovered : (e t y days : ℕ) (x : Option ℕ) → IsCovered (new_balance e t y days x)
unfolding new_balance
new_balance-IsCovered e t y days x = omega int_laws

raised-IsCovered :
    (target : ℕ) (x : Option ℕ) (b : LeaveBalance) → IsCovered b → IsCovered (raised target x b)
unfolding raised
raised-IsCovered target x b h = omega int_laws

granted-IsCovered :
    (days : ℕ) (x : Option ℕ) (b : LeaveBalance) → IsCovered b → IsCovered (granted days x b)
unfolding granted
granted-IsCovered days x b h = omega int_laws

pub moved-IsCovered : (days : ℤ) (b : LeaveBalance) → IsCovered b → IsCovered (moved days b)
unfolding moved
moved-IsCovered days b h = omega int_laws

apply_accrual_target-AllCovered :
    (e t y : ℕ) (a : Accrual) (bs : List LeaveBalance)
    → AllCovered bs
    → AllCovered (apply_accrual_target e t y a bs).1
apply_accrual_target-AllCovered e t y a bs h = elim (Option-cases (find_balance e t y bs)) [
  | inl n ↦
      subst (λ r. AllCovered r.1) (sym (apply-new e t y a bs n))
        (new_balance-IsCovered e t y a.target_days a.expires_at, h)
  | inr (b, s) ↦ elim (Bool-cases (leb_ℤ (pos a.target_days) b.accrued_days)) [
    | inl le ↦ subst (λ r. AllCovered r.1) (sym (apply-reached e t y a bs s le)) h
    | inr gt ↦
        subst (λ r. AllCovered r.1) (sym (apply-raised e t y a bs s gt))
          (All-update_balance IsCovered _ e t y bs (raised-IsCovered a.target_days a.expires_at) h)
  ]
]

apply_all-AllCovered :
    (items : List AccrualItem) (t y reference : ℕ) (es : List Employee) (p : ℕ)
    (bs : List LeaveBalance)
    → AllCovered bs
    → AllCovered (apply_all items t y reference es p bs).1
unfolding apply_all
apply_all-AllCovered items t y reference [] p bs h = h
apply_all-AllCovered items t y reference (x ∷ es) p bs h =
    elim (Option-cases (calc_accrual_for_employee items x.joined_at y reference)) [
      | inl c ↦
          subst (λ r. AllCovered r.1) (sym (apply_all-skip items t y reference x es p bs c))
            (apply_all-AllCovered items t y reference es p bs h)
      | inr (a, c) ↦
          subst (λ r. AllCovered r.1) (sym (apply_all-step items t y reference x es p bs c))
            (apply_all-AllCovered items t y reference es _ _
              (apply_accrual_target-AllCovered x.id t y a bs h))
    ]

accrue-AllCovered :
    (rule : AccrualRule) (es : List Employee) (target : Option LeaveType) (y now : ℕ)
    (st : LeaveStore)
    → AllCovered st.balances
    → AllCovered (accrue rule es target y now st).1.balances
unfolding accrue
accrue-AllCovered rule [] target y now st h = h
accrue-AllCovered rule (e ∷ es) none y now st h = h
accrue-AllCovered rule (e ∷ es) (some target) y now st h =
    apply_all-AllCovered _ target.id y _ (e ∷ es) 0 st.balances h

pub run_accrual_rule-AllCovered :
    (company_id rule_id : ℕ) (dto : RunAccrualRule) (now : ℕ) (st : LeaveStore)
    → AllCovered st.balances
    → Holds (λ r. AllCovered r.1.balances) (run_accrual_rule company_id rule_id dto now st)
unfolding run_accrual_rule
run_accrual_rule-AllCovered company_id rule_id dto now st h =
    Holds-option (λ r. AllCovered r.1.balances) (rule_of company_id rule_id st) _ _
      (λ _. Holds-err (λ r. AllCovered r.1.balances) Error.accrual_rule_not_found)
      (λ rule _.
        Holds-ok (λ r. AllCovered r.1.balances) _ (accrue-AllCovered rule _ _ dto.year now st h))

pub upsert-AllCovered :
    (e t y days : ℕ) (x : Option ℕ) (bs : List LeaveBalance)
    → AllCovered bs
    → AllCovered (upsert_accrued_balance e t y days x bs)
unfolding upsert_accrued_balance
upsert-AllCovered e t y days x bs h = elim (Option-cases (find_balance e t y bs)) [
  | inl n ↦ rw (upsert_accrued_balance, n) (new_balance-IsCovered e t y days x, h)
  | inr (b, s) ↦
      rw (upsert_accrued_balance, s)
        (All-update_balance IsCovered _ e t y bs (granted-IsCovered days x) h)
]

pub upsert_all-AllCovered :
    (dto : ManualAccrual) (es : List ℕ) (bs : List LeaveBalance)
    → AllCovered bs
    → AllCovered (upsert_all dto es bs)
unfolding upsert_all
upsert_all-AllCovered dto [] bs h = h
upsert_all-AllCovered dto (e ∷ es) bs h =
    upsert_all-AllCovered dto es _
      (upsert-AllCovered e dto.leave_type_id dto.year dto.days dto.expires_at bs h)

pub take_leave-AllCovered :
    (leave : Leave) (t y : ℕ) (st : LeaveStore)
    → AllCovered st.balances
    → AllCovered (take_leave leave t y st).balances
unfolding take_leave
take_leave-AllCovered leave t y st h =
    All-update_balance IsCovered _ leave.employee_id t y st.balances
      (moved-IsCovered (pos leave.days_used)) h

pub expire-AllCovered :
    (now : ℕ) (bs : List LeaveBalance) → AllCovered bs → AllCovered (expire_overdue_balances now bs)
unfolding expire_overdue_balances
expire-AllCovered now [] h = tt
expire-AllCovered now (b ∷ bs) h = (lost b h.0, expire-AllCovered now bs h.1)
  where
    lost :
        (b : LeaveBalance)
        → IsCovered b
        → IsCovered (
            if has_expired b.expires_at (instant (now / ms_per_day))
              && ltb_ℤ (pos 0) b.remaining_days
            then record b { remaining_days = pos 0 }
            else b)
    lost b k = elim (Bool-cases (has_expired b.expires_at (instant (now / ms_per_day)))) [
      | inl gone ↦ rw gone (elim (Bool-cases (ltb_ℤ (pos 0) b.remaining_days)) [
        | inl left ↦
            rw left
              (ground (arith, +ℤ_parts b.used_days (pos 0), +ℤ_parts b.used_days b.remaining_days))
        | inr nothing ↦ rw nothing k
      ])
      | inr kept ↦ rw kept k
    ]
