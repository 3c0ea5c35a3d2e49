-- ===== src/Leaves/Idempotent.antt =====
-- leave-accrual.service.ts, `applyAccrualTarget` and `runAccrualRule`: a rule that runs again with
-- the same clock finds its targets reached.
use able_work.Base.{
  ℕ, suc, false, Option, none, some, List, [], ◌∷◌, ◌≡◌, refl, if◌then◌else◌, ◌==◌, ◌&&◌, nat_eq,
  All, Bool-cases, Option-cases, inl, inr, arith, subst, sym, find, ◌∙◌,
}
use able_work.Base.Int.{pos, leb_ℤ, ◌≤ℤ◌}
use able_work.Leaves.Types.{LeaveBalance, AccrualItem, AccrualRule, Employee, LeaveStore}
use able_work.Leaves.Accrual.{
  is_balance, find_balance, update_balance, new_balance, raised, apply_accrual_target, Accrual,
  calc_accrual_for_employee, apply_all, RunAccrualRule, accrue, accrual_employees,
  pick_representative, active_types,
}
use able_work.Leaves.Balances.{
  changed, find-update_balance, find_balance-key, HasReached, apply-new, apply-reached,
  apply-raised, raised-key, is_balance-employee,
}

-- A target is reached once it is applied.
reached_own :
    (e t y : ℕ) (a : Accrual) (bs : List LeaveBalance)
    → HasReached e t y a.target_days (apply_accrual_target e t y a bs).1
unfolding find_balance new_balance raised
reached_own e t y a bs = elim (Option-cases (find_balance e t y bs)) [
  | inl n ↦
      rw (apply-new e t y a bs n)
        (new_balance e t y a.target_days a.expires_at, ground arith, ground arith)
  | inr (b, s) ↦ elim (Bool-cases (leb_ℤ (pos a.target_days) b.accrued_days)) [
    | inl le ↦ rw (apply-reached e t y a bs s le) (b, s, ground arith)
    | inr gt ↦ rw (apply-raised e t y a bs s gt) (
      raised a.target_days a.expires_at b,
      subst
          (λ z.
            find_balance e t y (update_balance e t y (raised a.target_days a.expires_at) bs)
            ≡ some z)
          (rw (find_balance-key e t y bs s) refl)
          (find-update_balance _ e t y e t y bs (raised-key a.target_days a.expires_at) s),
      ground arith,
    )
  ]
]

same_row :
    (e' e t y : ℕ) (bs : List LeaveBalance) {b c : LeaveBalance}
    → e' ≡ e
    → find_balance e' t y bs ≡ some c
    → find_balance e t y bs ≡ some b
    → c ≡ b
same_row e' e t y bs same found s = cc

not_found {ℓ} :
    {X : Type ℓ} (e' e t y : ℕ) (bs : List LeaveBalance) {b : LeaveBalance}
    → e' ≡ e
    → find_balance e' t y bs ≡ none
    → find_balance e t y bs ≡ some b
    → X
not_found e' e t y bs same none_yet s = cc

reached_by_raise :
    (n target : ℕ) (x : Option ℕ) (b c : LeaveBalance)
    → c ≡ b
    → leb_ℤ (pos target) c.accrued_days ≡ false
    → pos n ≤ℤ b.accrued_days
    → pos n ≤ℤ (raised target x b).accrued_days
unfolding raised
reached_by_raise n target x b c same gt h =
    let gt' : leb_ℤ (pos target) b.accrued_days ≡ false =
      subst (λ z. leb_ℤ (pos target) z.accrued_days ≡ false) same gt in
    ground arith

-- What is reached stays reached when a target is applied for any employee.
reached_keep :
    (e t y n e' : ℕ) (a : Accrual) (bs : List LeaveBalance)
    → HasReached e t y n bs
    → HasReached e t y n (apply_accrual_target e' t y a bs).1
unfolding find_balance new_balance raised
reached_keep e t y n e' a bs (b, s, h) = elim (Option-cases (find_balance e' t y bs)) [
  | inl none_yet ↦
      rw (apply-new e' t y a bs none_yet)
        (elim (Bool-cases (is_balance e t y (new_balance e' t y a.target_days a.expires_at))) [
          | inl hit ↦ let same : e' ≡ e = ground arith in not_found e' e t y bs same none_yet s
          | inr miss ↦ (b, rw miss s, h)
        ])
  | inr (c, found) ↦ elim (Bool-cases (leb_ℤ (pos a.target_days) c.accrued_days)) [
    | inl le ↦ rw (apply-reached e' t y a bs found le) (b, s, h)
    | inr gt ↦ rw (apply-raised e' t y a bs found gt) (
      changed e' t y (raised a.target_days a.expires_at) b,
      find-update_balance _ e' t y e t y bs (raised-key a.target_days a.expires_at) s,
      (elim (Bool-cases (is_balance e' t y b)) [
        | inl hit ↦
            let same : e' ≡ e = is_balance-employee e' e t y b hit (find_balance-key e t y bs s) in
            rw hit (
              reached_by_raise n a.target_days a.expires_at b c (same_row e' e t y bs same found s)
                gt h)
        | inr miss ↦ rw miss h
      ]),
    )
  ]
]

-- The targets of all employees are reached.
abbrev pub AllReached : List AccrualItem → ℕ → ℕ → ℕ → List Employee → List LeaveBalance → Type 0
AllReached items t y reference es bs =
    All
      (λ e.
        (a : Accrual)
        → calc_accrual_for_employee items e.joined_at y reference ≡ some a
        → HasReached e.id t y a.target_days bs)
      es

module _ (items : List AccrualItem) (t y reference : ℕ) where
  pub apply_all-skip :
      (x : Employee) (es : List Employee) (p : ℕ) (bs : List LeaveBalance)
      → calc_accrual_for_employee items x.joined_at y reference ≡ none
      → apply_all items t y reference (x ∷ es) p bs ≡ apply_all items t y reference es p bs
  unfolding apply_all
  apply_all-skip x es p bs c = rw (apply_all, c) refl

  pub apply_all-step :
      (x : Employee) (es : List Employee) (p : ℕ) (bs : List LeaveBalance) {a : Accrual}
      → calc_accrual_for_employee items x.joined_at y reference ≡ some a
      → apply_all items t y reference (x ∷ es) p bs ≡ (
          let (applied, after) = apply_accrual_target x.id t y a bs in
          apply_all items t y reference es (if applied then suc p else p) after)
  unfolding apply_all
  apply_all-step x es p bs c = rw (apply_all, c) refl

  apply_all_keep :
      (es : List Employee) (p : ℕ) (bs : List LeaveBalance) (e n : ℕ)
      → HasReached e t y n bs
      → HasReached e t y n (apply_all items t y reference es p bs).1
  unfolding apply_all
  apply_all_keep [] p bs e n h = h
  apply_all_keep (x ∷ es) p bs e n h =
      elim (Option-cases (calc_accrual_for_employee items x.joined_at y reference)) [
        | inl c ↦
            subst (λ z. HasReached e t y n z.1) (sym (apply_all-skip x es p bs c))
              (apply_all_keep es p bs e n h)
        | inr (a, c) ↦
            subst (λ z. HasReached e t y n z.1) (sym (apply_all-step x es p bs c))
              (apply_all_keep es _ _ e n (reached_keep e t y n x.id a bs h))
      ]

  apply_all_reached :
      (es : List Employee) (p : ℕ) (bs : List LeaveBalance)
      → AllReached items t y reference es (apply_all items t y reference es p bs).1
  unfolding apply_all
  apply_all_reached [] p bs = tt
  apply_all_reached (x ∷ es) p bs =
      elim (Option-cases (calc_accrual_for_employee items x.joined_at y reference)) [
        | inl c ↦
            subst (λ z. AllReached items t y reference (x ∷ es) z.1)
              (sym (apply_all-skip x es p bs c)) (λ a k. cc, apply_all_reached es p bs)
        | inr (a, c) ↦
            subst (λ z. AllReached items t y reference (x ∷ es) z.1)
              (sym (apply_all-step x es p bs c))
              (
                λ a' k.
                    let same : a ≡ a' = cc in
                    let written = apply_accrual_target x.id t y a bs in
                    let p' = (if written.0 then suc p else p) in
                    subst
                      (λ (z : Accrual).
                        HasReached x.id t y z.target_days
                          (apply_all items t y reference es p' written.1).1)
                      same
                      (apply_all_keep es p' written.1 x.id a.target_days
                        (reached_own x.id t y a bs)),
                apply_all_reached es _ _,
              )
      ]

  -- Nothing is written where all targets are reached.
  apply_all_idle :
      (es : List Employee) (p : ℕ) (bs : List LeaveBalance)
      → AllReached items t y reference es bs
      → apply_all items t y reference es p bs ≡ (p, bs)
  unfolding apply_all
  apply_all_idle [] p bs h = refl
  apply_all_idle (x ∷ es) p bs h =
      elim (Option-cases (calc_accrual_for_employee items x.joined_at y reference)) [
        | inl c ↦ apply_all-skip x es p bs c ∙ apply_all_idle es p bs h.1
        | inr (a, c) ↦
            let (b, s, le) = h.0 a c in
            apply_all-step x es p bs c
            ∙ (rw (apply-reached x.id t y a bs s (ground arith)) (apply_all_idle es p bs h.1))
      ]

  pub apply_all_again :
      (es : List Employee) (p q : ℕ) (bs : List LeaveBalance)
      → apply_all items t y reference es q (apply_all items t y reference es p bs).1
        ≡ (q, (apply_all items t y reference es p bs).1)
  apply_all_again es p q bs = apply_all_idle es q _ (apply_all_reached es p bs)

abbrev pub rule_of : ℕ → ℕ → LeaveStore → Option AccrualRule
rule_of company_id rule_id st = find (λ r. r.id == rule_id && r.company_id == company_id) st.rules

abbrev accrue_rule : ℕ → RunAccrualRule → ℕ → AccrualRule → LeaveStore → ℕ × LeaveStore
accrue_rule company_id dto now rule st =
    accrue rule (accrual_employees company_id dto st.employees)
      (pick_representative (active_types rule.leave_group_id st.types)) dto.year now st
