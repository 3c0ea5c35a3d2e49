-- ===== src/Requests/Withdrawn.antt =====
-- request-effects.service.ts: a leave that is withdrawn gives its days back.
use able_work.Base.{
  ℕ, ◌+◌, ◌<◌, ◌==◌, nat_eq, true, false, ◌&&◌, some, List, [], ◌∷◌, ◌≡◌, refl, sym, ap, subst,
  filter, not, any, All, Bool-cases, inl, inr, arith,
}
use able_work.Base.Int.{ℤ, pos, ◌+ℤ◌, ◌-ℤ◌, int_laws, eq_of_parts}
use able_work.Errors.{ok, Holds-eq_ok}
use able_work.Leaves.Types.{Leave, LeaveBalance, LeaveStore}
use able_work.Leaves.Accrual.{update_balance, is_balance}
use able_work.Leaves.Service.{instant, take_leave, moved}
use able_work.Requests.Types.{Payload, Env}
use able_work.Requests.LeaveEffects.{
  resolve_balance_type_id, own_leave, apply_leave_create, apply_leave_delete,
}
use able_work.Requests.Created.{IsTaken, apply_leave_create-IsTaken, moved-key}

there_and_back : (a b : ℤ) → ((a +ℤ b) +ℤ (pos 0 -ℤ b)) ≡ a
there_and_back a b = eq_of_parts _ _ (omega int_laws)

back_and_there : (a b : ℤ) → ((a -ℤ b) -ℤ (pos 0 -ℤ b)) ≡ a
back_and_there a b = eq_of_parts _ _ (omega int_laws)

moved-back : (days : ℤ) (b : LeaveBalance) → moved (pos 0 -ℤ days) (moved days b) ≡ b
unfolding moved
moved-back days b = rw (there_and_back b.used_days days, back_and_there b.remaining_days days) refl

-- Days that are taken and given back under one key leave all balances as they were.
pub update-back :
    (e t y : ℕ) (days : ℤ) (bs : List LeaveBalance)
    → update_balance e t y (moved (pos 0 -ℤ days)) (update_balance e t y (moved days) bs) ≡ bs
unfolding update_balance
update-back e t y days [] = refl
update-back e t y days (b ∷ bs) = elim (Bool-cases (is_balance e t y b)) [
  | inl hit ↦
      rw (hit, moved-key days e t y b, hit, moved-back days b)
        (ap (λ rest. b ∷ rest) (update-back e t y days bs))
  | inr miss ↦ rw (miss, miss) (ap (λ rest. b ∷ rest) (update-back e t y days bs))
]

-- Ids below the counter are not the next one.
filter-fresh :
    (n : ℕ) (ls : List Leave) → All (λ l. l.id < n) ls → filter (λ l. not (l.id == n)) ls ≡ ls
filter-fresh n [] h = refl
filter-fresh n (l ∷ ls) h =
    let old : (l.id == n) ≡ false = ground (arith, h.0) in
    rw old (ap (λ rest. l ∷ rest) (filter-fresh n ls h.1))

-- The employee works for the company.
abbrev pub IsEmployee : ℕ → ℕ → LeaveStore → Type 0
IsEmployee c e st = any (λ x. x.id == e && x.company_id == c) st.employees ≡ true

abbrev pub withdrawal : Payload → ℕ → Payload
withdrawal payload leave_id = record payload { leave_id = some leave_id }

own_new :
    (env : Env) (c e : ℕ) (payload : Payload) (leave : Leave) (t y : ℕ) (st : LeaveStore)
    → leave.id ≡ st.drawn
    → leave.employee_id ≡ e
    → IsEmployee c e st
    → own_leave env c e payload st.drawn (take_leave leave t y st) ≡ ok leave
unfolding own_leave take_leave
own_new env c e payload leave t y st id own works =
    let here : IsEmployee c leave.employee_id st = subst (λ i. IsEmployee c i st) (sym own) works in
    let hit : (leave.id == st.drawn
          && leave.employee_id == e
          && any (λ x. x.id == leave.employee_id && x.company_id == c) st.employees)
        ≡ true =
      ground arith in
    rw (own_leave, hit) refl

-- The new row goes, the others stay.
filter-new :
    (leave : Leave) (n : ℕ) (ls : List Leave)
    → leave.id ≡ n
    → All (λ l. l.id < n) ls
    → filter (λ l. not (l.id == n)) (leave ∷ ls) ≡ ls
filter-new leave n ls id fresh =
    let new : (leave.id == n) ≡ true = ground arith in rw new (filter-fresh n ls fresh)

-- If an approved request for leave is applied for an employee of the company, where all leaves have
-- ids below the next one, then the request to delete the new leave is applied too, and it leaves the
-- store as it was before both, but for the next id.
pub apply_leave_delete-after_create :
    (env : Env) (c e : ℕ) (payload : Payload) (st st' : LeaveStore)
    → IsEmployee c e st
    → All (λ l. l.id < st.drawn) st.leaves
    → apply_leave_create env c e payload st ≡ ok st'
    → apply_leave_delete env c e (withdrawal payload st.drawn) st'
      ≡ ok (record st { drawn = st.drawn + 1 })
unfolding apply_leave_delete take_leave
apply_leave_delete-after_create env c e payload st st' works fresh h =
    let (leave, id, own, after, _, _) =
      Holds-eq_ok (IsTaken env e st) _ h (apply_leave_create-IsTaken env c e payload st) in
    let t = resolve_balance_type_id leave.leave_type_id st.types in
    let y = env.local_year (instant leave.start_date) in
    subst
      (λ s.
        apply_leave_delete env c e (withdrawal payload st.drawn) s
        ≡ ok (record st { drawn = st.drawn + 1 }))
      (sym after)
      (rw
        (
          apply_leave_delete,
          own_new env c e (withdrawal payload st.drawn) leave t y st id own works,
        )
        (rw
          (
            filter-new leave st.drawn st.leaves id fresh,
            update-back leave.employee_id t y (pos leave.days_used) st.balances,
          )
          refl))
