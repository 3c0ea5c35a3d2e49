-- ===== src/Requests/LeaveSteps.antt =====
-- The leave tables under every operation that writes their balances, from leaves.service.ts,
-- leave-accrual.scheduler.ts and request-effects.service.ts, in any order.
use able_work.Base.{
  ℕ, ◌==◌, nat_eq, Bool, true, false, none, List, [], ◌∷◌, ◌≡◌, refl, if◌then◌else◌, or_else, find,
}
use able_work.Base.Int.{ℤ, pos, ◌-ℤ◌}
use able_work.Errors.{Result, ok, err, Error, Holds, Holds-ok, Holds-bind, Holds-eq_ok}
use able_work.Leaves.Types.{
  Leave, LeaveBalance, LeaveStore, TimeOption, AccrualRule, time_option_eq,
}
use able_work.Leaves.Accrual.{RunAccrualRule, run_accrual_rule, update_balance}
use able_work.Leaves.Balances.{All-update_balance}
use able_work.Leaves.Groups.{
  found_or, assert_employee_belongs_to_company, assert_type_belongs_to_company,
}
use able_work.Leaves.Service.{
  ManualAccrual, CompensationLeave, CreateLeave, manual_accrual, create_compensation_leave,
  create_leave, handle_daily_accrual, run_rules, assert_employees, validate_balance,
  calc_leave_days_used, instant, take_leave, moved,
}
use able_work.Leaves.Covered.{
  AllCovered, IsCovered, moved-IsCovered, run_accrual_rule-AllCovered, upsert-AllCovered,
  upsert_all-AllCovered, take_leave-AllCovered, expire-AllCovered,
}
use able_work.Requests.Types.{Payload, Env}
use able_work.Requests.LeaveEffects.{
  required, compute_leave_days_used, resolve_balance_type_id, own_leave, apply_leave_create,
  apply_leave_modify, apply_leave_delete,
}

-- One operation that succeeds.
pub data LeaveStep (env : Env) (is_active_company : ℕ → Bool)
    : LeaveStore → LeaveStore → Type 0 where
  ran :
      (company_id rule_id : ℕ) (dto : RunAccrualRule) (now processed : ℕ) (st st' : LeaveStore)
      → run_accrual_rule company_id rule_id dto now st ≡ ok (processed, st')
      → LeaveStep env is_active_company st st'
  daily :
      (now : ℕ) (st : LeaveStore)
      → LeaveStep env is_active_company st
          (handle_daily_accrual env.local_year is_active_company now st)
  granted :
      (company_id : ℕ) (dto : ManualAccrual) (st st' : LeaveStore)
      → manual_accrual company_id dto st ≡ ok st'
      → LeaveStep env is_active_company st st'
  compensated :
      (company_id : ℕ) (dto : CompensationLeave) (st st' : LeaveStore)
      → create_compensation_leave company_id dto st ≡ ok st'
      → LeaveStep env is_active_company st st'
  taken :
      (company_id : ℕ) (dto : CreateLeave) (st st' : LeaveStore)
      → create_leave env.local_year company_id dto st ≡ ok st'
      → LeaveStep env is_active_company st st'
  requested :
      (company_id employee_id : ℕ) (payload : Payload) (st st' : LeaveStore)
      → apply_leave_create env company_id employee_id payload st ≡ ok st'
      → LeaveStep env is_active_company st st'
  changed :
      (company_id employee_id : ℕ) (payload : Payload) (st st' : LeaveStore)
      → apply_leave_modify env company_id employee_id payload st ≡ ok st'
      → LeaveStep env is_active_company st st'
  withdrawn :
      (company_id employee_id : ℕ) (payload : Payload) (st st' : LeaveStore)
      → apply_leave_delete env company_id employee_id payload st ≡ ok st'
      → LeaveStep env is_active_company st st'

-- Any number of operations.
pub data LeaveSteps (env : Env) (is_active_company : ℕ → Bool)
    : LeaveStore → LeaveStore → Type 0 where
  done : (st : LeaveStore) → LeaveSteps env is_active_company st st
  step :
      (st st' st'' : LeaveStore)
      → LeaveStep env is_active_company st st'
      → LeaveSteps env is_active_company st' st''
      → LeaveSteps env is_active_company st st''

-- The balances of a store are covered.
abbrev Covered : LeaveStore → Type 0
Covered st = AllCovered st.balances

-- A rule that runs keeps the balances covered, one that fails is passed over.
after_rule :
    (env : Env) (now : ℕ) (rs : List AccrualRule) (st : LeaveStore)
    (given : Result (ℕ × LeaveStore))
    → ((s : LeaveStore) → Covered s → Covered (run_rules env.local_year now rs s))
    → Covered st
    → Holds (λ q. Covered q.1) given
    → Covered (elim given [
      | ok (_, s) ↦ run_rules env.local_year now rs s
      | err _ ↦ run_rules env.local_year now rs st
    ])
after_rule env now rs st (ok (n, s)) rest h k = rest s (Holds-eq_ok (λ q. Covered q.1) _ refl k)
after_rule env now rs st (err e) rest h k = rest st h

run_rules-Covered :
    (env : Env) (now : ℕ) (rules : List AccrualRule) (st : LeaveStore)
    → Covered st
    → Covered (run_rules env.local_year now rules st)
unfolding run_rules
run_rules-Covered env now [] st h = h
run_rules-Covered env now (r ∷ rs) st h =
    let dto : RunAccrualRule = record {
      employee_id = none;
      employee_ids = none;
      year = env.local_year now;
    } in
    after_rule env now rs st (run_accrual_rule r.company_id r.id dto now st)
      (λ s. run_rules-Covered env now rs s) h
      (run_accrual_rule-AllCovered r.company_id r.id dto now st h)

-- A leave that is taken, whatever its row.
take_leave-Covered :
    (leave : Leave) (t y : ℕ) (st : LeaveStore)
    → Covered st
    → Holds Covered (ok (take_leave leave t y st))
take_leave-Covered leave t y st h = Holds-ok Covered _ (take_leave-AllCovered leave t y st h)

manual_accrual-Covered :
    (company_id : ℕ) (dto : ManualAccrual) (st : LeaveStore)
    → Covered st
    → Holds Covered (manual_accrual company_id dto st)
unfolding manual_accrual
manual_accrual-Covered company_id dto st h =
    Holds-bind Covered (assert_employees company_id dto.employee_ids st) _ (λ _ _.
      Holds-bind Covered (assert_type_belongs_to_company company_id dto.leave_type_id st) _
        (λ _ _. Holds-ok Covered _ (upsert_all-AllCovered dto dto.employee_ids st.balances h)))

create_compensation_leave-Covered :
    (company_id : ℕ) (dto : CompensationLeave) (st : LeaveStore)
    → Covered st
    → Holds Covered (create_compensation_leave company_id dto st)
unfolding create_compensation_leave
create_compensation_leave-Covered company_id dto st h =
    Holds-bind Covered (assert_employee_belongs_to_company company_id dto.employee_id st) _ (λ _ _.
      Holds-bind Covered (assert_type_belongs_to_company company_id dto.leave_type_id st) _ (λ _ _.
        Holds-ok Covered _ (
          upsert-AllCovered dto.employee_id dto.leave_type_id dto.year dto.days dto.expires_at
            st.balances h)))

create_leave-Covered :
    (env : Env) (company_id : ℕ) (dto : CreateLeave) (st : LeaveStore)
    → Covered st
    → Holds Covered (create_leave env.local_year company_id dto st)
unfolding create_leave
create_leave-Covered env company_id dto st h =
    Holds-bind Covered (assert_employee_belongs_to_company company_id dto.employee_id st) _ (λ _ _.
      Holds-bind Covered (assert_type_belongs_to_company company_id dto.leave_type_id st) _ (λ t _.
        let days = calc_leave_days_used dto.start_date dto.end_date t.deduction_days in
        let at = instant dto.start_date in
        Holds-bind Covered
          (validate_balance dto.employee_id dto.leave_type_id days at (env.local_year at)
            st.balances)
          _ (λ _ _. take_leave-Covered _ dto.leave_type_id (env.local_year at) st h)))

apply_leave_create-Covered :
    (env : Env) (c e : ℕ) (payload : Payload) (st : LeaveStore)
    → Covered st
    → Holds Covered (apply_leave_create env c e payload st)
unfolding apply_leave_create
apply_leave_create-Covered env c e payload st h =
    Holds-bind Covered (required payload.leave_type_id) _ (λ id _.
      Holds-bind Covered (required payload.start_date) _ (λ from _.
        Holds-bind Covered (found_or (find (λ t. t.id == id) st.types) Error.leave_type_not_found) _
          (λ t _.
            let hourly = t.time_option == TimeOption.hourly in
            Holds-bind Covered (if hourly then ok from else required payload.end_date) _ (λ to _.
              Holds-bind Covered
                (compute_leave_days_used c st.holidays t from to payload.start_time
                  payload.end_time)
                _
                (λ days _.
                  let charged = resolve_balance_type_id id st.types in
                  let year = env.local_year (instant from) in
                  Holds-bind Covered
                    (validate_balance e charged days (instant from) year st.balances) _
                    (λ _ _. take_leave-Covered _ charged year st h))))))

apply_leave_delete-Covered :
    (env : Env) (c e : ℕ) (payload : Payload) (st : LeaveStore)
    → Covered st
    → Holds Covered (apply_leave_delete env c e payload st)
unfolding apply_leave_delete
apply_leave_delete-Covered env c e payload st h =
    Holds-bind Covered (required payload.leave_id) _ (λ id _.
      Holds-bind Covered (own_leave env c e payload id st) _ (λ l _. Holds-ok Covered _ (
        All-update_balance IsCovered _ l.employee_id
          (resolve_balance_type_id l.leave_type_id st.types) (env.local_year (instant l.start_date))
          st.balances (moved-IsCovered (pos 0 -ℤ pos l.days_used)) h)))

-- The balances after a change of a leave's days.
changed-Covered :
    (b : Bool) (e t y : ℕ) (delta : ℤ) (bs : List LeaveBalance)
    → AllCovered bs
    → AllCovered (if b then bs else update_balance e t y (moved delta) bs)
changed-Covered true e t y delta bs h = h
changed-Covered false e t y delta bs h =
    All-update_balance IsCovered (moved delta) e t y bs (moved-IsCovered delta) h

apply_leave_modify-Covered :
    (env : Env) (c e : ℕ) (payload : Payload) (st : LeaveStore)
    → Covered st
    → Holds Covered (apply_leave_modify env c e payload st)
unfolding apply_leave_modify
apply_leave_modify-Covered env c e payload st h =
    Holds-bind Covered (required payload.leave_id) _ (λ id _.
      Holds-bind Covered (own_leave env c e payload id st) _ (λ l _.
        Holds-bind Covered
          (found_or (find (λ t. t.id == l.leave_type_id) st.types) Error.leave_type_not_found) _
          (λ t _.
            let from = or_else payload.start_date l.start_date in
            let to =
              (if t.time_option == TimeOption.hourly
                then from
                else or_else payload.end_date l.end_date) in
            Holds-bind Covered
              (compute_leave_days_used c st.holidays t from to payload.start_time payload.end_time)
              _
              (λ days _. Holds-ok Covered _ (
                changed-Covered (days == l.days_used) e
                  (resolve_balance_type_id l.leave_type_id st.types)
                  (env.local_year (instant l.start_date)) (pos days -ℤ pos l.days_used) st.balances
                  h)))))

step-Covered :
    (env : Env) (is_active_company : ℕ → Bool) {st st' : LeaveStore}
    → LeaveStep env is_active_company st st'
    → Covered st
    → Covered st'
unfolding handle_daily_accrual
step-Covered env act (LeaveStep.ran c r dto now n st st' e) h =
    Holds-eq_ok (λ q. Covered q.1) _ e (run_accrual_rule-AllCovered c r dto now st h)
step-Covered env act (LeaveStep.daily now st) h =
    expire-AllCovered now _ (run_rules-Covered env now _ st h)
step-Covered env act (LeaveStep.granted c dto st st' e) h =
    Holds-eq_ok Covered _ e (manual_accrual-Covered c dto st h)
step-Covered env act (LeaveStep.compensated c dto st st' e) h =
    Holds-eq_ok Covered _ e (create_compensation_leave-Covered c dto st h)
step-Covered env act (LeaveStep.taken c dto st st' e) h =
    Holds-eq_ok Covered _ e (create_leave-Covered env c dto st h)
step-Covered env act (LeaveStep.requested c i payload st st' e) h =
    Holds-eq_ok Covered _ e (apply_leave_create-Covered env c i payload st h)
step-Covered env act (LeaveStep.changed c i payload st st' e) h =
    Holds-eq_ok Covered _ e (apply_leave_modify-Covered env c i payload st h)
step-Covered env act (LeaveStep.withdrawn c i payload st st' e) h =
    Holds-eq_ok Covered _ e (apply_leave_delete-Covered env c i payload st h)

-- If in each balance the used and the remaining days do not exceed the accrued ones, then this is so
-- after any sequence of successful grants, leaves of the administrator, approved requests for leave,
-- rule runs and daily runs with their expiry.
pub steps-AllCovered :
    (env : Env) (is_active_company : ℕ → Bool) {st st' : LeaveStore}
    → LeaveSteps env is_active_company st st'
    → AllCovered st.balances
    → AllCovered st'.balances
steps-AllCovered env act (LeaveSteps.done st) h = h
steps-AllCovered env act (LeaveSteps.step st st' st'' one rest) h =
    steps-AllCovered env act rest (step-Covered env act one h)
