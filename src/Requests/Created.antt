-- ===== src/Requests/Created.antt =====
-- request-effects.service.ts, `applyLeaveCreate`: what an approved request for leave has tested and
-- written.
use able_work.Base.{
  ℕ, ◌==◌, nat_eq, false, Option, none, some, List, ◌∷◌, ◌≡◌, refl, sym, ap, subst, if◌then◌else◌,
  find, not, arith,
}
use able_work.Base.Int.{ℤ, pos, ◌≤ℤ◌, ltb_ℤ, -ℤ_parts}
use able_work.Errors.{ok, Error, Holds, Holds-ok, Holds-bind, Holds-guard, Holds-eq_ok}
use able_work.Leaves.Types.{Leave, LeaveBalance, LeaveStore, TimeOption, time_option_eq}
use able_work.Leaves.Accrual.{find_balance, update_balance, is_balance}
use able_work.Leaves.Balances.{find-update_balance, find_balance-key}
use able_work.Leaves.Groups.{found_or}
use able_work.Leaves.Service.{instant, validate_balance, take_leave, moved, has_expired}
use able_work.Requests.Types.{Payload, Env}
use able_work.Requests.LeaveEffects.{
  required, compute_leave_days_used, resolve_balance_type_id, apply_leave_create,
}

-- The balance has the days, and it has not expired.
abbrev pub HasDays : ℕ → ℕ → ℕ → ℕ → ℕ → List LeaveBalance → LeaveBalance → Type 0
HasDays e t days at year bs b =
    (find_balance e t year bs ≡ some b)
    × (pos days ≤ℤ b.remaining_days)
    × (has_expired b.expires_at at ≡ false)

pub validate_balance-HasDays :
    (e t days at year : ℕ) (bs : List LeaveBalance)
    → Holds (HasDays e t days at year bs) (validate_balance e t days at year bs)
unfolding validate_balance
validate_balance-HasDays e t days at year bs =
    let P = HasDays e t days at year bs in
    Holds-bind P (found_or (find_balance e t year bs) Error.leave_balance_not_found) _ (λ b found.
      Holds-guard P (not (ltb_ℤ b.remaining_days (pos days))) _ _ (λ enough.
        Holds-guard P (not (has_expired b.expires_at at)) _ _
          (λ current. Holds-ok P b (found_some _ _ _ found, ground arith, ground arith))))
  where
    found_some :
        (o : Option LeaveBalance) (code : Error) (b : LeaveBalance)
        → found_or o code ≡ ok b
        → o ≡ some b
    found_some none code b h = cc
    found_some (some x) code b h = cc

-- The store after a leave of the employee that its balance can pay.
abbrev pub IsTaken : Env → ℕ → LeaveStore → LeaveStore → Type 0
IsTaken env e st st' =
    (leave : Leave) × (leave.id ≡ st.drawn)
    × (leave.employee_id ≡ e)
    × (st'
        ≡ take_leave leave (resolve_balance_type_id leave.leave_type_id st.types)
            (env.local_year (instant leave.start_date)) st)
    × (b : LeaveBalance) × HasDays e (resolve_balance_type_id leave.leave_type_id st.types)
        leave.days_used (instant leave.start_date) (env.local_year (instant leave.start_date))
        st.balances b

pub apply_leave_create-IsTaken :
    (env : Env) (c e : ℕ) (payload : Payload) (st : LeaveStore)
    → Holds (IsTaken env e st) (apply_leave_create env c e payload st)
unfolding apply_leave_create
apply_leave_create-IsTaken env c e payload st =
    let P = IsTaken env e st in
    Holds-bind P (required payload.leave_type_id) _ (λ id _.
      Holds-bind P (required payload.start_date) _ (λ from _.
        Holds-bind P (found_or (find (λ t. t.id == id) st.types) Error.leave_type_not_found) _
          (λ t _.
            let hourly = t.time_option == TimeOption.hourly in
            Holds-bind P (if hourly then ok from else required payload.end_date) _ (λ to _.
              Holds-bind P
                (compute_leave_days_used c st.holidays t from to payload.start_time
                  payload.end_time)
                _
                (λ days _.
                  let charged = resolve_balance_type_id id st.types in
                  let year = env.local_year (instant from) in
                  Holds-bind P (validate_balance e charged days (instant from) year st.balances) _
                    (λ b valid. Holds-ok P _ (
                      record {
                        id = st.drawn;
                        employee_id = e;
                        leave_type_id = id;
                        start_date = from;
                        end_date = to;
                        start_time = if hourly then payload.start_time else none;
                        end_time = if hourly then payload.end_time else none;
                        days_used = days;
                      },
                      refl,
                      refl,
                      refl,
                      b,
                      Holds-eq_ok _ _ valid
                          (validate_balance-HasDays e charged days (instant from) year st.balances),
                    )))))))

pub moved-key :
    (days : ℤ) (i j k : ℕ) (b : LeaveBalance) → is_balance i j k (moved days b) ≡ is_balance i j k b
unfolding moved
moved-key days i j k b = refl

-- The moved row is found under its key.
pub find-moved :
    (days : ℤ) (e t y : ℕ) (bs : List LeaveBalance) {b : LeaveBalance}
    → find_balance e t y bs ≡ some b
    → find_balance e t y (update_balance e t y (moved days) bs) ≡ some (moved days b)
find-moved days e t y bs {b} found =
    subst (λ z. find_balance e t y (update_balance e t y (moved days) bs) ≡ some z)
      (rw (find_balance-key e t y bs found) refl)
      (find-update_balance (moved days) e t y e t y bs (moved-key days) found)

not_negative :
    (days : ℕ) (b : LeaveBalance)
    → pos days ≤ℤ b.remaining_days
    → pos 0 ≤ℤ (moved (pos days) b).remaining_days
unfolding moved
not_negative days b h = ground (arith, -ℤ_parts b.remaining_days (pos days))

-- If an approved request for leave is applied, then a leave of the requester is added, and the balance
-- of the representative type for the year of its start has zero days or more left after it.
pub apply_leave_create-not_negative :
    (env : Env) (c e : ℕ) (payload : Payload) (st st' : LeaveStore)
    → apply_leave_create env c e payload st ≡ ok st'
    → (leave : Leave) × (st'.leaves ≡ (leave ∷ st.leaves))
      × (leave.employee_id ≡ e)
      × (b : LeaveBalance) × (find_balance e
            (resolve_balance_type_id leave.leave_type_id st.types)
            (env.local_year (instant leave.start_date))
            st'.balances
          ≡ some b)
      × (pos 0 ≤ℤ b.remaining_days)
unfolding take_leave
apply_leave_create-not_negative env c e payload st st' h =
    let (leave, id, own, after, b, held) =
      Holds-eq_ok (IsTaken env e st) _ h (apply_leave_create-IsTaken env c e payload st) in
    let t = resolve_balance_type_id leave.leave_type_id st.types in
    let y = env.local_year (instant leave.start_date) in
    let days = pos leave.days_used in
    (
      leave,
      ap (λ (s : LeaveStore). s.leaves) after,
      own,
      moved days b,
      subst (λ (s : LeaveStore). find_balance e t y s.balances ≡ some (moved days b)) (sym after)
          (subst
            (λ i.
              find_balance e t y (update_balance i t y (moved days) st.balances)
              ≡ some (moved days b))
            (sym own) (find-moved days e t y st.balances held.0)),
      not_negative leave.days_used b held.1,
    )
