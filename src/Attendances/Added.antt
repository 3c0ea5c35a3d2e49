-- ===== src/Attendances/Added.antt =====
-- attendances.service.ts, `clockIn` and `createManual`: the mark of a new record.
use able_work.Base.{
  ℕ, ◌+◌, ◌≡◌, refl, Bool, false, not, Option, none, some, ◌∷◌, ◌==◌, nat_eq, is_some, arith,
}
use able_work.Errors.{Error, ok, Holds, Holds-ok, Holds-bind, Holds-then, Holds-guard, Holds-eq_ok}
use able_work.Attendances.Types.{
  AttendanceStatus, attendance_status_eq, Attendance, Settings, Shift, Store, Env,
}
use able_work.Attendances.ClockIn.{determine_status, find_shift_for_clock_in}
use able_work.Attendances.Service.{
  ClockIn, CreateAttendance, judge, free_shift, manual_row, create_manual, find_open,
  is_shift_taken, assert_employee, assert_membership, assert_position, assert_area,
  insert_attendance, clocked_row, check_unscheduled, clock_in,
}

-- The calls that add a record.
pub data Adds : Store → Store → Type 0 where
  clocked_in :
      (env : Env) (company_id employee_id : ℕ) (dto : ClockIn) (now : ℕ) (st st' : Store)
      → clock_in env company_id employee_id dto now st ≡ ok st'
      → Adds st st'
  by_hand :
      (env : Env) (company_id : ℕ) (dto : CreateAttendance) (st st' : Store)
      → create_manual env company_id dto st ≡ ok st'
      → Adds st st'

-- One record is new, and it is marked unscheduled just if its status says so.
abbrev pub IsMarked : Store → Store → Type 0
IsMarked st st' =
    (row : Attendance) × (st'.attendances ≡ (row ∷ st.attendances))
    × (row.is_oncall ≡ (row.status == AttendanceStatus.oncall))

determine_status-oncall :
    (settings : Settings) (now : ℕ) (shift : Option Shift)
    → (determine_status settings now shift).is_oncall
      ≡ ((determine_status settings now shift).status == AttendanceStatus.oncall)
unfolding determine_status
determine_status-oncall settings now shift = ground arith

judge-oncall :
    (env : Env) (dto : CreateAttendance) (shift : Option Shift)
    → (judge env dto shift).is_oncall ≡ ((judge env dto shift).status == AttendanceStatus.oncall)
unfolding judge determine_status
judge-oncall env dto shift = ground arith

insert-IsMarked :
    (row : Attendance) (st : Store)
    → row.is_oncall ≡ (row.status == AttendanceStatus.oncall)
    → Holds (IsMarked st) (insert_attendance row st)
unfolding insert_attendance
insert-IsMarked row st same =
    let is_free : Bool = not (elim row.shift_id [ none ↦ false | some s ↦ is_shift_taken s st ]) in
    let st' = record st { attendances = row ∷ st.attendances; drawn = st.drawn + 1 } in
    Holds-guard (IsMarked st) is_free Error.unique_violation (ok st')
      (λ _. Holds-ok (IsMarked st) st' (row, refl, same))

clock_in-IsMarked :
    (env : Env) (company_id employee_id : ℕ) (dto : ClockIn) (now : ℕ) (st : Store)
    → Holds (IsMarked st) (clock_in env company_id employee_id dto now st)
unfolding clock_in
clock_in-IsMarked env company_id employee_id dto now st =
    let P = IsMarked st in
    let shift = find_shift_for_clock_in env employee_id now st in
    let judged = determine_status env.settings now shift in
    Holds-bind P (assert_employee company_id employee_id st) _ (λ _ _.
      Holds-then P (assert_membership employee_id dto.organization_id st) _ (λ _.
        Holds-then P (assert_position company_id dto.position_id st) _ (λ _.
          Holds-then P (assert_area env company_id dto st) _ (λ _.
            Holds-guard P (not (is_some (find_open employee_id st)))
              Error.attendance_already_clocked_in _
              (λ _. Holds-then P (check_unscheduled env judged shift) _ (λ _.
                insert-IsMarked (clocked_row st.drawn employee_id now judged shift) st
                  (determine_status-oncall env.settings now shift)))))))

create_manual-IsMarked :
    (env : Env) (company_id : ℕ) (dto : CreateAttendance) (st : Store)
    → Holds (IsMarked st) (create_manual env company_id dto st)
unfolding create_manual
create_manual-IsMarked env company_id dto st =
    let shift = find_shift_for_clock_in env dto.employee_id dto.clock_in_at st in
    Holds-bind (IsMarked st) (assert_employee company_id dto.employee_id st) _ (λ _ _.
      insert-IsMarked (manual_row st.drawn dto (judge env dto shift) (free_shift shift st)) st
        (judge-oncall env dto shift))

-- A successful clock-in, and a successful addition by an administrator with or without a given status,
-- adds one record, which is marked unscheduled just if its status says so.
pub Adds-IsMarked : {st st' : Store} → Adds st st' → IsMarked st st'
Adds-IsMarked (Adds.clocked_in env c e dto now st st' h) =
    Holds-eq_ok (IsMarked st) _ h (clock_in-IsMarked env c e dto now st)
Adds-IsMarked (Adds.by_hand env c dto st st' h) =
    Holds-eq_ok (IsMarked st) _ h (create_manual-IsMarked env c dto st)
