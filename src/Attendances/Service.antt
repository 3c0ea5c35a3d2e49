-- ===== src/Attendances/Service.antt =====
-- attendances.service.ts: clocking in and out, breaks, and the record that an administrator adds.
-- Coordinates, methods, notes, events and the audit log are left out. The unique index on the shift
-- of a record is part of an insertion.
use able_work.Base.{
  ℕ, ◌+◌, Bool, true, false, ◌&&◌, Option, none, some, ◌∷◌, if◌then◌else◌, ◌==◌, nat_eq, not,
  or_else, is_some, is_value, find, filter, any, map, head?, includes, sort_by, descending,
}
use able_work.Errors.{Error, Result, ok, err, ◌>>=◌, ◌>>◌, guard}
use able_work.Leaves.Groups.{found_or}
use able_work.Attendances.Types.{
  AttendanceStatus, Channel, Place, TimeclockArea, Shift, Attendance, AttendanceBreak, Employee,
  Position, Store, Env, attendance_status_eq,
}
use able_work.Attendances.ClockIn.{
  Judgement, determine_status, find_shift_for_clock_in, assert_area_channel_allowed,
  assert_unscheduled_allowed, assert_within_timeclock_area, resolve_clock_out_status,
}

unfoldable pub assert_employee : ℕ → ℕ → Store → Result Employee
assert_employee company_id employee_id st =
    found_or
      (find (λ (e : Employee). e.id == employee_id && e.company_id == company_id && e.is_active)
        st.employees)
      Error.employee_not_found

unfoldable pub assert_not_confirmed : Attendance → Result (Unit {0})
assert_not_confirmed attendance =
    guard (not attendance.is_confirmed) Error.attendance_already_confirmed

-- A record of the shift exists.
unfoldable pub is_shift_taken : ℕ → Store → Bool
is_shift_taken shift_id st = any (λ a. is_value a.shift_id shift_id) st.attendances

-- `attendance.create`, which the unique index on the shift refuses if the shift has a record.
unfoldable pub insert_attendance : Attendance → Store → Result Store
unfolding is_shift_taken
insert_attendance row st = do
  guard (not (elim row.shift_id [ none ↦ false | some s ↦ is_shift_taken s st ]))
      Error.unique_violation
  ok (record st { attendances = row ∷ st.attendances; drawn = st.drawn + 1 })

pub record CreateAttendance : Type 0 where
  pub employee_id : ℕ
  pub clock_in_at : ℕ
  pub clock_out_at : Option ℕ
  pub status : Option AttendanceStatus

-- A given status decides whether the record is unscheduled; without one the clock-in is judged.
unfoldable pub judge : Env → CreateAttendance → Option Shift → Judgement
unfolding determine_status
judge env dto shift = elim dto.status [
  | some status ↦ record { status = status; is_oncall = status == AttendanceStatus.oncall }
  | none ↦ determine_status env.settings dto.clock_in_at shift
]

-- The shift, unless it has a record.
unfoldable pub free_shift : Option Shift → Store → Option ℕ
unfolding is_shift_taken
free_shift none st = none
free_shift (some shift) st = if is_shift_taken shift.id st then none else some shift.id

-- The record that an administrator adds.
abbrev pub manual_row : ℕ → CreateAttendance → Judgement → Option ℕ → Attendance
manual_row id dto judged shift_id = record {
  id = id;
  employee_id = dto.employee_id;
  shift_id = shift_id;
  clock_in_at = dto.clock_in_at;
  clock_out_at = dto.clock_out_at;
  status = judged.status;
  is_oncall = judged.is_oncall;
  is_confirmed = false;
}

unfoldable pub create_manual : Env → ℕ → CreateAttendance → Store → Result Store
unfolding assert_employee find_shift_for_clock_in free_shift judge insert_attendance
create_manual env company_id dto st = do
  _ ← assert_employee company_id dto.employee_id st
  let shift = find_shift_for_clock_in env dto.employee_id dto.clock_in_at st
  let judged = judge env dto shift
  insert_attendance (manual_row st.drawn dto judged (free_shift shift st)) st

pub record ClockIn : Type 0 where
  pub place : Option Place
  pub organization_id : Option ℕ
  pub timeclock_area_id : Option ℕ
  pub position_id : Option ℕ
  pub channel : Channel

unfoldable pub assert_membership : ℕ → Option ℕ → Store → Result (Unit {0})
unfolding includes
assert_membership employee_id none st = ok tt
assert_membership employee_id (some organization_id) st =
    guard
      (any (λ (e : Employee). e.id == employee_id && includes e.organization_ids organization_id)
        st.employees)
      Error.attendance_org_not_member

unfoldable pub assert_position : ℕ → Option ℕ → Store → Result (Unit {0})
assert_position company_id none st = ok tt
assert_position company_id (some position_id) st =
    guard
      (any (λ (p : Position). p.id == position_id && p.company_id == company_id && p.is_active)
        st.positions)
      Error.position_not_found

-- The checks of the area that a clock-in names.
unfoldable pub assert_area : Env → ℕ → ClockIn → Store → Result (Unit {0})
unfolding assert_area_channel_allowed assert_within_timeclock_area includes
assert_area env company_id dto st = elim dto.timeclock_area_id [
  | none ↦ ok tt
  | some area_id ↦ do
    area ←
        found_or
          (find
            (λ (a : TimeclockArea). a.id == area_id && a.is_active && a.company_id == company_id)
            st.areas)
          Error.timeclock_area_not_found
    assert_area_channel_allowed area.auth_method dto.channel
    guard (elim dto.organization_id [ none ↦ true | some o ↦ includes area.organization_ids o ])
        Error.timeclock_area_org_mismatch
    assert_within_timeclock_area env area dto.place dto.channel
]

-- A record of the employee without a clock-out.
abbrev pub is_open : ℕ → Attendance → Bool
is_open employee_id a = a.employee_id == employee_id && not (is_some a.clock_out_at)

unfoldable pub find_open : ℕ → Store → Option Attendance
find_open employee_id st = find (is_open employee_id) st.attendances

abbrev shift_id_of : Option Shift → Option ℕ
shift_id_of none = none
shift_id_of (some shift) = some shift.id

-- `if (isOncall) await this.clockin.assertUnscheduledAllowed(companyId, shift)`
unfoldable pub check_unscheduled : Env → Judgement → Option Shift → Result (Unit {0})
unfolding assert_unscheduled_allowed
check_unscheduled env judged shift =
    if judged.is_oncall
    then assert_unscheduled_allowed env.settings.allow_unscheduled shift
    else ok tt

-- The record of a clock-in.
abbrev pub clocked_row : ℕ → ℕ → ℕ → Judgement → Option Shift → Attendance
clocked_row id employee_id now judged shift = record {
  id = id;
  employee_id = employee_id;
  shift_id = shift_id_of shift;
  clock_in_at = now;
  clock_out_at = none;
  status = judged.status;
  is_oncall = judged.is_oncall;
  is_confirmed = false;
}

unfoldable pub clock_in : Env → ℕ → ℕ → ClockIn → ℕ → Store → Result Store
unfolding assert_employee assert_membership assert_position assert_area find_open
    find_shift_for_clock_in determine_status check_unscheduled insert_attendance
clock_in env company_id employee_id dto now st = do
  _ ← assert_employee company_id employee_id st
  assert_membership employee_id dto.organization_id st
  assert_position company_id dto.position_id st
  assert_area env company_id dto st
  guard (not (is_some (find_open employee_id st))) Error.attendance_already_clocked_in
  let shift = find_shift_for_clock_in env employee_id now st
  let judged = determine_status env.settings now shift
  check_unscheduled env judged shift
  insert_attendance (clocked_row st.drawn employee_id now judged shift) st

-- The open record of an employee of the company.
unfoldable pub own_open : ℕ → ℕ → Store → Result Attendance
unfolding find_open
own_open company_id employee_id st =
    if any (λ (e : Employee). e.id == employee_id && e.company_id == company_id) st.employees
    then found_or (find_open employee_id st) Error.attendance_not_found
    else err Error.attendance_not_found

-- The update of a clock-out, with the new status if there is one.
abbrev pub closed_row : ℕ → ℕ → Option AttendanceStatus → Attendance → Attendance
closed_row attendance_id now status a =
    if a.id == attendance_id
    then record a { clock_out_at = some now; status = or_else status a.status }
    else a

unfoldable pub clock_out : ℕ → ℕ → ℕ → Store → Result Store
unfolding own_open assert_not_confirmed resolve_clock_out_status
clock_out company_id employee_id now st = do
  attendance ← own_open company_id employee_id st
  assert_not_confirmed attendance
  let status = resolve_clock_out_status attendance now st
  ok (record st { attendances = map (closed_row attendance.id now status) st.attendances })

unfoldable pub break_start : ℕ → ℕ → ℕ → Store → Result Store
unfolding own_open assert_not_confirmed
break_start company_id employee_id now st = do
  attendance ← own_open company_id employee_id st
  assert_not_confirmed attendance
  ok (record st {
    breaks =
        record { id = st.drawn; attendance_id = attendance.id; start_at = now; end_at = none }
        ∷ st.breaks;
    drawn = st.drawn + 1;
  })

-- A break of the record without an end, with the id if one is given.
abbrev pub is_open_break : Option ℕ → ℕ → AttendanceBreak → Bool
is_open_break break_id attendance_id b =
    (elim break_id [ none ↦ true | some i ↦ b.id == i ])
    && b.attendance_id == attendance_id
    && not (is_some b.end_at)

-- The open break that is named, or the last one.
unfoldable pub open_break : Option ℕ → ℕ → Store → Option AttendanceBreak
unfolding sort_by
open_break break_id attendance_id st = head? (
    sort_by (descending (λ (b : AttendanceBreak). b.start_at))
      (filter (is_open_break break_id attendance_id) st.breaks))

unfoldable pub break_end : ℕ → ℕ → Option ℕ → ℕ → Store → Result Store
unfolding own_open assert_not_confirmed open_break
break_end company_id employee_id break_id now st = do
  attendance ← own_open company_id employee_id st
  assert_not_confirmed attendance
  found ← found_or (open_break break_id attendance.id st) Error.break_not_found
  ok (record st {
    breaks =
        map
          (λ (b : AttendanceBreak). if b.id == found.id then record b { end_at = some now } else b)
          st.breaks;
  })
