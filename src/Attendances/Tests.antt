-- ===== src/Attendances/Tests.antt =====
-- A company with one employee and one shift, on which the theorems of the attendance records are
-- instantiated.
use able_work.Base.{
  All-get, ℕ, ◌+◌, ◌-◌, ◌%◌, ◌≤◌, ◌≡◌, refl, true, false, Option, none, some, List, [], ◌∷◌, arith,
  insert_sorted,
}
use able_work.Calendar.{ms_per_day}
use able_work.Errors.{ok}
use able_work.Attendances.Types.{
  AttendanceStatus, attendance_status_eq, Channel, UnscheduledPolicy, Shift, Attendance, Settings,
  Employee, Store, Env,
}
use able_work.Attendances.ClockIn.{
  determine_status, find_shift_for_clock_in, resolve_clock_out_status,
}
use able_work.Attendances.Service.{
  ClockIn, CreateAttendance, judge, free_shift, create_manual, find_open, is_shift_taken,
  assert_employee, assert_membership, assert_position, assert_area, insert_attendance,
  check_unscheduled, clock_in, own_open, assert_not_confirmed, clock_out,
}
use able_work.Access.{AccessLevel, JwtPayload}
use able_work.Attendances.Admin.{confirm_period, unconfirm}
use able_work.Attendances.Frozen.{of_ids, release_of_ids, unconfirm-confirm_period}
use able_work.Attendances.Single.{SingleOpen, AttendanceStep, AttendanceSteps, steps-SingleOpen}
use able_work.Attendances.Judged.{
  lateness, determine_status_mono, IsScheduled, clock_in-IsScheduled,
}
use able_work.Attendances.Added.{Adds, IsMarked, Adds-IsMarked}
use able_work.Attendances.Kept.{HasUniqueIds, Kept}
use able_work.Attendances.Protected.{RecordStep, record_step-Kept}

-- Ten minutes of grace, a clock-in half an hour before the shift at most, none without a shift.
abbrev strict_settings : Settings
strict_settings = record {
  late_grace_minutes = 10;
  clockin_before_shift_minutes = 30;
  allow_unscheduled = UnscheduledPolicy.never;
}

-- A server on Greenwich time, and areas without limits.
abbrev utc_server : Env
utc_server = record {
  settings = strict_settings;
  day_start = λ t. t - t % ms_per_day;
  day_end = λ t. t - t % ms_per_day + (ms_per_day - 1);
  is_beyond = λ place centre radius. false;
}

-- From nine to six.
abbrev day_shift : Shift
day_shift = record {
  id = 70;
  employee_id = 40;
  start_at = 32_400_000;
  end_at = 64_800_000;
  is_deemed_work = false;
}

abbrev park : Employee
park = record { id = 40; company_id = 1; is_active = true; organization_ids = 5 ∷ [] }

abbrev works : List Attendance → ℕ → Store
works attendances drawn = record {
  attendances = attendances;
  breaks = [];
  shifts = day_shift ∷ [];
  employees = park ∷ [];
  positions = [];
  areas = [];
  drawn = drawn;
}

abbrev by_app : ClockIn
by_app = record {
  place = none;
  organization_id = some 5;
  timeclock_area_id = none;
  position_id = none;
  channel = Channel.app;
}

abbrev late_record : Option ℕ → Attendance
late_record clock_out_at = record {
  id = 900;
  employee_id = 40;
  shift_id = some 70;
  clock_in_at = 33_600_000;
  clock_out_at = clock_out_at;
  status = AttendanceStatus.late;
  is_oncall = false;
  is_confirmed = false;
}

-- Twenty minutes after nine.
park_comes :
    clock_in utc_server 1 40 by_app 33_600_000 (works [] 900)
    ≡ ok (works (late_record none ∷ []) 901)
unfolding clock_in assert_employee assert_membership assert_position assert_area find_open
    find_shift_for_clock_in determine_status check_unscheduled insert_attendance insert_sorted
park_comes = refl

-- Ten minutes before six: the status stays late.
park_goes :
    clock_out 1 40 64_200_000 (works (late_record none ∷ []) 901)
    ≡ ok (works (late_record (some 64_200_000) ∷ []) 901)
unfolding clock_out own_open assert_not_confirmed resolve_clock_out_status
park_goes = refl

steps-SingleOpen_example : SingleOpen (works (late_record (some 64_200_000) ∷ []) 901)
steps-SingleOpen_example =
    steps-SingleOpen
      (AttendanceSteps.step (works [] 900) (works (late_record none ∷ []) 901)
        (works (late_record (some 64_200_000) ∷ []) 901)
        (AttendanceStep.clocked_in utc_server 1 40 by_app 33_600_000 (works [] 900)
          (works (late_record none ∷ []) 901) park_comes)
        (AttendanceSteps.step (works (late_record none ∷ []) 901)
          (works (late_record (some 64_200_000) ∷ []) 901)
          (works (late_record (some 64_200_000) ∷ []) 901)
          (AttendanceStep.clocked_out 1 40 64_200_000 (works (late_record none ∷ []) 901)
            (works (late_record (some 64_200_000) ∷ []) 901) park_goes)
          (AttendanceSteps.done (works (late_record (some 64_200_000) ∷ []) 901))))
      (λ e. omega arith)

clock_in-IsScheduled_example :
    IsScheduled utc_server 40 33_600_000 (works [] 900) (works (late_record none ∷ []) 901)
clock_in-IsScheduled_example =
    clock_in-IsScheduled utc_server 1 40 by_app 33_600_000 (works [] 900)
      (works (late_record none ∷ []) 901) refl park_comes

-- From twenty to nine to twenty past.
determine_status_mono_example :
    lateness (determine_status strict_settings 31_200_000 (some day_shift)).status
    ≤ lateness (determine_status strict_settings 33_600_000 (some day_shift)).status
determine_status_mono_example =
    determine_status_mono strict_settings day_shift 31_200_000 33_600_000 (omega arith)

-- A remote day without a shift, entered later.
abbrev remote_day : CreateAttendance
remote_day = record {
  employee_id = 40;
  clock_in_at = 32_400_000;
  clock_out_at = some 64_800_000;
  status = some AttendanceStatus.remote;
}

abbrev remote_record : Attendance
remote_record = record {
  id = 900;
  employee_id = 40;
  shift_id = some 70;
  clock_in_at = 32_400_000;
  clock_out_at = some 64_800_000;
  status = AttendanceStatus.remote;
  is_oncall = false;
  is_confirmed = false;
}

remote_added :
    create_manual utc_server 1 remote_day (works [] 900) ≡ ok (works (remote_record ∷ []) 901)
unfolding create_manual assert_employee find_shift_for_clock_in free_shift is_shift_taken judge
    insert_attendance insert_sorted
remote_added = refl

Adds-IsMarked_example : IsMarked (works [] 900) (works (remote_record ∷ []) 901)
Adds-IsMarked_example = Adds-IsMarked (
    Adds.by_hand utc_server 1 remote_day (works [] 900) (works (remote_record ∷ []) 901)
      remote_added)

abbrev general_manager : JwtPayload
general_manager = record {
  employee_id = 41;
  company_id = 1;
  access_level = AccessLevel.general_admin;
}

abbrev confirmed_record : Attendance
confirmed_record = record (late_record (some 64_200_000)) { is_confirmed = true }

-- An open record beside the confirmed one.
abbrev open_record : Option ℕ → Attendance
open_record clock_out_at = record (late_record clock_out_at) { id = 902; shift_id = none }

abbrev two_records : Option ℕ → Store
two_records clock_out_at = works (open_record clock_out_at ∷ confirmed_record ∷ []) 903

second_leaves : clock_out 1 40 64_200_000 (two_records none) ≡ ok (two_records (some 64_200_000))
unfolding clock_out own_open assert_not_confirmed resolve_clock_out_status
second_leaves = refl

two_records-HasUniqueIds : HasUniqueIds (two_records none)
two_records-HasUniqueIds = record {
  records = λ a b ma mb.
      All-get (λ (x : Attendance). x.id ≡ b.id → x ≡ b) rows
        (
          All-get (λ (y : Attendance). 902 ≡ y.id → open_record none ≡ y) rows
              (λ e. refl, (λ e. absurd (omega (arith, e)), tt)) mb,
          (
            All-get (λ (y : Attendance). 900 ≡ y.id → confirmed_record ≡ y) rows
                (λ e. absurd (omega (arith, e)), (λ e. refl, tt)) mb,
            tt,
          ),
        )
        ma;
  breaks = λ a b ma mb e. elim ma [ ];
}
  where
    rows : List Attendance
    rows = open_record none ∷ confirmed_record ∷ []

record_step-Kept_example : Kept (two_records none) (two_records (some 64_200_000))
record_step-Kept_example = record_step-Kept two_records-HasUniqueIds (
    RecordStep.clocked_out 1 40 64_200_000 (two_records none) (two_records (some 64_200_000))
      second_leaves)

unconfirm-confirm_period_example :
    unconfirm 1
      (release_of_ids (900 ∷ []))
      general_manager
      (confirm_period 1 (of_ids (900 ∷ [])) (works (late_record (some 64_200_000) ∷ []) 901))
    ≡ ok (works (late_record (some 64_200_000) ∷ []) 901)
unconfirm-confirm_period_example =
    unconfirm-confirm_period 1 (900 ∷ []) general_manager
      (works (late_record (some 64_200_000) ∷ []) 901) refl ((λ chosen. refl), tt)
