-- ===== src/Attendances/ClockIn.antt =====
-- attendance-clockin.service.ts: the judgement of a clock-in and a clock-out, and the checks of the
-- place and of an unscheduled clock-in.
use able_work.Base.{
  ℕ, ◌+◌, ◌*◌, Bool, true, false, ◌&&◌, Option, none, some, ltb, leb, if◌then◌else◌, ◌==◌, nat_eq,
  find, filter, head?, sort_by, ascending,
}
use able_work.Errors.{Error, Result, ok, err, guard}
use able_work.Attendances.Types.{
  AttendanceStatus, TimeclockAuthMethod, Channel, UnscheduledPolicy, Place, TimeclockArea, Shift,
  Attendance, Settings, Store, Env, attendance_status_eq,
}

-- The status of a clock-in, and whether it is unscheduled.
pub record Judgement : Type 0 where
  pub status : AttendanceStatus
  pub is_oncall : Bool

unfoldable pub determine_status : Settings → ℕ → Option Shift → Judgement
determine_status settings clock_in_at none = record {
  status = AttendanceStatus.oncall;
  is_oncall = true;
}
determine_status settings clock_in_at (some shift) =
    if shift.is_deemed_work
    then record { status = AttendanceStatus.deemed_work; is_oncall = false }
    else if ltb (shift.start_at + settings.late_grace_minutes * 60_000) clock_in_at
    then record { status = AttendanceStatus.late; is_oncall = false }
    else if ltb (clock_in_at + settings.clockin_before_shift_minutes * 60_000) shift.start_at
    then record { status = AttendanceStatus.oncall; is_oncall = true }
    else record { status = AttendanceStatus.normal; is_oncall = false }

-- A shift of the employee that starts on the day of an instant.
abbrev pub is_on_day : Env → ℕ → ℕ → Shift → Bool
is_on_day env employee_id clock_in_at s =
    s.employee_id == employee_id
    && leb (env.day_start clock_in_at) s.start_at
    && leb s.start_at (env.day_end clock_in_at)

-- The first shift that starts on the day.
unfoldable pub find_shift_for_clock_in : Env → ℕ → ℕ → Store → Option Shift
unfolding sort_by
find_shift_for_clock_in env employee_id clock_in_at st = head? (
    sort_by (ascending (λ (s : Shift). s.start_at))
      (filter (is_on_day env employee_id clock_in_at) st.shifts))

-- The web cannot check a network that the area requires.
unfoldable pub assert_area_channel_allowed : TimeclockAuthMethod → Channel → Result (Unit {0})
assert_area_channel_allowed method Channel.app = ok tt
assert_area_channel_allowed TimeclockAuthMethod.wifi Channel.web =
    err Error.attendance_wifi_app_only
assert_area_channel_allowed TimeclockAuthMethod.gps_and_wifi Channel.web =
    err Error.attendance_wifi_app_only
assert_area_channel_allowed TimeclockAuthMethod.gps Channel.web = ok tt
assert_area_channel_allowed TimeclockAuthMethod.gps_or_wifi Channel.web = ok tt
assert_area_channel_allowed TimeclockAuthMethod.no_check Channel.web = ok tt

unfoldable pub assert_unscheduled_allowed : UnscheduledPolicy → Option Shift → Result (Unit {0})
assert_unscheduled_allowed UnscheduledPolicy.always shift = ok tt
assert_unscheduled_allowed UnscheduledPolicy.never shift =
    err Error.attendance_unscheduled_not_allowed
assert_unscheduled_allowed UnscheduledPolicy.if_no_shift none = ok tt
assert_unscheduled_allowed UnscheduledPolicy.if_no_shift (some s) =
    err Error.attendance_unscheduled_not_allowed

-- `GPS_AUTH_METHODS.includes(method)`
unfoldable pub uses_gps : TimeclockAuthMethod → Bool
uses_gps TimeclockAuthMethod.gps = true
uses_gps TimeclockAuthMethod.gps_or_wifi = true
uses_gps TimeclockAuthMethod.gps_and_wifi = true
uses_gps TimeclockAuthMethod.wifi = false
uses_gps TimeclockAuthMethod.no_check = false

-- On the app, an area of either method falls back on the network.
unfoldable pub is_gps_optional : TimeclockAuthMethod → Channel → Bool
is_gps_optional TimeclockAuthMethod.gps_or_wifi Channel.app = true
is_gps_optional TimeclockAuthMethod.gps_or_wifi Channel.web = false
is_gps_optional TimeclockAuthMethod.gps channel = false
is_gps_optional TimeclockAuthMethod.wifi channel = false
is_gps_optional TimeclockAuthMethod.gps_and_wifi channel = false
is_gps_optional TimeclockAuthMethod.no_check channel = false

-- The check of the distance, for an area with a place and a radius.
unfoldable pub assert_within_radius :
    Env → TimeclockAuthMethod → Place → ℕ → Option Place → Channel → Result (Unit {0})
unfolding is_gps_optional
assert_within_radius env method centre radius none channel =
    guard (is_gps_optional method channel) Error.attendance_location_required
assert_within_radius env method centre radius (some place) channel =
    if env.is_beyond place centre radius
    then guard (is_gps_optional method channel) Error.attendance_out_of_range
    else ok tt

unfoldable pub assert_within_timeclock_area :
    Env → TimeclockArea → Option Place → Channel → Result (Unit {0})
unfolding uses_gps assert_within_radius
assert_within_timeclock_area env area place channel =
    if uses_gps area.auth_method
    then elim area.location [
      | none ↦ ok tt
      | some centre ↦ elim area.radius_meters [
        | none ↦ ok tt
        | some radius ↦
            if radius == 0
            then ok tt
            else assert_within_radius env area.auth_method centre radius place channel
      ]
    ]
    else ok tt

-- The new status of a record at the clock-out, if it changes.
unfoldable pub resolve_clock_out_status : Attendance → ℕ → Store → Option AttendanceStatus
resolve_clock_out_status attendance clock_out_at st = elim attendance.shift_id [
  | none ↦ none
  | some shift_id ↦ elim (find (λ (s : Shift). s.id == shift_id) st.shifts) [
    | none ↦ none
    | some shift ↦
        if leb shift.end_at clock_out_at
        then none
        else if attendance.status == AttendanceStatus.late
        then none
        else some AttendanceStatus.early_leave
  ]
]
