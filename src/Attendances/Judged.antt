-- ===== src/Attendances/Judged.antt =====
-- attendance-clockin.service.ts: what the judgement of a clock-in promises.
use able_work.Base.{
  ℕ, ◌<◌, ◌+◌, ◌*◌, ◌≤◌, ◌≡◌, refl, Bool, Option, none, some, ◌∷◌, Memᴰ, true, false, nat_eq, arith,
  Bool-cases, inl, inr, ◌⊎◌, not, if◌then◌else◌, is_some, ascending, head-sort_by_mem,
  mem-of_filter,
}
use able_work.Errors.{
  Error, ok, ◌>>◌, Holds, Holds-ok, Holds-bind, Holds-then, Holds-guard, Holds-eq_ok,
}
use able_work.Attendances.Types.{
  AttendanceStatus, UnscheduledPolicy, Attendance, Settings, Shift, Store, Env,
  attendance_status_eq,
}
use able_work.Attendances.ClockIn.{
  Judgement, determine_status, is_on_day, find_shift_for_clock_in, assert_unscheduled_allowed,
}
use able_work.Attendances.Service.{
  ClockIn, find_open, is_shift_taken, assert_employee, assert_membership, assert_position,
  assert_area, insert_attendance, clocked_row, check_unscheduled, clock_in,
}

-- How late a status is: before the time, in time, after it.
abbrev pub lateness : AttendanceStatus → ℕ
lateness AttendanceStatus.oncall = 0
lateness AttendanceStatus.normal = 1
lateness AttendanceStatus.deemed_work = 1
lateness AttendanceStatus.remote = 1
lateness AttendanceStatus.early_leave = 1
lateness AttendanceStatus.absent = 2
lateness AttendanceStatus.late = 2

-- A later clock-in for the same shift is judged as late at least as an earlier one: the status goes
-- from unscheduled over normal to late, or is deemed work throughout.
pub determine_status_mono :
    (settings : Settings) (shift : Shift) (t t' : ℕ)
    → t ≤ t'
    → lateness (determine_status settings t (some shift)).status
      ≤ lateness (determine_status settings t' (some shift)).status
unfolding determine_status
determine_status_mono settings shift t t' le = ground arith

-- The shift of an employee starts on the day of an instant, and may be clocked in for by then.
pub record IsDue (env : Env) (employee_id now : ℕ) (st : Store) (shift : Shift) : Type 0 where
  pub planned : Memᴰ shift st.shifts
  pub own : shift.employee_id ≡ employee_id
  pub today : (env.day_start now ≤ shift.start_at) × (shift.start_at ≤ env.day_end now)
  pub near :
      (shift.is_deemed_work ≡ true)
      ⊎ (shift.start_at ≤ now + env.settings.clockin_before_shift_minutes * 60_000)

found-IsDue :
    (env : Env) (employee_id now : ℕ) (st : Store) (shift : Shift)
    → find_shift_for_clock_in env employee_id now st ≡ some shift
    → (determine_status env.settings now (some shift)).is_oncall ≡ false
    → IsDue env employee_id now st shift
unfolding find_shift_for_clock_in determine_status
found-IsDue env employee_id now st shift found scheduled =
    let (planned, fits) =
      mem-of_filter (is_on_day env employee_id now) st.shifts
        (head-sort_by_mem (ascending (λ (s : Shift). s.start_at)) _ found) in
    record {
      planned = planned;
      own = ground arith;
      today = (ground arith, ground arith);
      near = elim (Bool-cases shift.is_deemed_work) [
        | inl deemed ↦ inl deemed
        | inr timed ↦ inr (ground arith)
      ];
    }

-- What the status of a clock-in says of it.
pub record IsJudged (settings : Settings) (now : ℕ) (shift : Shift) (status : AttendanceStatus)
    : Type 0 where
  pub deemed : shift.is_deemed_work ≡ true → status ≡ AttendanceStatus.deemed_work
  pub past_grace :
      shift.is_deemed_work ≡ false
      → shift.start_at + settings.late_grace_minutes * 60_000 < now
      → status ≡ AttendanceStatus.late
  pub in_time :
      shift.is_deemed_work ≡ false
      → now ≤ shift.start_at + settings.late_grace_minutes * 60_000
      → status ≡ AttendanceStatus.normal

-- What a clock-in leaves: one record more, of the employee, for a shift that is due and by which it is
-- judged.
pub record IsScheduled (env : Env) (employee_id now : ℕ) (st st' : Store) : Type 0 where
  pub shift : Shift
  pub row : Attendance
  pub due : IsDue env employee_id now st shift
  pub added : st'.attendances ≡ (row ∷ st.attendances)
  pub own : row.employee_id ≡ employee_id
  pub linked : row.shift_id ≡ some shift.id
  pub came : row.clock_in_at ≡ now
  pub unfinished : row.clock_out_at ≡ none
  pub scheduled : row.is_oncall ≡ false
  pub judged : IsJudged env.settings now shift row.status

determine_status-IsJudged :
    (settings : Settings) (now : ℕ) (shift : Shift)
    → (determine_status settings now (some shift)).is_oncall ≡ false
    → IsJudged settings now shift (determine_status settings now (some shift)).status
unfolding determine_status
determine_status-IsJudged settings now shift scheduled = record {
  deemed = λ d. ground arith;
  past_grace = λ d l. ground arith;
  in_time = λ d l. ground arith;
}

insert-IsScheduled :
    (env : Env) (employee_id now : ℕ) (st : Store) (shift : Shift)
    → IsDue env employee_id now st shift
    → (determine_status env.settings now (some shift)).is_oncall ≡ false
    → Holds (IsScheduled env employee_id now st) (
        insert_attendance
          (clocked_row st.drawn employee_id now
            (determine_status env.settings now (some shift))
            (some shift))
          st)
unfolding insert_attendance
insert-IsScheduled env employee_id now st shift due scheduled =
    let row =
      clocked_row st.drawn employee_id now (determine_status env.settings now (some shift))
        (some shift) in
    let P = IsScheduled env employee_id now st in
    let st' = record st { attendances = row ∷ st.attendances; drawn = st.drawn + 1 } in
    Holds-guard P (not (is_shift_taken shift.id st)) Error.unique_violation (ok st') (λ _.
      Holds-ok P st' (record {
        shift = shift;
        row = row;
        due = due;
        added = refl;
        own = refl;
        linked = refl;
        came = refl;
        unfinished = refl;
        scheduled = scheduled;
        judged = determine_status-IsJudged env.settings now shift scheduled;
      }))

no_oncall :
    (policy : UnscheduledPolicy) (found : Option Shift) (oncall : Bool)
    → policy ≡ UnscheduledPolicy.never
    → (if oncall then assert_unscheduled_allowed policy found else ok tt) ≡ ok tt
    → oncall ≡ false
unfolding assert_unscheduled_allowed
no_oncall policy found false never passes = refl
no_oncall UnscheduledPolicy.never found true never passes = cc
no_oncall UnscheduledPolicy.always found true never passes = cc
no_oncall UnscheduledPolicy.if_no_shift found true never passes = cc

-- The policy lets no unscheduled clock-in pass.
check_scheduled :
    (env : Env) (judged : Judgement) (found : Option Shift)
    → env.settings.allow_unscheduled ≡ UnscheduledPolicy.never
    → check_unscheduled env judged found ≡ ok tt
    → judged.is_oncall ≡ false
unfolding check_unscheduled
check_scheduled env judged found policy passes =
    no_oncall env.settings.allow_unscheduled found judged.is_oncall policy passes

rest-IsScheduled :
    (env : Env) (employee_id now : ℕ) (st : Store)
    → env.settings.allow_unscheduled ≡ UnscheduledPolicy.never
    → (found : Option Shift) → find_shift_for_clock_in env employee_id now st ≡ found
    → Holds (IsScheduled env employee_id now st) (do
      check_unscheduled env (determine_status env.settings now found) found
      insert_attendance
          (clocked_row st.drawn employee_id now (determine_status env.settings now found) found)
          st)
unfolding determine_status
rest-IsScheduled env employee_id now st policy none e =
    let P = IsScheduled env employee_id now st in
    let judged = determine_status env.settings now none in
    Holds-then P (check_unscheduled env judged none) _
      (λ passes. let scheduled = check_scheduled env judged none policy passes in cc)
rest-IsScheduled env employee_id now st policy (some shift) e =
    let P = IsScheduled env employee_id now st in
    let judged = determine_status env.settings now (some shift) in
    Holds-then P (check_unscheduled env judged (some shift)) _ (λ passes.
      let scheduled = check_scheduled env judged (some shift) policy passes in
      insert-IsScheduled env employee_id now st shift
        (found-IsDue env employee_id now st shift e scheduled) scheduled)

clock_in-IsScheduled' :
    (env : Env) (company_id employee_id : ℕ) (dto : ClockIn) (now : ℕ) (st : Store)
    → env.settings.allow_unscheduled ≡ UnscheduledPolicy.never
    → Holds (IsScheduled env employee_id now st) (clock_in env company_id employee_id dto now st)
unfolding clock_in
clock_in-IsScheduled' env company_id employee_id dto now st policy =
    let P = IsScheduled env employee_id now st in
    Holds-bind P (assert_employee company_id employee_id st) _ (λ _ _.
      Holds-then P (assert_membership employee_id dto.organization_id st) _ (λ _.
        Holds-then P (assert_position company_id dto.position_id st) _ (λ _.
          Holds-then P (assert_area env company_id dto st) _ (λ _.
            Holds-guard P (not (is_some (find_open employee_id st)))
              Error.attendance_already_clocked_in _
              (λ _. rest-IsScheduled env employee_id now st policy _ refl)))))

-- If the company admits no unscheduled clock-in and a clock-in succeeds, then it adds one record of the
-- employee, which is linked to a shift of theirs that starts on that day, and is not marked
-- unscheduled: its status is deemed work, late or normal as the shift and the grace period say, and
-- unless the shift is deemed work, the clock-in is no earlier before it than the settings allow.
pub clock_in-IsScheduled :
    (env : Env) (company_id employee_id : ℕ) (dto : ClockIn) (now : ℕ) (st st' : Store)
    → env.settings.allow_unscheduled ≡ UnscheduledPolicy.never
    → clock_in env company_id employee_id dto now st ≡ ok st'
    → IsScheduled env employee_id now st st'
clock_in-IsScheduled env company_id employee_id dto now st st' policy h =
    Holds-eq_ok (IsScheduled env employee_id now st) _ h
      (clock_in-IsScheduled' env company_id employee_id dto now st policy)
