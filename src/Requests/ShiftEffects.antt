-- ===== src/Requests/ShiftEffects.antt =====
-- request-effects.service.ts: the approved requests for shifts and attendance records. The shift
-- types stand in the order of their creation, and a date is a day number. Notes are left out.
use able_work.Base.{
  ℕ, ◌+◌, ◌/◌, Bool, ◌||◌, is_some, true, false, ◌&&◌, Option, none, some, ◌∷◌, leb, if◌then◌else◌,
  ◌==◌, nat_eq, not, or_else, or_option, find, filter, any, map, head?, sort_by, ascending,
}
use able_work.Errors.{Error, Result, ok, err, ◌>>=◌, ◌>>◌, guard}
use able_work.Calendar.{ms_per_day}
use able_work.Leaves.Groups.{found_or}
use able_work.Requests.Types.{
  Payload, EmployeeOrganization, ShiftType, ShiftTemplate, Shift, Attendance, Store, Env,
}
use able_work.Requests.LeaveEffects.{required}

-- An organization of the company.
unfoldable pub is_company_org : ℕ → ℕ → Store → Bool
is_company_org company_id organization_id st =
    any (λ o. o.id == organization_id && o.company_id == company_id) st.organizations

-- The membership that `orderBy: [{ isPrimary: 'desc' }]` puts first.
unfoldable pub primary_membership : ℕ → ℕ → Store → Option EmployeeOrganization
unfolding is_company_org
primary_membership company_id employee_id st =
    let own =
      filter (λ m. m.employee_id == employee_id && is_company_org company_id m.organization_id st)
        st.memberships in
    or_option (find (λ (m : EmployeeOrganization). m.is_primary) own) (head? own)

unfoldable pub find_template : ℕ → ℕ → Store → Option ShiftTemplate
find_template company_id template_id st =
    find (λ t. t.id == template_id && t.company_id == company_id && t.is_active) st.shift_templates

unfoldable pub default_shift_type : ℕ → Store → Option ShiftType
default_shift_type company_id st =
    find (λ t. t.company_id == company_id && t.is_active) st.shift_types

-- An end that is not after its start is put on the next day.
unfoldable pub end_after : ℕ → ℕ → ℕ
end_after start_at end_at = if leb end_at start_at then end_at + ms_per_day else end_at

unfoldable pub validate_shift_create_payload : ℕ → Payload → Store → Result (Unit {0})
unfolding find_template default_shift_type
validate_shift_create_payload company_id payload st = elim payload.template_id [
  | some template_id ↦ elim (find_template company_id template_id st) [
    | none ↦ err Error.shift_template_not_found
    | some _ ↦ ok tt
  ]
  | none ↦ elim (default_shift_type company_id st) [
    | none ↦ err Error.shift_type_not_found
    | some _ ↦ ok tt
  ]
]

-- The type, the template and the times that a request gives a shift.
pub record ShiftPlan : Type 0 where
  pub shift_type_id : ℕ
  pub template_id : Option ℕ
  pub start_at : ℕ
  pub end_at : ℕ

module _ (env : Env) (company_id employee_id : ℕ) (payload : Payload) where
  unfoldable pub plan_shift : ℕ → Store → Result ShiftPlan
  unfolding find_template default_shift_type
  plan_shift date st = elim payload.template_id [
    | some template_id ↦ elim (find_template company_id template_id st) [
      | none ↦ err Error.shift_template_not_found
      | some t ↦ ok (record {
        shift_type_id = t.shift_type_id;
        template_id = some t.id;
        start_at = env.local_time date t.start_time;
        end_at = env.local_time date t.end_time;
      })
    ]
    | none ↦ elim (default_shift_type company_id st) [
      | none ↦ err Error.shift_type_not_found
      | some t ↦ ok (record {
        shift_type_id = t.id;
        template_id = none;
        start_at = env.local_time date (or_else payload.start_time 540);
        end_at = env.local_time date (or_else payload.end_time 1080);
      })
    ]
  ]

  unfoldable pub apply_shift_create : Store → Result Store
  unfolding primary_membership plan_shift end_after
  apply_shift_create st = do
    date ← required payload.date
    org ←
        found_or (primary_membership company_id employee_id st)
          Error.employee_organization_not_found
    plan ← plan_shift date st
    ok (record st {
      shifts =
          record {
            id = st.drawn;
            employee_id = employee_id;
            organization_id = org.organization_id;
            shift_type_id = plan.shift_type_id;
            template_id = plan.template_id;
            start_at = plan.start_at;
            end_at = end_after plan.start_at plan.end_at;
            is_confirmed = true;
          }
          ∷ st.shifts;
      drawn = st.drawn + 1;
    })

  -- The requester's own shift in an organization of the company.
  unfoldable pub own_shift : ℕ → Store → Result Shift
  unfolding is_company_org
  own_shift shift_id st =
      found_or
        (find
          (λ s.
            s.id == shift_id
            && s.employee_id == employee_id
            && is_company_org company_id s.organization_id st)
          st.shifts)
        Error.shift_not_found

  -- The times of a shift after a change; the date stays that of the start in UTC where none is given.
  unfoldable pub modified_shift : Shift → Shift
  unfolding end_after
  modified_shift shift =
      let base_date = or_else payload.date (shift.start_at / ms_per_day) in
      let new_start : ℕ = elim payload.start_time [
        | none ↦ shift.start_at
        | some m ↦ env.local_time base_date m
      ] in
      let new_end : ℕ = elim payload.end_time [
        | none ↦ shift.end_at
        | some m ↦ env.local_time base_date m
      ] in
      record shift { start_at = new_start; end_at = end_after new_start new_end }

  unfoldable pub apply_shift_modify : Store → Result Store
  unfolding own_shift modified_shift
  apply_shift_modify st = do
    shift_id ← required payload.shift_id
    shift ← own_shift shift_id st
    ok (record st {
      shifts =
          map
            (λ s.
              if s.id == shift_id
              then record s {
                start_at = (modified_shift shift).start_at;
                end_at = (modified_shift shift).end_at;
              }
              else s)
            st.shifts;
    })

  unfoldable pub apply_shift_delete : Store → Result Store
  unfolding own_shift
  apply_shift_delete st = do
    shift_id ← required payload.shift_id
    _ ← own_shift shift_id st
    ok (record st { shifts = filter (λ s. not (s.id == shift_id)) st.shifts })

  abbrev is_company_employee : ℕ → Store → Bool
  is_company_employee e st = any (λ x. x.id == e && x.company_id == company_id) st.leave.employees

  -- The record that the payload names, else the first of the day.
  unfoldable pub attendance_of : ℕ → Store → Option Attendance
  unfolding sort_by
  attendance_of date st = elim payload.attendance_id [
    | some attendance_id ↦
        find
          (λ a.
            a.id == attendance_id
            && a.employee_id == employee_id
            && is_company_employee a.employee_id st)
          st.attendances
    | none ↦ head? (
        sort_by (ascending (λ a. a.clock_in_at)) (
          filter
            (λ a.
              a.employee_id == employee_id
              && is_company_employee a.employee_id st
              && leb (env.local_time date 0) a.clock_in_at
              && leb a.clock_in_at (env.local_time date 1439 + 59_999))
            st.attendances))
  ]

  -- The new times; a clock-out that is not after the clock-in is put on the next day.
  unfoldable pub new_clock_out : ℕ → Option ℕ
  unfolding end_after
  new_clock_out date = elim payload.clock_out_at [
    | none ↦ none
    | some out ↦ some (elim payload.clock_in_at [
      | none ↦ env.local_time date out
      | some m ↦ end_after (env.local_time date m) (env.local_time date out)
    ])
  ]

  unfoldable pub new_clock_in : ℕ → Option ℕ
  new_clock_in date = elim payload.clock_in_at [
    | none ↦ none
    | some m ↦ some (env.local_time date m)
  ]

  -- The date is read for the times, and to look for the record where the payload names none.
  unfoldable pub date_read : Result ℕ
  date_read = elim payload.date [
    | some date ↦ ok date
    | none ↦
        if is_some payload.attendance_id
          && not (is_some payload.clock_in_at || is_some payload.clock_out_at)
        then ok 0
        else err Error.invalid_query
  ]

  -- An update writes the times that are given; without a record one is created.
  unfoldable pub apply_attendance_upsert : Store → Result Store
  unfolding date_read attendance_of new_clock_in new_clock_out
  apply_attendance_upsert st = do
    date ← date_read
    elim (attendance_of date st) [
      | some existing ↦ do
        guard (not existing.is_confirmed) Error.attendance_already_confirmed
        ok (record st {
          attendances =
              map
                (λ a.
                  if a.id == existing.id
                  then record a {
                    clock_in_at = or_else (new_clock_in date) a.clock_in_at;
                    clock_out_at = or_option (new_clock_out date) a.clock_out_at;
                  }
                  else a)
                st.attendances;
        })
      | none ↦ do
        clock_in ← found_or (new_clock_in date) Error.request_payload_invalid
        ok (record st {
          attendances =
              record {
                id = st.drawn;
                employee_id = employee_id;
                clock_in_at = clock_in;
                clock_out_at = new_clock_out date;
                is_confirmed = false;
              }
              ∷ st.attendances;
          drawn = st.drawn + 1;
        })
    ]

  -- The requester's own record.
  unfoldable pub own_attendance : ℕ → Store → Result Attendance
  own_attendance attendance_id st =
      found_or
        (find
          (λ a.
            a.id == attendance_id
            && a.employee_id == employee_id
            && is_company_employee a.employee_id st)
          st.attendances)
        Error.attendance_not_found

  unfoldable pub apply_attendance_delete : Store → Result Store
  unfolding own_attendance
  apply_attendance_delete st = do
    attendance_id ← required payload.attendance_id
    attendance ← own_attendance attendance_id st
    guard (not attendance.is_confirmed) Error.attendance_already_confirmed
    ok (record st { attendances = filter (λ a. not (a.id == attendance_id)) st.attendances })
