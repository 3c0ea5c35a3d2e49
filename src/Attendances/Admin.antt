-- ===== src/Attendances/Admin.antt =====
-- attendances.service.ts: the administrator's change and deletion of a record, the replacement of its
-- breaks, and the confirmation of records and its release. Kinds of breaks, notes, who confirmed and
-- when, and the audit log are left out.
use able_work.Base.{
  ℕ, ◌+◌, ◌-◌, Bool, true, false, ◌&&◌, Option, none, some, List, [], ◌∷◌, ◌++◌, length, leb,
  if◌then◌else◌, ◌==◌, nat_eq, not, or_else, or_option, find, filter, any, map, includes,
}
use able_work.Access.{AccessLevel, JwtPayload}
use able_work.Calendar.{ms_per_day}
use able_work.Leaves.Service.{instant}
use able_work.Errors.{Error, Result, ok, err, ◌>>=◌, ◌>>◌, guard}
use able_work.Leaves.Groups.{found_or}
use able_work.Attendances.Types.{AttendanceStatus, Attendance, AttendanceBreak, Employee, Store}
use able_work.Attendances.Service.{assert_not_confirmed}

-- `employee: { companyId }`
abbrev pub is_of_company : ℕ → Store → Attendance → Bool
is_of_company company_id st a =
    any (λ (e : Employee). e.id == a.employee_id && e.company_id == company_id) st.employees

unfoldable pub assert_attendance : ℕ → ℕ → Store → Result Attendance
assert_attendance company_id id st =
    found_or (find (λ (a : Attendance). a.id == id && is_of_company company_id st a) st.attendances)
      Error.attendance_not_found

pub record UpdateAttendance : Type 0 where
  pub clock_in_at : Option ℕ
  pub clock_out_at : Option ℕ
  pub status : Option AttendanceStatus

-- The fields that are given.
abbrev pub updated_row : UpdateAttendance → Attendance → Attendance
updated_row dto a = record a {
  clock_in_at = or_else dto.clock_in_at a.clock_in_at;
  clock_out_at = or_option dto.clock_out_at a.clock_out_at;
  status = or_else dto.status a.status;
}

unfoldable pub update : ℕ → ℕ → UpdateAttendance → Store → Result Store
unfolding assert_attendance assert_not_confirmed
update company_id id dto st = do
  attendance ← assert_attendance company_id id st
  assert_not_confirmed attendance
  ok (record st {
    attendances =
        map (λ (a : Attendance). if a.id == id then updated_row dto a else a) st.attendances;
  })

-- The breaks of a deleted record go with it, as the foreign key has it.
unfoldable pub remove : ℕ → ℕ → Store → Result Store
unfolding assert_attendance assert_not_confirmed
remove company_id id st = do
  attendance ← assert_attendance company_id id st
  assert_not_confirmed attendance
  ok (record st {
    attendances = filter (λ (a : Attendance). not (a.id == id)) st.attendances;
    breaks = filter (λ (b : AttendanceBreak). not (b.attendance_id == id)) st.breaks;
  })

unfoldable pub organizations_of : ℕ → List Employee → List ℕ
organizations_of employee_id [] = []
organizations_of employee_id (e ∷ es) =
    let rest = organizations_of employee_id es in
    if e.id == employee_id then e.organization_ids ++ rest else rest

unfoldable pub guard_org_scope : JwtPayload → Attendance → Store → Result (Unit {0})
unfolding organizations_of includes
guard_org_scope requester attendance st = elim requester.access_level [
  | AccessLevel.super_admin ↦ ok tt
  | AccessLevel.general_admin ↦ ok tt
  | AccessLevel.employee ↦
      guard (requester.employee_id == attendance.employee_id) Error.attendance_forbidden
  | AccessLevel.org_admin ↦
      guard
        (any (includes (organizations_of requester.employee_id st.employees))
          (organizations_of attendance.employee_id st.employees))
        Error.attendance_forbidden
]

-- The breaks that a request gives: a start and perhaps an end each.
unfoldable pub new_breaks : ℕ → ℕ → List (ℕ × Option ℕ) → List AttendanceBreak
new_breaks attendance_id id [] = []
new_breaks attendance_id id (b ∷ bs) =
    record { id = id; attendance_id = attendance_id; start_at = b.0; end_at = b.1 }
    ∷ new_breaks attendance_id (id + 1) bs

unfoldable pub update_breaks : ℕ → ℕ → List (ℕ × Option ℕ) → JwtPayload → Store → Result Store
unfolding assert_attendance guard_org_scope assert_not_confirmed new_breaks
update_breaks company_id id given requester st = do
  attendance ← assert_attendance company_id id st
  guard_org_scope requester attendance st
  assert_not_confirmed attendance
  ok (record st {
    breaks =
        filter (λ (b : AttendanceBreak). not (b.attendance_id == id)) st.breaks
        ++ new_breaks id st.drawn given;
    drawn = st.drawn + length given;
  })

-- Dates are day numbers.
pub record ConfirmPeriod : Type 0 where
  pub attendance_ids : Option (List ℕ)
  pub start_date : Option ℕ
  pub end_date : Option ℕ
  pub employee_ids : Option (List ℕ)

-- The condition on the ids, which an empty list does not restrict.
unfoldable pub has_id : Option (List ℕ) → ℕ → Bool
unfolding includes
has_id none id = true
has_id (some []) id = true
has_id (some (i ∷ is)) id = includes (i ∷ is) id

unfoldable pub is_since : Option ℕ → ℕ → Bool
is_since none t = true
is_since (some date) t = leb (instant date) t

unfoldable pub is_until : Option ℕ → ℕ → Bool
is_until none t = true
is_until (some date) t = leb t (instant date + (ms_per_day - 1))

-- The records that a confirmation is about, but for their state.
unfoldable pub is_confirmable : ℕ → ConfirmPeriod → Store → Attendance → Bool
unfolding has_id is_since is_until includes
is_confirmable company_id dto st a =
    is_of_company company_id st a
    && has_id dto.attendance_ids a.id
    && (elim dto.start_date [
      | none ↦ true
      | some date ↦ is_since (some date) a.clock_in_at && is_until dto.end_date a.clock_in_at
    ])
    && (elim dto.employee_ids [ none ↦ true | some es ↦ includes es a.employee_id ])

-- `updateMany`, which leaves the records that have the state already.
abbrev pub marked : Bool → Bool → Attendance → Attendance
marked state selected a = if selected then record a { is_confirmed = state } else a

unfoldable pub confirm_period : ℕ → ConfirmPeriod → Store → Store
unfolding is_confirmable
confirm_period company_id dto st = record st {
  attendances =
      map
        (λ (a : Attendance).
          marked true (is_confirmable company_id dto st a && not a.is_confirmed) a)
        st.attendances;
}

pub record UnconfirmAttendances : Type 0 where
  pub attendance_ids : Option (List ℕ)
  pub start_date : Option ℕ
  pub end_date : Option ℕ

-- The records that a release is about, but for their state. A period counts only with both ends.
unfoldable pub is_releasable : ℕ → UnconfirmAttendances → Store → Attendance → Bool
unfolding has_id is_since is_until
is_releasable company_id dto st a =
    is_of_company company_id st a && has_id dto.attendance_ids a.id && (elim dto.start_date [
      | none ↦ true
      | some first ↦ elim dto.end_date [
        | none ↦ true
        | some last ↦ is_since (some first) a.clock_in_at && is_until (some last) a.clock_in_at
      ]
    ])

unfoldable pub released : ℕ → UnconfirmAttendances → Store → Store
unfolding is_releasable
released company_id dto st = record st {
  attendances =
      map (λ (a : Attendance). marked false (is_releasable company_id dto st a && a.is_confirmed) a)
        st.attendances;
}

unfoldable pub unconfirm : ℕ → UnconfirmAttendances → JwtPayload → Store → Result Store
unfolding released
unconfirm company_id dto requester st = elim requester.access_level [
  | AccessLevel.super_admin ↦ ok (released company_id dto st)
  | AccessLevel.general_admin ↦ ok (released company_id dto st)
  | AccessLevel.org_admin ↦ err Error.attendance_forbidden
  | AccessLevel.employee ↦ err Error.attendance_forbidden
]
