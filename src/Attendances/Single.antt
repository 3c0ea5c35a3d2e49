-- ===== src/Attendances/Single.antt =====
-- attendances.service.ts, `clockIn`, `clockOut` and the breaks: the open records of an employee.
use able_work.Base.{
  ℕ, ◌+◌, ◌≤◌, ◌≡◌, refl, subst, Bool, Option, none, some, List, [], ◌∷◌, false, find, count, map,
  nat_eq, not, is_some, arith, Bool-cases, inl, inr,
}
use able_work.Errors.{ok, Error, Holds, Holds-ok, Holds-bind, Holds-then, Holds-guard, Holds-eq_ok}
use able_work.Leaves.Groups.{found_or}
use able_work.Attendances.Types.{Attendance, Store, Env}
use able_work.Attendances.ClockIn.{
  determine_status, find_shift_for_clock_in, resolve_clock_out_status,
}
use able_work.Attendances.Service.{
  ClockIn, CreateAttendance, is_open, find_open, is_shift_taken, assert_employee, assert_membership,
  assert_position, assert_area, insert_attendance, clocked_row, check_unscheduled, clock_in,
  own_open, assert_not_confirmed, closed_row, clock_out, break_start, break_end, open_break,
  manual_row, judge, free_shift, create_manual,
}

-- No employee has two records without a clock-out.
abbrev pub SingleOpen : Store → Type 0
SingleOpen st = (e : ℕ) → count (is_open e) st.attendances ≤ 1

count-find_none :
    (p : Attendance → Bool) (xs : List Attendance) → is_some (find p xs) ≡ false → count p xs ≡ 0
count-find_none p [] h = refl
count-find_none p (x ∷ xs) h = ground (arith, count-find_none p xs)

-- A change that opens no record leaves at most as many open ones.
count-map_le :
    (p : Attendance → Bool) (f : Attendance → Attendance) (xs : List Attendance)
    → ((a : Attendance) → p a ≡ false → p (f a) ≡ false)
    → count p (map f xs) ≤ count p xs
count-map_le p f [] kept = omega arith
count-map_le p f (x ∷ xs) kept =
    let rest = count-map_le p f xs kept in let here = kept x in ground arith

-- A new record is open for its own employee only, and closed if it has a clock-out.
count_new :
    (e : ℕ) (row : Attendance) (xs : List Attendance)
    → ((row.clock_out_at ≡ none) → count (is_open row.employee_id) xs ≡ 0)
    → count (is_open e) xs ≤ 1
    → count (is_open e) (row ∷ xs) ≤ 1
count_new e row xs free old = elim (Bool-cases (is_open e row)) [
  | inl opened ↦
      let mine : row.employee_id ≡ e = grind arith in
      let no_end : row.clock_out_at ≡ none = grind arith in
      let none_before : count (is_open e) xs ≡ 0 =
        subst (λ k. count (is_open k) xs ≡ 0) mine (free no_end) in
      ground arith
  | inr closed ↦ ground arith
]

insert_attendance-SingleOpen :
    (row : Attendance) (st : Store)
    → (row.clock_out_at ≡ none → count (is_open row.employee_id) st.attendances ≡ 0)
    → SingleOpen st
    → Holds SingleOpen (insert_attendance row st)
unfolding insert_attendance
insert_attendance-SingleOpen row st free single =
    let free_shift : Bool =
      not (elim row.shift_id [ none ↦ false | some s ↦ is_shift_taken s st ]) in
    let st' = record st { attendances = row ∷ st.attendances; drawn = st.drawn + 1 } in
    Holds-guard SingleOpen free_shift Error.unique_violation (ok st')
      (λ _. Holds-ok SingleOpen st' (λ e. count_new e row st.attendances free (single e)))

clock_in-SingleOpen :
    (env : Env) (company_id employee_id : ℕ) (dto : ClockIn) (now : ℕ) (st : Store)
    → SingleOpen st
    → Holds SingleOpen (clock_in env company_id employee_id dto now st)
unfolding clock_in find_open
clock_in-SingleOpen env company_id employee_id dto now st single =
    let P = SingleOpen in
    let shift = find_shift_for_clock_in env employee_id now st in
    let judged = determine_status env.settings now shift in
    Holds-bind P (assert_employee company_id employee_id st) _ (λ _ _.
      Holds-then P (assert_membership employee_id dto.organization_id st) _ (λ _.
        Holds-then P (assert_position company_id dto.position_id st) _ (λ _.
          Holds-then P (assert_area env company_id dto st) _ (λ _.
            Holds-guard P (not (is_some (find_open employee_id st)))
              Error.attendance_already_clocked_in _
              (λ closed. Holds-then P (check_unscheduled env judged shift) _ (λ _.
                insert_attendance-SingleOpen (clocked_row st.drawn employee_id now judged shift) st
                  (λ _. count-find_none (is_open employee_id) st.attendances (ground arith))
                  single))))))

create_manual-SingleOpen :
    (env : Env) (company_id : ℕ) (dto : CreateAttendance) (t : ℕ) (st : Store)
    → dto.clock_out_at ≡ some t
    → SingleOpen st
    → Holds SingleOpen (create_manual env company_id dto st)
unfolding create_manual
create_manual-SingleOpen env company_id dto t st ended single =
    let shift = find_shift_for_clock_in env dto.employee_id dto.clock_in_at st in
    let judged = judge env dto shift in
    Holds-bind SingleOpen (assert_employee company_id dto.employee_id st) _ (λ _ _.
      insert_attendance-SingleOpen (manual_row st.drawn dto judged (free_shift shift st)) st
        (λ ongoing. cc) single)

clock_out-SingleOpen :
    (company_id employee_id now : ℕ) (st : Store)
    → SingleOpen st
    → Holds SingleOpen (clock_out company_id employee_id now st)
unfolding clock_out
clock_out-SingleOpen company_id employee_id now st single =
    let P = SingleOpen in
    Holds-bind P (own_open company_id employee_id st) _ (λ a _.
      Holds-then P (assert_not_confirmed a) _ (λ _.
        let close = closed_row a.id now (resolve_clock_out_status a now st) in
        Holds-ok P (record st { attendances = map close st.attendances })
          (λ e.
            let kept = count-map_le (is_open e) close st.attendances (λ b closed. ground arith) in
            omega (arith, kept, single e))))

break_start-SingleOpen :
    (company_id employee_id now : ℕ) (st : Store)
    → SingleOpen st
    → Holds SingleOpen (break_start company_id employee_id now st)
unfolding break_start
break_start-SingleOpen company_id employee_id now st single =
    let P = SingleOpen in
    Holds-bind P (own_open company_id employee_id st) _
      (λ a _. Holds-then P (assert_not_confirmed a) _ (λ _. Holds-ok P _ single))

break_end-SingleOpen :
    (company_id employee_id : ℕ) (break_id : Option ℕ) (now : ℕ) (st : Store)
    → SingleOpen st
    → Holds SingleOpen (break_end company_id employee_id break_id now st)
unfolding break_end
break_end-SingleOpen company_id employee_id break_id now st single =
    let P = SingleOpen in
    Holds-bind P (own_open company_id employee_id st) _ (λ a _.
      Holds-then P (assert_not_confirmed a) _ (λ _.
        Holds-bind P (found_or (open_break break_id a.id st) Error.break_not_found) _
          (λ b _. Holds-ok P _ single)))

-- The operations on records, by the employee and by an administrator who gives a clock-out.
pub data AttendanceStep : Store → Store → Type 0 where
  clocked_in :
      (env : Env) (company_id employee_id : ℕ) (dto : ClockIn) (now : ℕ) (st st' : Store)
      → clock_in env company_id employee_id dto now st ≡ ok st'
      → AttendanceStep st st'
  clocked_out :
      (company_id employee_id now : ℕ) (st st' : Store)
      → clock_out company_id employee_id now st ≡ ok st'
      → AttendanceStep st st'
  break_started :
      (company_id employee_id now : ℕ) (st st' : Store)
      → break_start company_id employee_id now st ≡ ok st'
      → AttendanceStep st st'
  break_ended :
      (company_id employee_id : ℕ) (break_id : Option ℕ) (now : ℕ) (st st' : Store)
      → break_end company_id employee_id break_id now st ≡ ok st'
      → AttendanceStep st st'
  added :
      (env : Env) (company_id : ℕ) (dto : CreateAttendance) (t : ℕ) (st st' : Store)
      → dto.clock_out_at ≡ some t
      → create_manual env company_id dto st ≡ ok st'
      → AttendanceStep st st'

pub data AttendanceSteps : Store → Store → Type 0 where
  done : (st : Store) → AttendanceSteps st st
  step :
      (st st' st'' : Store)
      → AttendanceStep st st'
      → AttendanceSteps st' st''
      → AttendanceSteps st st''

step-SingleOpen : {st st' : Store} → AttendanceStep st st' → SingleOpen st → SingleOpen st'
step-SingleOpen (AttendanceStep.clocked_in env c e dto now st st' h) single =
    Holds-eq_ok SingleOpen _ h (clock_in-SingleOpen env c e dto now st single)
step-SingleOpen (AttendanceStep.clocked_out c e now st st' h) single =
    Holds-eq_ok SingleOpen _ h (clock_out-SingleOpen c e now st single)
step-SingleOpen (AttendanceStep.break_started c e now st st' h) single =
    Holds-eq_ok SingleOpen _ h (break_start-SingleOpen c e now st single)
step-SingleOpen (AttendanceStep.break_ended c e i now st st' h) single =
    Holds-eq_ok SingleOpen _ h (break_end-SingleOpen c e i now st single)
step-SingleOpen (AttendanceStep.added env c dto t st st' ended h) single =
    Holds-eq_ok SingleOpen _ h (create_manual-SingleOpen env c dto t st ended single)

-- If no employee has two records without a clock-out, then this is so after any sequence of
-- successful clock-ins, clock-outs, starts and ends of breaks, and records that an administrator adds
-- with a clock-out.
pub steps-SingleOpen : {st st' : Store} → AttendanceSteps st st' → SingleOpen st → SingleOpen st'
steps-SingleOpen (AttendanceSteps.done st) single = single
steps-SingleOpen (AttendanceSteps.step st st' st'' one rest) single =
    steps-SingleOpen rest (step-SingleOpen one single)
