-- ===== src/Attendances/Protected.antt =====
-- attendances.service.ts: no operation but the release changes a confirmed record or its breaks.
use able_work.Base.{
  ℕ, ◌≡◌, refl, ap, ◌∙◌, subst, Bool, true, false, not, Option, none, some, List, ◌==◌, nat_eq,
  nat_beq_iff, ◌&&◌, if◌then◌else◌, filter, map, descending, head-sort_by_mem, mem-of_filter,
  mem-filter_of, Memᴰ, All-of_get, Bool-cases, inl, inr, arith,
}
use able_work.Access.{JwtPayload}
use able_work.Errors.{Error, ok, Holds, Holds-ok, Holds-bind, Holds-then, Holds-eq_ok}
use able_work.Leaves.Groups.{found_or}
use able_work.Attendances.Types.{Attendance, AttendanceBreak, Store, Env}
use able_work.Attendances.Service.{
  ClockIn, CreateAttendance, create_manual, assert_not_confirmed, clock_in, clock_out, break_start,
  open_break, is_open_break, break_end,
}
use able_work.Attendances.Admin.{
  assert_attendance, UpdateAttendance, updated_row, update, remove, guard_org_scope, update_breaks,
  ConfirmPeriod, confirm_period,
}
use able_work.Attendances.Kept.{
  HasUniqueIds, Kept, other_id, mem-map_other, filter-other_breaks, filter-append_new,
  filter-map_breaks, found_or-Holds, assert_attendance-IsRow, not_confirmed, own_open-Kept,
  clock_in-Kept, create_manual-Kept, clock_out-Kept, break_start-Kept, confirm_period-Kept,
}

module _ (st : Store) (unique : HasUniqueIds st) where
  -- The record on which an operation of an administrator acts is not a confirmed one.
  named_other :
      (company_id id : ℕ) (b : Attendance)
      → assert_attendance company_id id st ≡ ok b
      → assert_not_confirmed b ≡ ok tt
      → (a : Attendance) → Memᴰ a st.attendances
      → a.is_confirmed ≡ true
      → (a.id == id) ≡ false
  named_other company_id id b found fresh a ma yes_a =
      let (m, same) =
        Holds-eq_ok (λ x. Memᴰ x st.attendances × (x.id ≡ id)) _ found
          (assert_attendance-IsRow company_id id st) in
      subst (λ i. (a.id == i) ≡ false) same
        (other_id st unique a b ma yes_a m (not_confirmed b fresh))

  update-Kept :
      (company_id id : ℕ) (dto : UpdateAttendance) → Holds (Kept st) (update company_id id dto st)
  unfolding update
  update-Kept company_id id dto =
      Holds-bind (Kept st) (assert_attendance company_id id st) _ (λ b found.
        Holds-then (Kept st) (assert_not_confirmed b) _ (λ fresh.
          let f : Attendance → Attendance = λ x. if x.id == id then updated_row dto x else x in
          Holds-ok (Kept st) (record st { attendances = map f st.attendances })
            (λ a m yes_a.
              let other = named_other company_id id b found fresh a m yes_a in
              (mem-map_other f st.attendances a (rw other refl) m, refl))))

  remove-Kept : (company_id id : ℕ) → Holds (Kept st) (remove company_id id st)
  unfolding remove
  remove-Kept company_id id =
      Holds-bind (Kept st) (assert_attendance company_id id st) _ (λ b found.
        Holds-then (Kept st) (assert_not_confirmed b) _ (λ fresh. Holds-ok (Kept st) _ (λ a m yes_a.
          let other = named_other company_id id b found fresh a m yes_a in
          (
            mem-filter_of (λ (x : Attendance). not (x.id == id)) st.attendances m (rw other refl),
            filter-other_breaks a.id id st.breaks other,
          ))))

  update_breaks-Kept :
      (company_id id : ℕ) (given : List (ℕ × Option ℕ)) (who : JwtPayload)
      → Holds (Kept st) (update_breaks company_id id given who st)
  unfolding update_breaks
  update_breaks-Kept company_id id given who =
      Holds-bind (Kept st) (assert_attendance company_id id st) _ (λ b found.
        Holds-then (Kept st) (guard_org_scope who b st) _ (λ _.
          Holds-then (Kept st) (assert_not_confirmed b) _ (λ fresh.
            Holds-ok (Kept st) _ (λ a m yes_a.
              let other = named_other company_id id b found fresh a m yes_a in
              (
                m,
                filter-append_new a.id id st.drawn given
                      (filter (λ (x : AttendanceBreak). not (x.attendance_id == id)) st.breaks)
                      other
                    ∙ filter-other_breaks a.id id st.breaks other,
              )))))

  second_test : (p : Bool) (i j : ℕ) (q : Bool) → p && i == j && q ≡ true → i ≡ j
  second_test p i j q h = ground (arith, h)

  open_break-IsRow :
      (break_id : Option ℕ) (attendance_id : ℕ) (found : AttendanceBreak)
      → found_or (open_break break_id attendance_id st) Error.break_not_found ≡ ok found
      → Memᴰ found st.breaks × (found.attendance_id ≡ attendance_id)
  unfolding open_break
  open_break-IsRow break_id attendance_id found h =
      let P : AttendanceBreak → Type 0 =
        λ b. Memᴰ b st.breaks × (b.attendance_id ≡ attendance_id) in
      Holds-eq_ok P _ h (
        found_or-Holds P (open_break break_id attendance_id st) Error.break_not_found (λ b e.
          let (m, fits) =
            mem-of_filter (is_open_break break_id attendance_id) st.breaks
              (head-sort_by_mem (descending (λ (x : AttendanceBreak). x.start_at)) _ e) in
          (m, second_test (elim break_id [ none ↦ true | some i ↦ b.id == i ]) _ _ _ fits)))

  break_end-Kept :
      (company_id employee_id : ℕ) (break_id : Option ℕ) (now : ℕ)
      → Holds (Kept st) (break_end company_id employee_id break_id now st)
  unfolding break_end
  break_end-Kept company_id employee_id break_id now =
      own_open-Kept st unique company_id employee_id _ (λ b other.
        Holds-bind (Kept st) (found_or (open_break break_id b.id st) Error.break_not_found) _
          (λ found e.
            let (m, of_b) = open_break-IsRow break_id b.id found e in
            let f : AttendanceBreak → AttendanceBreak =
              λ x. if x.id == found.id then record x { end_at = some now } else x in
            Holds-ok (Kept st) (record st { breaks = map f st.breaks })
              (λ a ma yes_a. (
                ma,
                filter-map_breaks a.id f st.breaks (
                    All-of_get _ st.breaks (λ x mx. elim (Bool-cases (x.id == found.id)) [
                      | inr differ ↦ inl (rw differ refl)
                      | inl same ↦
                          let e_x =
                            unique.breaks x found mx m ((nat_beq_iff x.id found.id).0 same) in
                          let of_x : x.attendance_id ≡ b.id =
                            ap (λ (y : AttendanceBreak). y.attendance_id) e_x ∙ of_b in
                          let apart : (x.attendance_id == a.id) ≡ false =
                            ground (arith, of_x, other a ma yes_a) in
                          inr (apart, rw same apart)
                    ])),
              ))))

-- The operations on records, but for the release of a confirmation.
pub data RecordStep : Store → Store → Type 0 where
  clocked_in :
      (env : Env) (company_id employee_id : ℕ) (dto : ClockIn) (now : ℕ) (st st' : Store)
      → clock_in env company_id employee_id dto now st ≡ ok st'
      → RecordStep st st'
  clocked_out :
      (company_id employee_id now : ℕ) (st st' : Store)
      → clock_out company_id employee_id now st ≡ ok st'
      → RecordStep st st'
  break_started :
      (company_id employee_id now : ℕ) (st st' : Store)
      → break_start company_id employee_id now st ≡ ok st'
      → RecordStep st st'
  break_ended :
      (company_id employee_id : ℕ) (break_id : Option ℕ) (now : ℕ) (st st' : Store)
      → break_end company_id employee_id break_id now st ≡ ok st'
      → RecordStep st st'
  added :
      (env : Env) (company_id : ℕ) (dto : CreateAttendance) (st st' : Store)
      → create_manual env company_id dto st ≡ ok st'
      → RecordStep st st'
  changed :
      (company_id id : ℕ) (dto : UpdateAttendance) (st st' : Store)
      → update company_id id dto st ≡ ok st'
      → RecordStep st st'
  removed :
      (company_id id : ℕ) (st st' : Store) → remove company_id id st ≡ ok st' → RecordStep st st'
  breaks_replaced :
      (company_id id : ℕ) (given : List (ℕ × Option ℕ)) (who : JwtPayload) (st st' : Store)
      → update_breaks company_id id given who st ≡ ok st'
      → RecordStep st st'
  period_confirmed :
      (company_id : ℕ) (dto : ConfirmPeriod) (st : Store)
      → RecordStep st (confirm_period company_id dto st)

-- Where records and breaks have ids of their own, a successful operation of the attendance service
-- other than the release of a confirmation, by whomever it is done, leaves each confirmed record as it
-- was, with the same breaks.
pub record_step-Kept : {st st' : Store} → HasUniqueIds st → RecordStep st st' → Kept st st'
record_step-Kept unique (RecordStep.clocked_in env c e dto now st st' h) =
    Holds-eq_ok (Kept st) _ h (clock_in-Kept st env c e dto now)
record_step-Kept unique (RecordStep.clocked_out c e now st st' h) =
    Holds-eq_ok (Kept st) _ h (clock_out-Kept st unique c e now)
record_step-Kept unique (RecordStep.break_started c e now st st' h) =
    Holds-eq_ok (Kept st) _ h (break_start-Kept st unique c e now)
record_step-Kept unique (RecordStep.break_ended c e i now st st' h) =
    Holds-eq_ok (Kept st) _ h (break_end-Kept st unique c e i now)
record_step-Kept unique (RecordStep.added env c dto st st' h) =
    Holds-eq_ok (Kept st) _ h (create_manual-Kept st env c dto)
record_step-Kept unique (RecordStep.changed c id dto st st' h) =
    Holds-eq_ok (Kept st) _ h (update-Kept st unique c id dto)
record_step-Kept unique (RecordStep.removed c id st st' h) =
    Holds-eq_ok (Kept st) _ h (remove-Kept st unique c id)
record_step-Kept unique (RecordStep.breaks_replaced c id given who st st' h) =
    Holds-eq_ok (Kept st) _ h (update_breaks-Kept st unique c id given who)
record_step-Kept unique (RecordStep.period_confirmed c dto st) = confirm_period-Kept st c dto
