-- ===== src/Attendances/Kept.antt =====
-- attendances.service.ts: what the confirmation of a record protects, in the operations of an employee
-- and in those that only add or confirm.
use able_work.Base.{
  ℕ, ◌+◌, ◌≡◌, refl, ap, subst, Bool, true, false, not, Option, none, some, List, [], ◌∷◌, ◌++◌,
  ◌==◌, nat_eq, nat_beq_iff, ◌&&◌, is_some, filter, map, any, find-mem, mem-map, Memᴰ, All,
  Bool-cases, inl, inr, ◌⊎◌, arith,
}
use able_work.Errors.{
  Error, Result, ok, ◌>>=◌, ◌>>◌, Holds-if, Holds-err, Holds, Holds-ok, Holds-bind, Holds-then,
  Holds-guard, Holds-eq_ok,
}
use able_work.Leaves.Groups.{found_or}
use able_work.Attendances.Types.{Attendance, AttendanceBreak, Employee, Store, Env}
use able_work.Attendances.ClockIn.{
  determine_status, find_shift_for_clock_in, resolve_clock_out_status,
}
use able_work.Attendances.Service.{
  ClockIn, CreateAttendance, judge, free_shift, manual_row, create_manual, is_open, find_open,
  is_shift_taken, assert_employee, assert_membership, assert_position, assert_area,
  assert_not_confirmed, insert_attendance, clocked_row, closed_row, check_unscheduled, clock_in,
  own_open, clock_out, break_start,
}
use able_work.Attendances.Admin.{
  assert_attendance, is_of_company, new_breaks, ConfirmPeriod, is_confirmable, marked,
  confirm_period,
}

-- Records and breaks are told apart by their ids.
pub record HasUniqueIds (st : Store) : Type 0 where
  pub records :
      (a b : Attendance) → Memᴰ a st.attendances → Memᴰ b st.attendances → a.id ≡ b.id → a ≡ b
  pub breaks : (a b : AttendanceBreak) → Memᴰ a st.breaks → Memᴰ b st.breaks → a.id ≡ b.id → a ≡ b

abbrev pub is_break_of : ℕ → AttendanceBreak → Bool
is_break_of attendance_id b = b.attendance_id == attendance_id

-- Each confirmed record is there as it was, with the same breaks.
abbrev pub Kept : Store → Store → Type 0
Kept st st' =
    (a : Attendance)
    → Memᴰ a st.attendances
    → a.is_confirmed ≡ true
    → Memᴰ a st'.attendances
      × (filter (is_break_of a.id) st'.breaks ≡ filter (is_break_of a.id) st.breaks)

-- A record that is not confirmed is another one than each confirmed record.
pub other_id :
    (st : Store)
    → HasUniqueIds st
    → (a b : Attendance) → Memᴰ a st.attendances
    → a.is_confirmed ≡ true
    → Memᴰ b st.attendances
    → b.is_confirmed ≡ false
    → (a.id == b.id) ≡ false
other_id st unique a b ma yes_a mb no_b = elim (Bool-cases (a.id == b.id)) [
  | inl same ↦
      let e = unique.records a b ma mb ((nat_beq_iff a.id b.id).0 same) in
      absurd (cc (yes_a, no_b, ap (λ (x : Attendance). x.is_confirmed) e))
  | inr differ ↦ differ
]

-- A change of the records of an id leaves the others.
pub mem-map_other :
    (f : Attendance → Attendance) (xs : List Attendance) (a : Attendance)
    → f a ≡ a
    → Memᴰ a xs
    → Memᴰ a (map f xs)
mem-map_other f xs a same m = subst (λ b. Memᴰ b (map f xs)) same (mem-map f xs m)

pub filter-other_breaks :
    (i j : ℕ) (bs : List AttendanceBreak)
    → (i == j) ≡ false
    → filter (is_break_of i) (filter (λ (b : AttendanceBreak). not (b.attendance_id == j)) bs)
      ≡ filter (is_break_of i) bs
filter-other_breaks i j [] differ = refl
filter-other_breaks i j (b ∷ bs) differ =
    let rest = filter-other_breaks i j bs differ in
    elim (Bool-cases (b.attendance_id == j)) [
      | inl of_j ↦
          let not_i : (b.attendance_id == i) ≡ false = ground arith in rw (of_j, not_i) rest
      | inr not_j ↦ elim (Bool-cases (b.attendance_id == i)) [
        | inl of_i ↦ rw (not_j, of_i, rest) refl
        | inr not_i ↦ rw (not_j, not_i) rest
      ]
    ]

pub filter-append_new :
    (i j id : ℕ) (given : List (ℕ × Option ℕ)) (bs : List AttendanceBreak)
    → (i == j) ≡ false
    → filter (is_break_of i) (bs ++ new_breaks j id given) ≡ filter (is_break_of i) bs
unfolding new_breaks
filter-append_new i j id [] [] differ = refl
filter-append_new i j id (g ∷ given) [] differ =
    let swapped : (j == i) ≡ false = ground arith in
    rw swapped (filter-append_new i j (id + 1) given [] differ)
filter-append_new i j id given (b ∷ bs) differ =
    let rest = filter-append_new i j id given bs differ in
    elim (Bool-cases (b.attendance_id == i)) [
      | inl of_i ↦ rw (of_i, rest) refl
      | inr not_i ↦ rw not_i rest
    ]

pub filter-map_breaks :
    (i : ℕ) (f : AttendanceBreak → AttendanceBreak) (bs : List AttendanceBreak)
    → All
        (λ (b : AttendanceBreak).
          (f b ≡ b) ⊎ ((b.attendance_id == i) ≡ false) × (((f b).attendance_id == i) ≡ false))
        bs
    → filter (is_break_of i) (map f bs) ≡ filter (is_break_of i) bs
filter-map_breaks i f [] h = refl
filter-map_breaks i f (b ∷ bs) (here, later) =
    let rest = filter-map_breaks i f bs later in
    elim here [ inl same ↦ rw (same, rest) refl | inr (before, after) ↦ rw (before, after) rest ]

pub found_or-Holds :
    {A : Type 0} (P : A → Type 0) (o : Option A) (code : Error)
    → ((a : A) → o ≡ some a → P a)
    → Holds P (found_or o code)
found_or-Holds P none code h = Holds-err P code
found_or-Holds P (some a) code h = Holds-ok P a (h a refl)

own_open-IsRow :
    (company_id employee_id : ℕ) (st : Store)
    → Holds (λ b. Memᴰ b st.attendances) (own_open company_id employee_id st)
unfolding own_open find_open
own_open-IsRow company_id employee_id st =
    let P : Attendance → Type 0 = λ b. Memᴰ b st.attendances in
    Holds-if P
      (any (λ (e : Employee). e.id == employee_id && e.company_id == company_id) st.employees) _ _
      (λ _.
        found_or-Holds P (find_open employee_id st) Error.attendance_not_found
          (λ b e. (find-mem (is_open employee_id) st.attendances e).0))
      (λ _. Holds-err P Error.attendance_not_found)

pub assert_attendance-IsRow :
    (company_id id : ℕ) (st : Store)
    → Holds (λ b. Memᴰ b st.attendances × (b.id ≡ id)) (assert_attendance company_id id st)
unfolding assert_attendance
assert_attendance-IsRow company_id id st =
    found_or-Holds (λ b. Memᴰ b st.attendances × (b.id ≡ id)) _ Error.attendance_not_found
      (λ b e.
        let (m, fits) =
          find-mem (λ (a : Attendance). a.id == id && is_of_company company_id st a) st.attendances
            e in
        (m, ground (arith, fits)))

pub not_confirmed : (b : Attendance) → assert_not_confirmed b ≡ ok tt → b.is_confirmed ≡ false
unfolding assert_not_confirmed
not_confirmed b h = elim (Bool-cases b.is_confirmed) [
  | inl confirmed ↦ absurd (ground (arith, confirmed, h))
  | inr fresh ↦ fresh
]

module _ (st : Store) where
  insert-Kept : (row : Attendance) → Holds (Kept st) (insert_attendance row st)
  unfolding insert_attendance
  insert-Kept row =
      let is_free : Bool =
        not (elim row.shift_id [ none ↦ false | some s ↦ is_shift_taken s st ]) in
      let st' = record st { attendances = row ∷ st.attendances; drawn = st.drawn + 1 } in
      Holds-guard (Kept st) is_free Error.unique_violation (ok st')
        (λ _. Holds-ok (Kept st) st' (λ a m yes_a. (Memᴰ.tail m, refl)))

  pub clock_in-Kept :
      (env : Env) (company_id employee_id : ℕ) (dto : ClockIn) (now : ℕ)
      → Holds (Kept st) (clock_in env company_id employee_id dto now st)
  unfolding clock_in
  clock_in-Kept env company_id employee_id dto now =
      let P = Kept st in
      let shift = find_shift_for_clock_in env employee_id now st in
      let judged = determine_status env.settings now shift in
      Holds-bind P (assert_employee company_id employee_id st) _ (λ _ _.
        Holds-then P (assert_membership employee_id dto.organization_id st) _ (λ _.
          Holds-then P (assert_position company_id dto.position_id st) _ (λ _.
            Holds-then P (assert_area env company_id dto st) _ (λ _.
              Holds-guard P (not (is_some (find_open employee_id st)))
                Error.attendance_already_clocked_in _
                (λ _.
                  Holds-then P (check_unscheduled env judged shift) _
                    (λ _. insert-Kept (clocked_row st.drawn employee_id now judged shift)))))))

  pub create_manual-Kept :
      (env : Env) (company_id : ℕ) (dto : CreateAttendance)
      → Holds (Kept st) (create_manual env company_id dto st)
  unfolding create_manual
  create_manual-Kept env company_id dto =
      let shift = find_shift_for_clock_in env dto.employee_id dto.clock_in_at st in
      Holds-bind (Kept st) (assert_employee company_id dto.employee_id st) _
        (λ _ _. insert-Kept (manual_row st.drawn dto (judge env dto shift) (free_shift shift st)))

  pub confirm_period-Kept :
      (company_id : ℕ) (dto : ConfirmPeriod) → Kept st (confirm_period company_id dto st)
  unfolding confirm_period
  confirm_period-Kept company_id dto a m yes_a = (
    mem-map_other
        (λ (x : Attendance).
          marked true (is_confirmable company_id dto st x && not x.is_confirmed) x)
        st.attendances a
        (elim (Bool-cases (is_confirmable company_id dto st a)) [
          | inl chosen ↦ rw (chosen, yes_a) refl
          | inr passed ↦ rw passed refl
        ])
        m,
    refl,
  )

  -- What the open record or the named one, not being confirmed, lets an operation do.
  module _ (unique : HasUniqueIds st) where
    pub own_open-Kept :
        (company_id employee_id : ℕ) (next : Attendance → Result Store)
        → ((b : Attendance)
            → ((a : Attendance)
                → Memᴰ a st.attendances
                → a.is_confirmed ≡ true
                → (a.id == b.id) ≡ false)
            → Holds (Kept st) (next b))
        → Holds
            (Kept st)
            (own_open company_id employee_id st >>= λ b. assert_not_confirmed b >> next b)
    own_open-Kept company_id employee_id next h =
        Holds-bind (Kept st) (own_open company_id employee_id st) _ (λ b found.
          Holds-then (Kept st) (assert_not_confirmed b) _ (λ fresh.
            let m =
              Holds-eq_ok (λ x. Memᴰ x st.attendances) _ found
                (own_open-IsRow company_id employee_id st) in
            h b (λ a ma yes_a. other_id st unique a b ma yes_a m (not_confirmed b fresh))))

    pub clock_out-Kept :
        (company_id employee_id now : ℕ) → Holds (Kept st) (clock_out company_id employee_id now st)
    unfolding clock_out
    clock_out-Kept company_id employee_id now = own_open-Kept company_id employee_id _ (λ b other.
        let close = closed_row b.id now (resolve_clock_out_status b now st) in
        Holds-ok (Kept st) (record st { attendances = map close st.attendances })
          (λ a m yes_a. (mem-map_other close st.attendances a (rw (other a m yes_a) refl) m, refl)))

    pub break_start-Kept :
        (company_id employee_id now : ℕ)
        → Holds (Kept st) (break_start company_id employee_id now st)
    unfolding break_start
    break_start-Kept company_id employee_id now = own_open-Kept company_id employee_id _ (λ b other.
        Holds-ok (Kept st) _ (λ a m yes_a.
          let not_here : (b.id == a.id) ≡ false = ground (arith, other a m yes_a) in
          (m, rw not_here refl)))
