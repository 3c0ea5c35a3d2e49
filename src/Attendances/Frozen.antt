-- ===== src/Attendances/Frozen.antt =====
-- attendances.service.ts: what the confirmation of records promises.
use able_work.Base.{
  ℕ, ◌≡◌, refl, Bool, true, false, ◌&&◌, not, none, some, List, [], ◌∷◌, map, All, Bool-cases, inl,
  inr, arith, ap,
}
use able_work.Access.{AccessLevel, JwtPayload}
use able_work.Errors.{ok}
use able_work.Attendances.Types.{Attendance, Store}
use able_work.Attendances.Admin.{
  ConfirmPeriod, UnconfirmAttendances, is_confirmable, is_releasable, marked, confirm_period,
  released, unconfirm,
}

-- The records of some ids, and nothing else restricted.
abbrev pub of_ids : List ℕ → ConfirmPeriod
of_ids ids = record {
  attendance_ids = some ids;
  start_date = none;
  end_date = none;
  employee_ids = none;
}

abbrev pub release_of_ids : List ℕ → UnconfirmAttendances
release_of_ids ids = record { attendance_ids = some ids; start_date = none; end_date = none }

-- A release whose condition is that of the confirmation undoes it for each record.
module _ (confirms releases : Attendance → Bool)
    (agree : (a : Attendance) (b : Bool)
      → releases (record a { is_confirmed = b }) ≡ confirms a) where
  abbrev confirmed_row : Attendance → Attendance
  confirmed_row a = marked true (confirms a && not a.is_confirmed) a

  abbrev released_row : Attendance → Attendance
  released_row a = marked false (releases a && a.is_confirmed) a

  released-confirmed_row :
      (a : Attendance)
      → (confirms a ≡ true → a.is_confirmed ≡ false)
      → released_row (confirmed_row a) ≡ a
  released-confirmed_row a fresh = elim (Bool-cases (confirms a)) [
    | inl chosen ↦ rw (chosen, fresh chosen, agree a true, chosen) refl
    | inr passed ↦ rw (passed, agree a a.is_confirmed, passed) refl
  ]

  released-confirmed_rows :
      (xs : List Attendance)
      → All (λ a. confirms a ≡ true → a.is_confirmed ≡ false) xs
      → map released_row (map confirmed_row xs) ≡ xs
  released-confirmed_rows [] fresh = refl
  released-confirmed_rows (a ∷ xs) (here, later) =
      rw (released-confirmed_row a here, released-confirmed_rows xs later) refl

of_ids-agree :
    (company_id : ℕ) (ids : List ℕ) (st : Store) (a : Attendance) (b : Bool)
    → is_releasable company_id (release_of_ids ids) st (record a { is_confirmed = b })
      ≡ is_confirmable company_id (of_ids ids) st a
unfolding is_releasable is_confirmable
of_ids-agree company_id ids st a b = ground arith

-- If none of the company's records with some ids is confirmed, then a general administrator's release
-- of these ids right after their confirmation restores the store.
pub unconfirm-confirm_period :
    (company_id : ℕ) (ids : List ℕ) (requester : JwtPayload) (st : Store)
    → requester.access_level ≡ AccessLevel.general_admin
    → All
        (λ (a : Attendance).
          is_confirmable company_id (of_ids ids) st a ≡ true → a.is_confirmed ≡ false)
        st.attendances
    → unconfirm company_id
        (release_of_ids ids)
        requester
        (confirm_period company_id (of_ids ids) st)
      ≡ ok st
unfolding unconfirm confirm_period released is_releasable
unconfirm-confirm_period company_id ids requester st level fresh = rw level (
    ap (λ rows. ok (record st { attendances = rows }))
      (released-confirmed_rows (is_confirmable company_id (of_ids ids) st)
        (is_releasable company_id (release_of_ids ids) st) (of_ids-agree company_id ids st)
        st.attendances fresh))
