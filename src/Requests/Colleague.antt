-- ===== src/Requests/Colleague.antt =====
-- requests.service.ts, the fallbacks of the approval line: who is asked where no position decides.
use able_work.Base.{
  List, [], ◌∷◌, ℕ, zero, suc, ◌≡◌, Bool, true, ◌&&◌, Option, none, some, or_option, find,
  Bool-cases, inl, inr, arith, subst, Option-cases,
}
use able_work.Errors.{ok, Error, ok-injective}
use able_work.Leaves.Types.{Employee}
use able_work.Leaves.Groups.{found_or}
use able_work.Requests.Types.{Store}
use able_work.Requests.ShiftEffects.{primary_membership}
use able_work.Requests.Line.{
  is_colleague, is_member, is_org_admin, is_general_admin, department_admin, climb, parent_of,
  resolve_dept_approver, position_approver, company_approver, resolve_assignee,
}

-- What is found, if anything is.
abbrev Found {ℓ} : {A : Type ℓ} → (A → Type 0) → Option A → Type 0
Found P none = Unit
Found P (some a) = P a

or_option-Found :
    (P : Employee → Type 0) (o p : Option Employee)
    → Found P o
    → Found P p
    → Found P (or_option o p)
or_option-Found P none p h k = k
or_option-Found P (some a) p h k = h

find-Found :
    (p q : Employee → Bool) (es : List Employee)
    → ((e : Employee) → p e ≡ true → q e ≡ true)
    → Found (λ e. q e ≡ true) (find p es)
find-Found p q [] h = tt
find-Found p q (e ∷ es) h = elim (Bool-cases (p e)) [
  | inl hit ↦ rw hit (h e hit)
  | inr miss ↦ rw miss (find-Found p q es h)
]

module _ (c r : ℕ) (st : Store) where
  -- An active employee of the company other than the requester.
  abbrev pub IsColleague : Employee → Type 0
  IsColleague e = is_colleague c r e ≡ true

  department_admin-Found : (org_id : ℕ) → Found IsColleague (department_admin c r org_id st)
  unfolding department_admin
  department_admin-Found org_id =
      or_option-Found IsColleague
        (find (λ e. is_colleague c r e && is_org_admin e.access_level && is_member e.id org_id st)
          st.leave.employees)
        (find
          (λ e. is_colleague c r e && is_general_admin e.access_level && is_member e.id org_id st)
          st.leave.employees)
        (find-Found _ (is_colleague c r) st.leave.employees (λ e h. ground arith))
        (find-Found _ (is_colleague c r) st.leave.employees (λ e h. ground arith))

  climb-Found : (n : ℕ) (org_id : Option ℕ) → Found IsColleague (climb c r n org_id st)
  unfolding climb
  climb-Found zero org_id = tt
  climb-Found (suc n) none = tt
  climb-Found (suc n) (some org_id) =
      or_option-Found IsColleague (department_admin c r org_id st)
        (climb c r n (parent_of org_id st) st) (department_admin-Found org_id)
        (climb-Found n (parent_of org_id st))

  resolve_dept_approver-Found : Found IsColleague (resolve_dept_approver c r st)
  unfolding resolve_dept_approver
  resolve_dept_approver-Found = elim (Option-cases (primary_membership c r st)) [
    | inl n ↦ rw (resolve_dept_approver, n) tt
    | inr (m, found) ↦ rw (resolve_dept_approver, found) (climb-Found 20 (some m.organization_id))
  ]

  company_approver-Found : Found IsColleague (company_approver c r st)
  unfolding company_approver
  company_approver-Found = find-Found _ (is_colleague c r) st.leave.employees (λ e h. ground arith)

  found_or-Found :
      (o : Option Employee) (code : Error) (e : Employee)
      → Found IsColleague o
      → found_or o code ≡ ok e
      → IsColleague e
  found_or-Found none code e h k = cc
  found_or-Found (some a) code e h k = subst IsColleague (ok-injective a e k) h

  -- If no administrator has the position that a step asks for, or it asks for none, then the step goes
  -- to an active employee of the company who is not the requester.
  pub resolve_assignee-IsColleague :
      (position_id : Option ℕ) (e : Employee)
      → position_approver c position_id st ≡ none
      → resolve_assignee c r position_id st ≡ ok e
      → IsColleague e
  unfolding resolve_assignee
  resolve_assignee-IsColleague position_id e vacant h =
      found_or-Found (or_option (resolve_dept_approver c r st) (company_approver c r st))
        Error.request_no_approver e
        (or_option-Found IsColleague (resolve_dept_approver c r st) (company_approver c r st)
          resolve_dept_approver-Found company_approver-Found)
        (subst
          (λ o.
            found_or
              (or_option o (or_option (resolve_dept_approver c r st) (company_approver c r st)))
              Error.request_no_approver
            ≡ ok e)
          vacant h)
