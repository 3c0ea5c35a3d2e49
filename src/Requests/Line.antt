-- ===== src/Requests/Line.antt =====
-- requests.service.ts: the search for the approver of the department and the approval line of a
-- request. The employees stand in the order of their creation, which the code sorts by.
use able_work.Base.{
  ℕ, zero, suc, Bool, true, false, ◌&&◌, Option, none, some, List, [], ◌∷◌, ◌++◌, ltb,
  if◌then◌else◌, ◌==◌, nat_eq, not, or_option, find, filter, any, map, includes, unique, length,
  sort_by, ascending,
}
use able_work.Access.{AccessLevel}
use able_work.Errors.{Error, Result, ok, ◌>>=◌}
use able_work.Documents.Constants.{StepStatus}
use able_work.Leaves.Types.{Employee}
use able_work.Leaves.Groups.{found_or}
use able_work.Requests.Types.{ApprovalRuleDetail, ApprovalRule, RequestStep, Store}
use able_work.Requests.ShiftEffects.{primary_membership}

abbrev pub is_company_admin : AccessLevel → Bool
is_company_admin AccessLevel.super_admin = true
is_company_admin AccessLevel.general_admin = true
is_company_admin AccessLevel.org_admin = false
is_company_admin AccessLevel.employee = false

abbrev pub is_general_admin : AccessLevel → Bool
is_general_admin AccessLevel.super_admin = false
is_general_admin AccessLevel.general_admin = true
is_general_admin AccessLevel.org_admin = false
is_general_admin AccessLevel.employee = false

abbrev pub is_org_admin : AccessLevel → Bool
is_org_admin AccessLevel.super_admin = false
is_org_admin AccessLevel.general_admin = false
is_org_admin AccessLevel.org_admin = true
is_org_admin AccessLevel.employee = false

-- An active employee of the company other than the requester.
unfoldable pub is_colleague : ℕ → ℕ → Employee → Bool
is_colleague company_id requester_id e =
    e.company_id == company_id && e.is_active && not (e.id == requester_id)

unfoldable pub is_member : ℕ → ℕ → Store → Bool
is_member employee_id organization_id st =
    any (λ m. m.employee_id == employee_id && m.organization_id == organization_id) st.memberships

-- The administrator of a department: one of the organization before one of the company.
unfoldable pub department_admin : ℕ → ℕ → ℕ → Store → Option Employee
unfolding is_colleague is_member
department_admin company_id requester_id org_id st =
    let of_department : (AccessLevel → Bool) → Option Employee = λ level.
      find
        (λ e.
          is_colleague company_id requester_id e
          && level e.access_level
          && is_member e.id org_id st)
        st.leave.employees in
    or_option (of_department is_org_admin) (of_department is_general_admin)

unfoldable pub parent_of : ℕ → Store → Option ℕ
parent_of org_id st = elim (find (λ o. o.id == org_id) st.organizations) [
  | none ↦ none
  | some org ↦ org.parent_id
]

-- From a department upwards, for as many departments as the counter allows.
unfoldable pub climb : ℕ → ℕ → ℕ → Option ℕ → Store → Option Employee
unfolding department_admin parent_of
climb company_id requester_id zero org_id st = none
climb company_id requester_id (suc n) none st = none
climb company_id requester_id (suc n) (some org_id) st =
    or_option (department_admin company_id requester_id org_id st)
      (climb company_id requester_id n (parent_of org_id st) st)

unfoldable pub resolve_dept_approver : ℕ → ℕ → Store → Option Employee
unfolding primary_membership climb
resolve_dept_approver company_id requester_id st =
    elim (primary_membership company_id requester_id st) [
      | none ↦ none
      | some m ↦ climb company_id requester_id 20 (some m.organization_id) st
    ]

-- The administrator with the position of a detail, whoever that is.
unfoldable pub position_approver : ℕ → Option ℕ → Store → Option Employee
unfolding includes
position_approver company_id none st = none
position_approver company_id (some position_id) st =
    find
      (λ e.
        e.company_id == company_id
        && e.is_active
        && includes e.position_ids position_id
        && is_company_admin e.access_level)
      st.leave.employees

unfoldable pub company_approver : ℕ → ℕ → Store → Option Employee
unfolding is_colleague
company_approver company_id requester_id st =
    find (λ e. is_colleague company_id requester_id e && is_company_admin e.access_level)
      st.leave.employees

unfoldable pub resolve_assignee : ℕ → ℕ → Option ℕ → Store → Result Employee
unfolding position_approver resolve_dept_approver company_approver
resolve_assignee company_id requester_id position_id st =
    found_or
      (or_option (position_approver company_id position_id st) (
        or_option (resolve_dept_approver company_id requester_id st)
          (company_approver company_id requester_id st)))
      Error.request_no_approver

-- The steps of a round: several are parallel, and the first round's are pending at once.
unfoldable pub round_steps :
    ℕ → ℕ → ℕ → Bool → ℕ → List (Option ℕ) → Store → Result (List RequestStep)
unfolding resolve_assignee
round_steps company_id requester_id round is_parallel order [] st = ok []
round_steps company_id requester_id round is_parallel order (p ∷ ps) st = do
  assignee ← resolve_assignee company_id requester_id p st
  rest ← round_steps company_id requester_id round is_parallel (suc order) ps st
  ok (
      record {
        round = round;
        assignee_id = assignee.id;
        step_order = order;
        is_parallel = is_parallel;
        status = if round == 1 then StepStatus.pending else StepStatus.waiting;
      }
      ∷ rest)

-- The positions that a round asks for.
unfoldable pub round_positions : List ApprovalRuleDetail → ℕ → List (Option ℕ)
round_positions details round =
    map (λ d. d.approver_position_id) (filter (λ d. d.round == round) details)

unfoldable pub all_steps :
    ℕ → ℕ → List ApprovalRuleDetail → List ℕ → Store → Result (List RequestStep)
unfolding round_steps round_positions
all_steps company_id requester_id details [] st = ok []
all_steps company_id requester_id details (round ∷ rounds) st = do
  let positions = round_positions details round
  steps ← round_steps company_id requester_id round (ltb 1 (length positions)) 0 positions st
  rest ← all_steps company_id requester_id details rounds st
  ok (steps ++ rest)

-- A rule without details asks for one administrator in the first round.
unfoldable pub line_steps : ℕ → ℕ → Option ApprovalRule → Store → Result (List RequestStep)
unfolding round_steps all_steps sort_by unique
line_steps company_id requester_id rule st =
    let given : List ApprovalRuleDetail = elim rule [ none ↦ [] | some r ↦ r.details ] in
    let details = sort_by (ascending (λ d. d.sort_order)) given in
    elim details [
      | [] ↦ round_steps company_id requester_id 1 false 0 (none ∷ []) st
      | d ∷ ds ↦
          all_steps company_id requester_id (d ∷ ds) (unique (map (λ d. d.round) (d ∷ ds))) st
    ]
