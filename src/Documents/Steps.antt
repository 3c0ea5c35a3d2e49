-- ===== src/Documents/Steps.antt =====
-- document-steps.service.ts: the choice and the resolution of the steps of a document, and the
-- lines and steps that are created for it.
pub mod Submit
pub mod Resolve
use able_work.Base.{
  ℕ, suc, ◌+◌, ◌≡◌, Bool, true, false, not, ◌&&◌, ◌||◌, Option, none, some, is_some, List, [], ◌∷◌,
  ◌++◌, map, length, any, find, filter, count, head?, if◌then◌else◌, ◌==◌, nat_eq, nat_beq, or_else,
  or_option, is_value, includes, unique, sort_by, ascending,
}
use able_work.Errors.{Error, Result, ok, err, guard, ◌>>=◌, ◌>>◌}
use able_work.Documents.Constants.{StepRole, StepStatus, step_role_eq, dept_roles}
use able_work.Documents.Types.{
  Step, ApprovalLine, Document, Employee, Organization, OrganizationDocManager, StepInput,
  ResolvedStep, SharedApprovalLine, SubmitDocument, Store, Env,
}
use able_work.Documents.Store.{set_document}
use able_work.Documents.Helpers.{is_flow}

-- `DEPT_ROLES.includes(role)`
unfoldable pub is_dept : StepRole → Bool
unfolding includes
is_dept role = includes dept_roles role

-- The rule of `StepInputSchema`: a department's step names an organization, another an assignee.
unfoldable pub is_valid_input : StepInput → Bool
unfolding is_dept
is_valid_input s = if is_dept s.role then is_some s.organization_id else is_some s.assignee_id

unfoldable pub load_shared_line_steps : Store → ℕ → ℕ → Result (List StepInput)
unfolding is_valid_input
load_shared_line_steps st company_id line_id =
    elim (find (λ l. l.id == line_id && l.company_id == company_id) st.shared_lines) [
      | none ↦ err Error.shared_line_not_found
      | some line ↦ elim line.steps [
        | none ↦ err Error.shared_line_invalid
        | some steps ↦
            if any (λ s. not (is_valid_input s)) steps
            then err Error.shared_line_invalid
            else ok steps
      ]
    ]

abbrev pub is_empty {ℓ} : {A : Type ℓ} → List A → Bool
is_empty [] = true
is_empty (x ∷ xs) = false

-- The steps chosen so far, and the shared line that they came from.
abbrev pub Choice : Type 0
Choice = List StepInput × Option ℕ

-- `dto.steps`, or the shared line that the request names.
choose_given : Store → ℕ → SubmitDocument → Result Choice
unfolding load_shared_line_steps
choose_given st company_id dto =
    if not (is_empty (or_else dto.steps []))
    then ok (or_else dto.steps [], none)
    else elim dto.shared_line_id [
      | none ↦ ok ([], none)
      | some line_id ↦ do
        steps ← load_shared_line_steps st company_id line_id
        ok (steps, some line_id)
    ]

-- The steps kept with the draft, where nothing was given.
choose_existing : List StepInput → Choice → Choice
choose_existing existing (steps, line_id) = (if is_empty steps then existing else steps, line_id)

-- The form's default line, where there are still no steps.
choose_default : Store → ℕ → Option ℕ → Choice → Result Choice
unfolding load_shared_line_steps
choose_default st company_id none choice = ok choice
choose_default st company_id (some line_id) (steps, chosen) =
    if is_empty steps
    then (do loaded ← load_shared_line_steps st company_id line_id; ok (loaded, some line_id))
    else ok (steps, chosen)

unfoldable pub resolve_submit_steps :
    Store → ℕ → SubmitDocument → List StepInput → Option ℕ → Result Choice
unfolding choose_given choose_existing choose_default
resolve_submit_steps st company_id dto existing form_default = do
  given ← choose_given st company_id dto
  chosen ← choose_default st company_id form_default (choose_existing existing given)
  let final = choose_existing existing chosen
  guard (any (λ s. is_flow s.role) final.0) Error.approval_line_empty
  ok final

-- The distinct assignees of the personal steps.
unfoldable pub personal_ids : List StepInput → List ℕ
unfolding unique is_dept
personal_ids steps = unique (ids steps)
  where
    ids : List StepInput → List ℕ
    ids [] = []
    ids (s ∷ r) =
        let rest = ids r in
        if is_dept s.role then rest else elim s.assignee_id [ none ↦ rest | some a ↦ a ∷ rest ]

-- The distinct organizations of the department steps.
unfoldable pub dept_org_ids : List StepInput → List ℕ
unfolding unique is_dept
dept_org_ids steps = unique (ids steps)
  where
    ids : List StepInput → List ℕ
    ids [] = []
    ids (s ∷ r) =
        let rest = ids r in
        if is_dept s.role then elim s.organization_id [ none ↦ rest | some o ↦ o ∷ rest ] else rest

unfoldable pub count_employees : Store → ℕ → List ℕ → ℕ
unfolding includes
count_employees st company_id ids =
    count (λ e. includes ids e.id && e.company_id == company_id) st.employees

unfoldable pub find_orgs : Store → ℕ → List ℕ → List Organization
unfolding includes
find_orgs st company_id ids =
    filter (λ o. includes ids o.id && o.company_id == company_id && o.is_active) st.organizations

-- The first document manager by `sortOrder`, else the single one of old, else the team's approver.
unfoldable pub dept_assignee : Store → Organization → Option ℕ
unfolding sort_by
dept_assignee st org =
    or_option
      (primary (
        head? (
          sort_by (ascending (λ m. m.sort_order)) (
            filter (λ (m : OrganizationDocManager). m.organization_id == org.id) st.doc_managers))))
      (or_option org.doc_manager_id org.approver_id)
  where
    primary : Option OrganizationDocManager → Option ℕ
    primary none = none
    primary (some m) = some m.employee_id

-- The organization of a step among those loaded.
unfoldable pub step_org : List Organization → StepInput → Option Organization
step_org orgs s = elim s.organization_id [ none ↦ none | some id ↦ find (λ o. o.id == id) orgs ]

unfoldable pub resolve_step : Store → List Organization → StepInput → Result ResolvedStep
unfolding is_dept dept_assignee step_org
resolve_step st orgs s =
    if is_dept s.role
    then elim (step_org orgs s) [
      | none ↦ err Error.dept_no_manager
      | some org ↦ elim (dept_assignee st org) [
        | none ↦ err Error.dept_no_manager
        | some assignee ↦ ok (record {
          role = s.role;
          assignee_id = assignee;
          organization_id = s.organization_id;
          step_order = s.step_order;
        })
      ]
    ]
    else elim s.assignee_id [
      | none ↦ err Error.missing_assignee
      | some assignee ↦ ok (record {
        role = s.role;
        assignee_id = assignee;
        organization_id = none;
        step_order = s.step_order;
      })
    ]

unfoldable pub resolve_each :
    Store → List Organization → List StepInput → Result (List ResolvedStep)
unfolding resolve_step
resolve_each st orgs [] = ok []
resolve_each st orgs (s ∷ r) = do
  step ← resolve_step st orgs s
  rest ← resolve_each st orgs r
  ok (step ∷ rest)

unfoldable pub resolve_steps : Store → ℕ → List StepInput → Result (List ResolvedStep)
unfolding personal_ids dept_org_ids count_employees find_orgs resolve_each
resolve_steps st company_id steps = do
  guard (count_employees st company_id (personal_ids steps) == length (personal_ids steps))
      Error.employee_not_found
  guard (length (find_orgs st company_id (dept_org_ids steps)) == length (dept_org_ids steps))
      Error.org_not_found
  resolve_each st (find_orgs st company_id (dept_org_ids steps)) steps
