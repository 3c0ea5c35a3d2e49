-- ===== src/Documents/Helpers.antt =====
-- documents.helpers.ts: the pure rules of the approval services.
use able_work.Base.{
  ℕ, Bool, not, ◌&&◌, ◌||◌, Option, none, some, List, [], ◌∷◌, any, filter, head?, leb,
  if◌then◌else◌, ◌==◌, nat_eq, includes, is_some, is_value, sort_by, ascending,
}
use able_work.Access.{JwtPayload, AccessLevel, hierarchy}
use able_work.Errors.{Error, Result, ok, guard}
use able_work.Documents.Constants.{
  DocStatus, StepRole, StepStatus, doc_status_eq, step_role_eq, step_status_eq, approval_flow_roles,
  receiver_roles, acted_step_statuses,
}
use able_work.Documents.Types.{Step, Document, ResolvedStep, steps_of}

-- `APPROVAL_FLOW_ROLES.includes(role)`, a test that the services make everywhere.
unfoldable pub is_flow : StepRole → Bool
unfolding includes
is_flow role = includes approval_flow_roles role

unfoldable pub is_receiver : StepRole → Bool
unfolding includes
is_receiver role = includes receiver_roles role

-- `ACTED_STEP_STATUSES.includes(status)`
unfoldable pub is_acted : StepStatus → Bool
unfolding includes
is_acted status = includes acted_step_statuses status

abbrev pub editable_statuses : List DocStatus
editable_statuses = DocStatus.draft ∷ []

abbrev pub draft_box_statuses : List DocStatus
draft_box_statuses = DocStatus.draft ∷ DocStatus.recalled ∷ DocStatus.rejected ∷ []

pub data Phase : Type 0 where
  submitted in_progress : Phase

unfoldable pub derive_phase : DocStatus → List Step → Option Phase
unfolding is_acted
derive_phase status steps =
    if status == DocStatus.pending
    then some (if any (λ s. is_acted s.status) steps then Phase.in_progress else Phase.submitted)
    else none

-- The assignee's id stands for the assignee row, which the foreign key gives.
unfoldable pub derive_current_approver : List Step → Option ℕ
unfolding is_flow sort_by
derive_current_approver steps =
    elim (head? (
      sort_by (ascending (λ s. s.step_order))
        (filter (λ (s : Step). is_flow s.role && s.status == StepStatus.pending) steps))) [
          | none ↦ none
          | some s ↦ some s.assignee_id
        ]

unfoldable pub initial_step_status : ResolvedStep → Option ℕ → StepStatus
unfolding is_flow is_receiver
initial_step_status step first_flow_order =
    if is_flow step.role
    then if is_value first_flow_order step.step_order
      then StepStatus.pending
      else StepStatus.waiting
    else if is_receiver step.role
    then StepStatus.waiting
    else StepStatus.pending

unfoldable pub is_company_admin : JwtPayload → Bool
unfolding hierarchy
is_company_admin user = leb (hierarchy AccessLevel.general_admin) (hierarchy user.access_level)

unfoldable pub assert_drafter : Document → JwtPayload → Result (Unit {0})
assert_drafter document user =
    guard (document.drafter_id == user.employee_id) Error.document_not_drafter

unfoldable pub assert_not_request_managed : Document → Result (Unit {0})
assert_not_request_managed document =
    guard (not (is_some document.request_id)) Error.document_managed_by_request

unfoldable pub assert_can_read : Document → JwtPayload → Result (Unit {0})
unfolding is_company_admin
assert_can_read document user =
    if is_company_admin user
    then ok tt
    else if document.drafter_id == user.employee_id
    then ok tt
    else guard
        (any (λ s. s.assignee_id == user.employee_id || is_value s.proxy_id user.employee_id)
          (steps_of document))
        Error.document_access_forbidden
