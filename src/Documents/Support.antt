-- ===== src/Documents/Support.antt =====
-- approval-support.service.ts: the loading of the target, the actor's right to act, and the
-- checks that all approval actions share.
pub mod Target
pub mod Authority
use able_work.Base.{
  ℕ, Bool, true, false, ◌&&◌, ◌||◌, Option, none, some, List, map, any, find, filter, head?, ltb,
  if◌then◌else◌, ◌==◌, nat_eq, includes, is_some, sort_by, ascending, descending,
}
use able_work.Access.{JwtPayload}
use able_work.Errors.{Error, Result, ok, err, guard}
use able_work.Documents.Constants.{
  DocStatus, StepRole, StepStatus, doc_status_eq, step_role_eq, step_status_eq, dept_roles,
}
use able_work.Documents.Types.{Step, ApprovalLine, Document, ProxySetting, Store, Env, flat_steps}
use able_work.Documents.Store.{find_document}

pub record ActionTarget : Type 0 where
  pub document : Document
  pub step : Step
  pub steps : List Step

-- `include: { steps: { orderBy: { stepOrder: 'asc' } } }`
unfoldable pub order_steps : ApprovalLine → ApprovalLine
order_steps l = record l { steps = sort_by (ascending (λ s. s.step_order)) l.steps }

unfoldable pub loaded_steps : Document → List Step
loaded_steps d = flat_steps (map order_steps d.approval_lines)

find_step : Document → ℕ → Result ActionTarget
find_step document step_id = elim (find (λ s. s.id == step_id) (loaded_steps document)) [
  | none ↦ err Error.approval_step_not_found
  | some step ↦ ok (record { document = document; step = step; steps = loaded_steps document })
]

unfoldable pub load_action_target : Store → ℕ → ℕ → ℕ → Result ActionTarget
unfolding find_step find_document
load_action_target st company_id document_id step_id =
    elim (find_document company_id document_id st.documents) [
      | none ↦ err Error.document_not_found
      | some document ↦
          if is_some document.request_id
          then err Error.document_managed_by_request
          else find_step document step_id
    ]

-- A department's step may be handled by any document manager of that department.
unfoldable pub is_dept_manager : Store → Step → ℕ → Bool
unfolding includes
is_dept_manager st step employee_id = includes dept_roles step.role && elim step.organization_id [
  | none ↦ false
  | some org ↦ any (λ m. m.organization_id == org && m.employee_id == employee_id) st.doc_managers
]

-- `proxySettings.findFirst({ where, orderBy: { createdAt: 'desc' } })`
unfoldable pub latest_proxy_setting : Store → ℕ → ℕ → Option ProxySetting
latest_proxy_setting st principal_id proxy_id = head? (
    sort_by (descending (λ p. p.created_at)) (
      filter
        (λ (p : ProxySetting).
          p.principal_id == principal_id && p.proxy_id == proxy_id && p.is_active)
        st.proxy_settings))

-- Whether the actor acts as a proxy.
unfoldable pub resolve_actor : Env → Store → Step → JwtPayload → Result Bool
unfolding is_dept_manager latest_proxy_setting
resolve_actor env st step actor =
    if step.assignee_id == actor.employee_id
    then ok false
    else if is_dept_manager st step actor.employee_id
    then ok false
    else elim (latest_proxy_setting st step.assignee_id actor.employee_id) [
      | none ↦ err Error.approval_step_not_assignee
      | some setting ↦
          if ltb env.today setting.start_date || ltb setting.end_date env.today
          then err Error.approval_proxy_expired
          else ok true
    ]

unfoldable pub assert_document_pending : Document → Result (Unit {0})
assert_document_pending document =
    guard (document.status == DocStatus.pending) Error.document_not_pending

unfoldable pub assert_step_pending : Step → Result (Unit {0})
assert_step_pending step = guard (step.status == StepStatus.pending) Error.approval_step_not_current

unfoldable pub assert_step_role : Step → List StepRole → Result (Unit {0})
unfolding includes
assert_step_role step roles = guard (includes roles step.role) Error.approval_step_role_mismatch
