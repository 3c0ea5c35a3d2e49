-- ===== src/Documents/Actions/Approve.antt =====
-- approval-actions.service.ts: `approve`, `agree` and `deptCollab`, which share `approveFlowStep`.
use able_work.Base.{ℕ, Bool, false, Option, none, some, [], ◌∷◌, if◌then◌else◌, ◌==◌, nat_eq}
use able_work.Access.{JwtPayload}
use able_work.Errors.{Result, ok, ◌>>=◌, ◌>>◌}
use able_work.Documents.Constants.{
  DocStatus, StepRole, StepStatus, doc_status_eq, step_role_eq, step_status_eq,
}
use able_work.Documents.Types.{Text, AuditAction, Store, Env}
use able_work.Documents.Store.{update_step, document_row}
use able_work.Documents.Support.{
  ActionTarget, load_action_target, resolve_actor, assert_document_pending, assert_step_pending,
  assert_step_role,
}
use able_work.Documents.Progress.{
  acted, log_action, progress_flow, emit_progress_events, approve_action, audit_document,
}

-- `result.document.status === APPROVED`, of the row that the transaction read back.
unfoldable pub is_approved_row : ℕ → Store → Bool
unfolding document_row
is_approved_row document_id st = elim (document_row document_id st) [
  | none ↦ false
  | some d ↦ d.status == DocStatus.approved
]

-- The transaction of `approveFlowStep`, with the emitted events and the audit record.
unfoldable pub commit_approve :
    Env → ℕ → ActionTarget → Option Text → JwtPayload → StepRole → Bool → Store → Store
unfolding acted progress_flow log_action emit_progress_events audit_document approve_action
    update_step is_approved_row
commit_approve env company_id target comment actor role is_proxy st =
    let status = if is_proxy then StepStatus.proxy_approved else StepStatus.approved in
    let marked =
      update_step target.step.id (acted env status comment is_proxy actor.employee_id) st in
    let (result, progressed) = progress_flow env target marked in
    let logged = log_action target actor (approve_action role is_proxy) comment progressed in
    audit_document company_id actor
      (if is_approved_row target.document.id logged
        then AuditAction.document_approved
        else AuditAction.document_approve_step)
      target.document (emit_progress_events target.document result logged)

unfoldable pub approve_flow_step :
    Env → ℕ → ℕ → ℕ → Option Text → JwtPayload → StepRole → Store → Result Store
unfolding commit_approve load_action_target assert_document_pending assert_step_role
    assert_step_pending resolve_actor
approve_flow_step env company_id document_id step_id comment actor role st = do
  target ← load_action_target st company_id document_id step_id
  assert_document_pending target.document
  assert_step_role target.step (role ∷ [])
  assert_step_pending target.step
  is_proxy ← resolve_actor env st target.step actor
  ok (commit_approve env company_id target comment actor role is_proxy st)

unfoldable pub approve : Env → ℕ → ℕ → ℕ → Option Text → JwtPayload → Store → Result Store
approve env company_id document_id step_id comment actor =
    approve_flow_step env company_id document_id step_id comment actor StepRole.approver

unfoldable pub agree : Env → ℕ → ℕ → ℕ → Option Text → JwtPayload → Store → Result Store
agree env company_id document_id step_id comment actor =
    approve_flow_step env company_id document_id step_id comment actor StepRole.agreement

unfoldable pub dept_collab : Env → ℕ → ℕ → ℕ → Option Text → JwtPayload → Store → Result Store
dept_collab env company_id document_id step_id comment actor =
    approve_flow_step env company_id document_id step_id comment actor StepRole.dept_collaborator
