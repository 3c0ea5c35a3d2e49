-- ===== src/Documents/Actions/Reject.antt =====
-- approval-actions.service.ts: `reject` and `preApprove`.
use able_work.Base.{ℕ, Bool, false, not, ◌&&◌, Option, none, some, [], ◌∷◌, ◌==◌, nat_eq, includes}
use able_work.Access.{JwtPayload}
use able_work.Errors.{Error, Result, ok, guard, ◌>>=◌, ◌>>◌}
use able_work.Documents.Constants.{
  DocStatus, StepRole, StepStatus, HistoryAction, doc_status_eq, step_role_eq, step_status_eq,
  approval_flow_roles, cancel_on_reject_roles,
}
use able_work.Documents.Types.{Text, Step, Document, Event, AuditAction, Store, Env}
use able_work.Documents.Store.{update_step, update_steps_of, set_document, emit, form_of}
use able_work.Documents.Helpers.{is_flow}
use able_work.Documents.Support.{
  ActionTarget, load_action_target, resolve_actor, assert_document_pending, assert_step_pending,
  assert_step_role,
}
use able_work.Documents.Progress.{
  awaits, acted, with_status, log_action, complete_document, finalize_approval, audit_document,
}

unfoldable pub cancels_on_reject : ℕ → Step → Bool
cancels_on_reject step_id s =
    not (s.id == step_id)
    && includes cancel_on_reject_roles s.role
    && includes (StepStatus.waiting ∷ StepStatus.pending ∷ []) s.status

unfoldable pub commit_reject :
    Env → ℕ → ActionTarget → Option Text → JwtPayload → Bool → Store → Store
unfolding acted update_step update_steps_of set_document complete_document log_action emit
    audit_document cancels_on_reject
commit_reject env company_id target comment actor is_proxy st =
    let marked =
      update_step target.step.id (acted env StepStatus.rejected comment is_proxy actor.employee_id)
        st in
    let cancelled =
      update_steps_of target.document.id (cancels_on_reject target.step.id)
        (with_status StepStatus.cancelled) marked in
    let closed =
      set_document target.document.id (complete_document env DocStatus.rejected) cancelled in
    let logged = log_action target actor HistoryAction.reject comment closed in
    audit_document company_id actor AuditAction.document_reject target.document
      (emit (Event.document_rejected target.document.id target.document.drafter_id) logged)

unfoldable pub reject : Env → ℕ → ℕ → ℕ → Option Text → JwtPayload → Store → Result Store
unfolding commit_reject load_action_target assert_document_pending assert_step_role
    assert_step_pending resolve_actor
reject env company_id document_id step_id comment actor st = do
  target ← load_action_target st company_id document_id step_id
  assert_document_pending target.document
  assert_step_role target.step approval_flow_roles
  assert_step_pending target.step
  is_proxy ← resolve_actor env st target.step actor
  ok (commit_reject env company_id target comment actor is_proxy st)

-- The step is pre-approved, the flow steps that wait or were returned are skipped.
unfoldable pub skips_on_pre_approve : Step → Bool
unfolding is_flow awaits
skips_on_pre_approve s = is_flow s.role && awaits s.status

unfoldable pub commit_pre_approve :
    Env → ActionTarget → Option Text → JwtPayload → Bool → Store → Store
unfolding acted update_step update_steps_of finalize_approval log_action emit skips_on_pre_approve
commit_pre_approve env target comment actor is_proxy st =
    let marked =
      update_step target.step.id
        (acted env StepStatus.pre_approved comment is_proxy actor.employee_id) st in
    let skipped =
      update_steps_of target.document.id skips_on_pre_approve (with_status StepStatus.skipped)
        marked in
    let finalized = finalize_approval env target.document.id skipped in
    emit (Event.document_approved target.document.id target.document.drafter_id)
      (log_action target actor HistoryAction.pre_approve comment finalized)

-- `document.form.allowPreApproval`; the foreign key always finds the form.
unfoldable pub allows_pre_approval : Store → Document → Bool
unfolding form_of
allows_pre_approval st d = elim (form_of st d) [
  | none ↦ false
  | some form ↦ form.allow_pre_approval
]

unfoldable pub pre_approve : Env → ℕ → ℕ → ℕ → Option Text → JwtPayload → Store → Result Store
unfolding commit_pre_approve load_action_target assert_document_pending assert_step_role
    assert_step_pending resolve_actor allows_pre_approval
pre_approve env company_id document_id step_id comment actor st = do
  target ← load_action_target st company_id document_id step_id
  assert_document_pending target.document
  assert_step_role target.step (StepRole.approver ∷ [])
  assert_step_pending target.step
  guard (allows_pre_approval st target.document) Error.document_pre_approval_not_allowed
  is_proxy ← resolve_actor env st target.step actor
  ok (commit_pre_approve env target comment actor is_proxy st)
