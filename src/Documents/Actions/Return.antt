-- ===== src/Documents/Actions/Return.antt =====
-- approval-actions.service.ts: `returnToPrevious` and `cancelApproval`.
use able_work.Base.{
  ℕ, Bool, not, ◌&&◌, ◌||◌, Option, none, some, List, any, filter, head?, ltb, ◌==◌, nat_eq,
  is_value, sort_by, ascending, descending,
}
use able_work.Access.{JwtPayload}
use able_work.Errors.{Error, Result, ok, err, guard, ◌>>=◌, ◌>>◌}
use able_work.Documents.Constants.{
  DocStatus, StepStatus, HistoryAction, doc_status_eq, step_role_eq, step_status_eq,
  approval_flow_roles,
}
use able_work.Documents.Types.{Text, Step, Event, Store, Env}
use able_work.Documents.Store.{update_step, emit}
use able_work.Documents.Helpers.{is_flow}
use able_work.Documents.Support.{
  ActionTarget, load_action_target, resolve_actor, assert_document_pending, assert_step_pending,
  assert_step_role,
}
use able_work.Documents.Progress.{is_approved, is_open, restored, with_status, log_action}

-- The approved flow step of the highest order below the current one.
unfoldable pub previous_step : List Step → Step → Option Step
unfolding is_flow is_approved
previous_step steps current = head? (
    sort_by (descending (λ s. s.step_order)) (
      filter
        (λ (s : Step).
          is_flow s.role && ltb s.step_order current.step_order && is_approved s.status)
        steps))

unfoldable pub returned : Env → Option Text → Step → Step
returned env comment s = record s {
  status = StepStatus.returned;
  comment = comment;
  acted_at = some env.now;
}

unfoldable pub commit_return : Env → ActionTarget → Step → Option Text → JwtPayload → Store → Store
unfolding returned restored update_step log_action emit
commit_return env target previous comment actor st =
    let marked = update_step target.step.id (returned env comment) st in
    let reopened = update_step previous.id restored marked in
    emit (Event.document_step_pending target.document.id previous.assignee_id)
      (log_action target actor HistoryAction.return_prev comment reopened)

unfoldable pub return_to_previous :
    Env → ℕ → ℕ → ℕ → Option Text → JwtPayload → Store → Result Store
unfolding commit_return load_action_target assert_document_pending assert_step_role
    assert_step_pending resolve_actor previous_step
return_to_previous env company_id document_id step_id comment actor st = do
  target ← load_action_target st company_id document_id step_id
  assert_document_pending target.document
  assert_step_role target.step approval_flow_roles
  assert_step_pending target.step
  is_proxy ← resolve_actor env st target.step actor
  guard env.enable_prev_step_reject Error.approval_prev_reject_disabled
  elim (previous_step target.steps target.step) [
    | none ↦ err Error.approval_step_no_previous
    | some previous ↦ ok (commit_return env target previous comment actor st)
  ]

unfoldable pub is_own_action : Step → JwtPayload → Bool
is_own_action step actor =
    step.assignee_id == actor.employee_id
    || (step.is_proxy && is_value step.proxy_id actor.employee_id)

unfoldable pub later_flow_steps : List Step → Step → List Step
unfolding is_flow
later_flow_steps steps step =
    filter (λ (s : Step). is_flow s.role && ltb step.step_order s.step_order) steps

unfoldable pub has_acted_later : List Step → Step → Bool
unfolding later_flow_steps is_open
has_acted_later steps step = any (λ s. not (is_open s.status)) (later_flow_steps steps step)

unfoldable pub current_pending_next : List Step → Step → Option Step
unfolding later_flow_steps
current_pending_next steps step = head? (
    sort_by (ascending (λ s. s.step_order))
      (filter (λ (s : Step). s.status == StepStatus.pending) (later_flow_steps steps step)))

unfoldable pub commit_cancel : ActionTarget → Option Text → JwtPayload → Store → Store
unfolding restored update_step log_action current_pending_next
commit_cancel target comment actor st =
    let reopened = update_step target.step.id restored st in
    let held : Store = elim (current_pending_next target.steps target.step) [
      | none ↦ reopened
      | some next ↦ update_step next.id (with_status StepStatus.waiting) reopened
    ] in
    log_action target actor HistoryAction.cancel_approval comment held

unfoldable pub cancel_approval : ℕ → ℕ → ℕ → Option Text → JwtPayload → Store → Result Store
unfolding commit_cancel load_action_target is_approved is_own_action has_acted_later
cancel_approval company_id document_id step_id comment actor st = do
  target ← load_action_target st company_id document_id step_id
  guard (target.document.status == DocStatus.pending) Error.document_cannot_cancel
  guard (is_approved target.step.status) Error.approval_step_not_current
  guard (is_own_action target.step actor) Error.approval_step_not_assignee
  guard (not (has_acted_later target.steps target.step)) Error.document_cannot_cancel
  ok (commit_cancel target comment actor st)
