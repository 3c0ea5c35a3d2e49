-- ===== src/Documents/Actions/Receive.antt =====
-- approval-actions.service.ts: `view`, `receive` and `bounce`, which do not move the flow.
use able_work.Base.{ℕ, Bool, Option, [], ◌∷◌, ◌==◌, nat_eq}
use able_work.Access.{JwtPayload}
use able_work.Errors.{Error, Result, ok, guard, ◌>>=◌, ◌>>◌}
use able_work.Documents.Constants.{
  DocStatus, StepRole, StepStatus, HistoryAction, doc_status_eq, step_role_eq, step_status_eq,
  receiver_roles,
}
use able_work.Documents.Types.{Text, Event, Store, Env}
use able_work.Documents.Store.{update_step, emit}
use able_work.Documents.Support.{
  ActionTarget, load_action_target, resolve_actor, assert_step_pending, assert_step_role,
}
use able_work.Documents.Progress.{acted, log_action}

-- The transaction of the three: the step is marked and the action is logged.
unfoldable pub commit_mark :
    Env
    → ActionTarget
    → StepStatus
    → HistoryAction
    → Option Text
    → JwtPayload
    → Bool
    → Store
    → Store
unfolding acted update_step log_action
commit_mark env target status action comment actor is_proxy st =
    log_action target actor action comment
      (update_step target.step.id (acted env status comment is_proxy actor.employee_id) st)

unfoldable pub view : Env → ℕ → ℕ → ℕ → Option Text → JwtPayload → Store → Result Store
unfolding commit_mark load_action_target assert_step_role assert_step_pending resolve_actor
view env company_id document_id step_id comment actor st = do
  target ← load_action_target st company_id document_id step_id
  assert_step_role target.step (StepRole.reference ∷ StepRole.viewer ∷ [])
  assert_step_pending target.step
  is_proxy ← resolve_actor env st target.step actor
  ok (commit_mark env target StepStatus.viewed HistoryAction.view comment actor is_proxy st)

unfoldable pub receive : Env → ℕ → ℕ → ℕ → Option Text → JwtPayload → Store → Result Store
unfolding commit_mark load_action_target assert_step_role assert_step_pending resolve_actor
receive env company_id document_id step_id comment actor st = do
  target ← load_action_target st company_id document_id step_id
  assert_step_role target.step receiver_roles
  guard (target.document.status == DocStatus.approved) Error.document_not_approved
  assert_step_pending target.step
  is_proxy ← resolve_actor env st target.step actor
  ok (commit_mark env target StepStatus.received HistoryAction.receive comment actor is_proxy st)

unfoldable pub bounce : Env → ℕ → ℕ → ℕ → Option Text → JwtPayload → Store → Result Store
unfolding commit_mark load_action_target assert_step_role assert_step_pending resolve_actor emit
bounce env company_id document_id step_id comment actor st = do
  target ← load_action_target st company_id document_id step_id
  assert_step_role target.step (StepRole.dept_receiver ∷ [])
  guard (target.document.status == DocStatus.approved) Error.document_not_approved
  assert_step_pending target.step
  is_proxy ← resolve_actor env st target.step actor
  ok (
      emit (Event.document_bounced target.document.id target.document.drafter_id)
        (commit_mark env target StepStatus.bounced HistoryAction.bounce comment actor is_proxy st))
