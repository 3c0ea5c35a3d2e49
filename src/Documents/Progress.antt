-- ===== src/Documents/Progress.antt =====
-- approval-actions.service.ts: what the actions share. The data that they write to steps and
-- documents, the progress of the flow after an approval, and the emitted events.
use able_work.Base.{
  ℕ, Bool, true, false, not, ◌&&◌, Option, none, some, List, [], ◌∷◌, filter, head?, if◌then◌else◌,
  ◌==◌, nat_eq, includes, sort_by, ascending,
}
use able_work.Access.{JwtPayload}
use able_work.Documents.Constants.{
  DocStatus, StepRole, StepStatus, HistoryAction, doc_status_eq, step_role_eq, step_status_eq,
}
use able_work.Documents.Types.{Text, Step, Document, Event, AuditAction, Store, Env}
use able_work.Documents.Store.{update_step, update_steps_of, set_document, add_history, emit, audit}
use able_work.Documents.Helpers.{is_flow, is_receiver}
use able_work.Documents.Support.{ActionTarget}

-- `[WAITING, RETURNED].includes(status)`
unfoldable pub awaits : StepStatus → Bool
unfolding includes
awaits status = includes (StepStatus.waiting ∷ StepStatus.returned ∷ []) status

-- `[APPROVED, PROXY_APPROVED].includes(status)`
unfoldable pub is_approved : StepStatus → Bool
unfolding includes
is_approved status = includes (StepStatus.approved ∷ StepStatus.proxy_approved ∷ []) status

-- `[WAITING, PENDING].includes(status)`
unfoldable pub is_open : StepStatus → Bool
unfolding includes
is_open status = includes (StepStatus.waiting ∷ StepStatus.pending ∷ []) status

-- The data that an action writes to the step on which it acts.
unfoldable pub acted : Env → StepStatus → Option Text → Bool → ℕ → Step → Step
acted env status comment is_proxy actor_id s = record s {
  status = status;
  comment = comment;
  acted_at = some env.now;
  is_proxy = is_proxy;
  proxy_id = if is_proxy then some actor_id else none;
}

-- `{ status: PENDING, comment: null, actedAt: null }`
unfoldable pub activated : Step → Step
activated s = record s { status = StepStatus.pending; comment = none; acted_at = none }

-- The same, with the proxy's data cleared.
unfoldable pub restored : Step → Step
restored s = record s {
  status = StepStatus.pending;
  comment = none;
  acted_at = none;
  is_proxy = false;
  proxy_id = none;
}

abbrev pub with_status : StepStatus → Step → Step
with_status status s = record s { status = status }

unfoldable pub log_action : ActionTarget → JwtPayload → HistoryAction → Option Text → Store → Store
unfolding add_history
log_action target actor action comment = add_history (record {
  document_id = target.document.id;
  step_id = some target.step.id;
  actor_id = actor.employee_id;
  action = action;
  comment = comment;
})

unfoldable pub complete_document : Env → DocStatus → Document → Document
complete_document env status d = record d { status = status; completed_at = some env.now }

-- `finalizeApproval`: the document is approved, and the receivers' steps become active.
unfoldable pub finalize_approval : Env → ℕ → Store → Store
unfolding is_receiver update_steps_of set_document complete_document
finalize_approval env document_id st =
    set_document document_id (complete_document env DocStatus.approved) (
      update_steps_of document_id (λ s. is_receiver s.role && s.status == StepStatus.waiting)
        (with_status StepStatus.pending) st)

-- The next step of the flow: the first by order that waits or was returned.
unfoldable pub next_step : List Step → Step → Option Step
unfolding awaits is_flow
next_step steps current = head? (
    sort_by (ascending (λ s. s.step_order))
      (filter (λ (s : Step). not (s.id == current.id) && is_flow s.role && awaits s.status) steps))

-- What `progressFlow` reports: whether the approval was the last one, and who comes next.
pub record Progress : Type 0 where
  pub final_approved : Bool
  pub next_assignee_id : Option ℕ

unfoldable pub progress_flow : Env → ActionTarget → Store → Progress × Store
unfolding next_step finalize_approval activated
progress_flow env target st = elim (next_step target.steps target.step) [
  | some next ↦ (
    record { final_approved = false; next_assignee_id = some next.assignee_id },
    update_step next.id activated st,
  )
  | none ↦ (
    record { final_approved = true; next_assignee_id = none },
    finalize_approval env target.document.id st,
  )
]

unfoldable pub emit_progress_events : Document → Progress → Store → Store
unfolding emit
emit_progress_events document result st =
    if result.final_approved
    then emit (Event.document_approved document.id document.drafter_id) st
    else elim result.next_assignee_id [
      | none ↦ st
      | some next ↦
          emit (Event.document_step_approved document.id document.drafter_id)
            (emit (Event.document_step_pending document.id next) st)
    ]

unfoldable pub approve_action : StepRole → Bool → HistoryAction
approve_action role true = HistoryAction.proxy_approve
approve_action role false =
    if role == StepRole.agreement
    then HistoryAction.agree
    else if role == StepRole.dept_collaborator
    then HistoryAction.dept_collab
    else HistoryAction.approve

-- `this.audit.record({ … })`: the actor's action on the document.
unfoldable pub audit_document : ℕ → JwtPayload → AuditAction → Document → Store → Store
unfolding audit
audit_document company_id actor action document = audit (record {
  company_id = company_id;
  actor_id = actor.employee_id;
  action = action;
  target_id = document.id;
})
