-- ===== src/Documents/Steps/Submit.antt =====
-- document-steps.service.ts: the lines and steps that a draft and a submission create, and the
-- transaction of a submission.
use able_work.Base.{
  ℕ, suc, ◌+◌, Bool, true, false, not, ◌&&◌, Option, none, some, is_some, List, [], ◌∷◌, ◌++◌,
  length, any, filter, head?, if◌then◌else◌, ◌==◌, nat_eq, is_value, sort_by, ascending,
}
use able_work.Access.{JwtPayload}
use able_work.Errors.{Error, Result, ok, err}
use able_work.Documents.Constants.{DocStatus, StepStatus, HistoryAction}
use able_work.Documents.Types.{Text, Step, ApprovalLine, Document, ResolvedStep, Store, Env}
use able_work.Documents.Store.{set_document, add_history}
use able_work.Documents.Helpers.{is_flow, initial_step_status}
use able_work.Documents.Numbering.{issue_doc_number, text_eq}

-- A new row of approval_steps, with the database's defaults for the columns that are not given.
unfoldable pub new_step : ℕ → StepStatus → ResolvedStep → Step
new_step id status s = record {
  id = id;
  role = s.role;
  assignee_id = s.assignee_id;
  organization_id = s.organization_id;
  step_order = s.step_order;
  status = status;
  comment = none;
  is_proxy = false;
  proxy_id = none;
  acted_at = none;
}

-- `approvalStep.createMany`: each row gets the next id that the database generates.
unfoldable pub create_steps : Env → ℕ → (ResolvedStep → StepStatus) → List ResolvedStep → List Step
unfolding new_step
create_steps env drawn status [] = []
create_steps env drawn status (s ∷ r) =
    new_step (env.uuid drawn) (status s) s ∷ create_steps env (suc drawn) status r

-- A line for the document and its steps; `replace` says whether the old lines are deleted.
unfoldable pub create_line :
    Env → ℕ → Option ℕ → (ResolvedStep → StepStatus) → List ResolvedStep → Bool → Store → Store
unfolding create_steps set_document
create_line env document_id shared_line_id status steps replace st =
    let line : ApprovalLine = record {
      id = env.uuid st.drawn;
      is_shared = is_some shared_line_id;
      shared_line_ref_id = shared_line_id;
      steps = create_steps env (suc st.drawn) status steps;
    } in
    let st' =
      set_document document_id
        (λ d. record d { approval_lines = (if replace then [] else d.approval_lines) ++ line ∷ [] })
        st in
    record st' { drawn = suc st.drawn + length steps }

-- `createDraftLine`: all steps wait.
unfoldable pub create_draft_line : Env → ℕ → List ResolvedStep → Store → Store
unfolding create_line
create_draft_line env document_id steps =
    create_line env document_id none (λ _. StepStatus.waiting) steps false

-- The flow steps in their order.
unfoldable pub flow_steps : List ResolvedStep → List ResolvedStep
unfolding sort_by is_flow
flow_steps steps = sort_by (ascending (λ s. s.step_order)) (filter (λ s. is_flow s.role) steps)

unfoldable pub first_flow_order : List ResolvedStep → Option ℕ
unfolding flow_steps
first_flow_order steps = elim (head? (flow_steps steps)) [
  | none ↦ none
  | some s ↦ some s.step_order
]

unfoldable pub first_assignee_id : List ResolvedStep → Option ℕ
unfolding flow_steps
first_assignee_id steps = elim (head? (flow_steps steps)) [
  | none ↦ none
  | some s ↦ some s.assignee_id
]

-- The unique index on `docNumber`, over the documents of all companies.
unfoldable pub is_number_taken : ℕ → Text → List Document → Bool
is_number_taken document_id number =
    any (λ d. not (d.id == document_id) && is_value d.doc_number number)

unfoldable pub submitted : Env → Text → Document → Document
submitted env number d = record d {
  status = DocStatus.pending;
  submitted_at = some env.now;
  doc_number = some number;
}

-- The number that the document has, or a new one.
unfoldable pub number_for : Env → ℕ → Document → Store → Text × Store
unfolding issue_doc_number
number_for env company_id document st = elim document.doc_number [
  | some number ↦ (number, st)
  | none ↦ issue_doc_number env company_id document.form_id document.category_id st
]

-- The transaction: an error rolls it back, so no store comes with it.
unfoldable pub run_submit_transaction :
    Env → ℕ → Document → List ResolvedStep → Option ℕ → JwtPayload → Store → Result Store
unfolding create_line initial_step_status first_flow_order number_for is_number_taken set_document
    submitted add_history
run_submit_transaction env company_id document steps shared_line_id user st =
    let lined =
      create_line env document.id shared_line_id
        (λ s. initial_step_status s (first_flow_order steps)) steps true st in
    let (number, numbered) = number_for env company_id document lined in
    if is_number_taken document.id number numbered.documents
    then err Error.unique_violation
    else ok (
        add_history
          (record {
            document_id = document.id;
            step_id = none;
            actor_id = user.employee_id;
            action = HistoryAction.submit;
            comment = none;
          })
          (set_document document.id (submitted env number) numbered))
