-- ===== src/Documents/Drafts.antt =====
-- documents.service.ts: drafting, submission, recall, deletion, later readers and opinions. As for
-- the actions, an error leaves the store as it is.
pub mod Delete
pub mod Notes
use able_work.Base.{
  ℕ, suc, ◌+◌, ◌≡◌, Bool, true, false, not, ◌&&◌, ◌||◌, Option, none, some, is_some, List, [], ◌∷◌,
  ◌++◌, map, length, any, find, filter, if◌then◌else◌, ◌==◌, nat_eq, nat_beq, or_else, is_value,
  includes,
}
use able_work.Access.{JwtPayload, AccessLevel, has_level}
use able_work.Errors.{Error, Result, ok, err, guard, ◌>>=◌, ◌>>◌}
use able_work.Documents.Constants.{
  DocStatus, StepRole, StepStatus, HistoryAction, doc_status_eq, step_role_eq, step_status_eq,
}
use able_work.Documents.Types.{
  Text, Step, ApprovalLine, Document, Event, StepInput, ResolvedStep, CreateDocument,
  UpdateDocument, SubmitDocument, Store, Env, FormAccessRule, ScopeType, scope_type_eq, Visibility,
  DocumentForm, Employee, flat_steps, steps_of,
}
use able_work.Documents.Store.{find_document, set_document, add_history, emit, form_of}
use able_work.Documents.Helpers.{
  is_acted, editable_statuses, assert_drafter, assert_not_request_managed,
}
use able_work.Documents.Support.{loaded_steps}
use able_work.Documents.Steps.{is_dept, is_empty, resolve_submit_steps, resolve_steps}
use able_work.Documents.Steps.Submit.{create_draft_line, first_assignee_id, run_submit_transaction}

-- `findFirst` by id and company, with the refusal where there is none.
unfoldable pub load_document : Store → ℕ → ℕ → Result Document
unfolding find_document
load_document st company_id document_id = elim (find_document company_id document_id st.documents) [
  | none ↦ err Error.document_not_found
  | some d ↦ ok d
]

unfoldable pub assert_editable : Document → Result (Unit {0})
unfolding includes
assert_editable d = guard (includes editable_statuses d.status) Error.document_already_submitted

-- `loadDraftableDocument`
unfoldable pub load_draftable_document : Store → ℕ → ℕ → JwtPayload → Result Document
unfolding load_document assert_not_request_managed assert_drafter assert_editable
load_draftable_document st company_id document_id user = do
  document ← load_document st company_id document_id
  assert_not_request_managed document
  assert_drafter document user
  assert_editable document
  ok document

scope_ids : ScopeType → List FormAccessRule → List ℕ
scope_ids scope [] = []
scope_ids scope (r ∷ rs) =
    let rest = scope_ids scope rs in if r.scope_type == scope then r.scope_id ∷ rest else rest

-- The employee of the company whom a rule's organization or position lets in.
matches_rules : ℕ → ℕ → List FormAccessRule → Employee → Bool
unfolding includes scope_ids
matches_rules company_id employee_id rules e =
    e.id == employee_id
    && e.company_id == company_id
    && (any (includes (scope_ids ScopeType.organization rules)) e.organization_ids
        || any (includes (scope_ids ScopeType.position rules)) e.position_ids)

-- A form without rules: open to all if it is public, else to its owner.
is_open_form : Store → ℕ → ℕ → JwtPayload → Bool
is_open_form st company_id form_id user =
    elim (find (λ f. f.id == form_id && f.company_id == company_id) st.forms) [
      | none ↦ true
      | some form ↦ elim form.visibility_scope [
        | Visibility.public ↦ true
        | Visibility.restricted ↦ is_value form.form_owner_id user.employee_id
      ]
    ]

-- `assertCanUseForm` (document-forms.service.ts)
unfoldable pub assert_can_use_form : Store → ℕ → ℕ → JwtPayload → Result (Unit {0})
unfolding has_level matches_rules is_open_form
assert_can_use_form st company_id form_id user =
    let rules = filter (λ (r : FormAccessRule). r.form_id == form_id) st.access_rules in
    if has_level (some user.access_level) AccessLevel.general_admin
    then ok tt
    else if is_empty rules
    then guard (is_open_form st company_id form_id user) Error.form_access_denied
    else guard (any (matches_rules company_id user.employee_id rules) st.employees)
        Error.form_access_denied

-- `dto.steps?.length ? await resolveSteps(…) : []`
unfoldable pub resolve_given : Store → ℕ → Option (List StepInput) → Result (List ResolvedStep)
unfolding resolve_steps
resolve_given st company_id steps =
    if is_empty (or_else steps []) then ok [] else resolve_steps st company_id (or_else steps [])

-- A draft line, if there are steps for it.
unfoldable pub keep_steps : Env → ℕ → List ResolvedStep → Store → Store
unfolding create_draft_line
keep_steps env document_id steps st =
    if is_empty steps then st else create_draft_line env document_id steps st

unfoldable pub new_document : ℕ → ℕ → CreateDocument → JwtPayload → Document
new_document id company_id dto user = record {
  id = id;
  company_id = company_id;
  form_id = dto.form_id;
  category_id = dto.category_id;
  request_id = none;
  doc_number = none;
  title = dto.title;
  content = dto.content;
  drafter_id = user.employee_id;
  status = DocStatus.draft;
  submitted_at = none;
  completed_at = none;
  approval_lines = [];
}

unfoldable pub create : Env → ℕ → CreateDocument → JwtPayload → Store → Result Store
unfolding assert_can_use_form resolve_given keep_steps new_document
create env company_id dto user st = do
  guard (any (λ f. f.id == dto.form_id && f.company_id == company_id && f.is_active) st.forms)
      Error.form_not_found
  assert_can_use_form st company_id dto.form_id user
  resolved ← resolve_given st company_id dto.steps
  let id = env.uuid st.drawn
  ok (
      keep_steps env id resolved (record st {
        documents = new_document id company_id dto user ∷ st.documents;
        drawn = suc st.drawn;
      }))

unfoldable pub edited : UpdateDocument → Document → Document
edited dto d = record d {
  form_id = or_else dto.form_id d.form_id;
  title = or_else dto.title d.title;
  content = or_else dto.content d.content;
  category_id = or_else dto.category_id d.category_id;
}

unfoldable pub update : Env → ℕ → ℕ → UpdateDocument → JwtPayload → Store → Result Store
unfolding load_draftable_document resolve_given keep_steps set_document edited
update env company_id document_id dto user st = do
  document ← load_draftable_document st company_id document_id user
  resolved ← resolve_given st company_id dto.steps
  let replaced : Store = elim dto.steps [
    | none ↦ st
    | some _ ↦
        keep_steps env document_id resolved
          (set_document document_id (λ d. record d { approval_lines = [] }) st)
  ]
  ok (set_document document.id (edited dto) replaced)

-- The steps of the draft as inputs: a department is resolved anew.
unfoldable pub existing_input : Step → StepInput
unfolding is_dept
existing_input s = record {
  role = s.role;
  assignee_id = if is_dept s.role then none else some s.assignee_id;
  organization_id = if is_dept s.role then s.organization_id else none;
  step_order = s.step_order;
}

unfoldable pub names_drafter : ℕ → StepInput → Bool
names_drafter drafter_id s = s.role == StepRole.approver && is_value s.assignee_id drafter_id

unfoldable pub default_line_of : Store → Document → Option ℕ
unfolding form_of
default_line_of st d = elim (form_of st d) [ none ↦ none | some form ↦ form.default_line_id ]

unfoldable pub emit_submitted : Document → Option ℕ → Store → Store
unfolding emit
emit_submitted document first st =
    let st' = emit (Event.document_submitted document.id document.drafter_id) st in
    elim first [
      | none ↦ st'
      | some assignee ↦ emit (Event.document_step_pending document.id assignee) st'
    ]

-- The transaction, once more on P2002: `others` is what other transactions did in between.
unfoldable pub submit_with_retry :
    Env
    → ℕ
    → Document
    → List ResolvedStep
    → Option ℕ
    → JwtPayload
    → (Store → Store)
    → Store
    → Result Store
unfolding run_submit_transaction
submit_with_retry env company_id document steps shared_line_id user others st =
    elim (run_submit_transaction env company_id document steps shared_line_id user st) [
      | ok st' ↦ ok st'
      | err Error.unique_violation ↦
          run_submit_transaction env company_id document steps shared_line_id user (others st)
      | err e ↦ err e
    ]

unfoldable pub submit :
    Env → ℕ → ℕ → SubmitDocument → JwtPayload → (Store → Store) → Store → Result Store
unfolding load_document assert_not_request_managed assert_drafter assert_editable existing_input
    default_line_of resolve_submit_steps resolve_steps names_drafter submit_with_retry
    emit_submitted loaded_steps
submit env company_id document_id dto user others st = do
  document ← load_document st company_id document_id
  assert_not_request_managed document
  assert_drafter document user
  assert_editable document
  choice ←
      resolve_submit_steps st company_id dto (map existing_input (loaded_steps document))
        (default_line_of st document)
  guard (not (any (names_drafter document.drafter_id) choice.0)) Error.approval_self_not_allowed
  resolved ← resolve_steps st company_id choice.0
  st' ← submit_with_retry env company_id document resolved choice.1 user others st
  ok (emit_submitted document (first_assignee_id resolved) st')

unfoldable pub recalled : Document → Document
recalled d = record d { status = DocStatus.recalled }

unfoldable pub recall : ℕ → ℕ → JwtPayload → Store → Result Store
unfolding load_document assert_not_request_managed assert_drafter is_acted set_document recalled
    add_history emit
recall company_id document_id user st = do
  document ← load_document st company_id document_id
  assert_not_request_managed document
  assert_drafter document user
  guard (document.status == DocStatus.pending) Error.document_cannot_recall
  guard (not (any (λ s. is_acted s.status) (steps_of document))) Error.document_cannot_recall
  ok (
      emit (Event.document_recalled document_id document.drafter_id) (
        add_history
          (record {
            document_id = document_id;
            step_id = none;
            actor_id = user.employee_id;
            action = HistoryAction.recall;
            comment = none;
          })
          (set_document document_id recalled st)))
