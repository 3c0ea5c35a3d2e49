-- ===== src/Documents/Store.antt =====
-- The Prisma calls of the approval services, as functions on the tables: `findFirst` is the first
-- row that fits, `update` by id changes the row with that id, `updateMany` every row that fits.
pub mod Rows
use able_work.Base.{ℕ, Bool, ◌&&◌, Option, List, ◌∷◌, map, find, if◌then◌else◌, ◌==◌, nat_eq}
use able_work.Documents.Types.{
  Step, ApprovalLine, Document, ApprovalHistory, Event, AuditLog, Store, DocumentForm,
}

-- `document.findFirst({ where: { id, companyId } })`
unfoldable pub find_document : ℕ → ℕ → List Document → Option Document
find_document company_id document_id = find (λ d. d.id == document_id && d.company_id == company_id)

abbrev pub map_line : (Step → Step) → ApprovalLine → ApprovalLine
map_line f l = record l { steps = map f l.steps }

abbrev pub map_document : (Step → Step) → Document → Document
map_document f d = record d { approval_lines = map (map_line f) d.approval_lines }

-- Every document with the given id, changed by `f`.
unfoldable pub update_document : ℕ → (Document → Document) → List Document → List Document
update_document document_id f = map (λ d. if d.id == document_id then f d else d)

abbrev pub update_if_id : ℕ → (Step → Step) → Step → Step
update_if_id step_id f s = if s.id == step_id then f s else s

-- `approvalStep.update({ where: { id }, data })`: a step is found in any document.
unfoldable pub update_step : ℕ → (Step → Step) → Store → Store
update_step step_id f st = record st {
  documents = map (map_document (update_if_id step_id f)) st.documents;
}

-- `approvalStep.updateMany({ where: { line: { documentId }, … }, data })`
unfoldable pub update_steps_of : ℕ → (Step → Bool) → (Step → Step) → Store → Store
unfolding update_document
update_steps_of document_id p f st = record st {
  documents = update_document document_id (map_document (λ s. if p s then f s else s)) st.documents;
}

-- `document.update({ where: { id }, data })`
unfoldable pub set_document : ℕ → (Document → Document) → Store → Store
unfolding update_document
set_document document_id f st = record st { documents = update_document document_id f st.documents }

-- `document.findFirst({ where: { id } })`
unfoldable pub document_row : ℕ → Store → Option Document
document_row document_id st = find (λ d. d.id == document_id) st.documents

-- `approvalHistory.create({ data })`
unfoldable pub add_history : ApprovalHistory → Store → Store
add_history h st = record st { histories = h ∷ st.histories }

-- `events.emit(…)`
unfoldable pub emit : Event → Store → Store
emit e st = record st { events = e ∷ st.events }

-- `audit.record(…)`
unfoldable pub audit : AuditLog → Store → Store
audit a st = record st { audits = a ∷ st.audits }

-- The row that the foreign key `formId` points to.
unfoldable pub form_of : Store → Document → Option DocumentForm
form_of st d = find (λ f. f.id == d.form_id) st.forms
