-- ===== src/Documents/Drafts/Delete.antt =====
-- documents.service.ts: `remove`, `forceDelete` and `bulkForceDelete`. A document's lines and steps
-- go with it.
use able_work.Base.{
  ℕ, Bool, not, ◌&&◌, Option, none, some, List, [], ◌∷◌, any, find, filter, if◌then◌else◌, ◌==◌,
  nat_eq, is_value, includes, unique,
}
use able_work.Access.{JwtPayload}
use able_work.Errors.{Error, Result, ok, guard, ◌>>=◌, ◌>>◌}
use able_work.Documents.Constants.{DocStatus, doc_status_eq}
use able_work.Documents.Types.{Document, ApprovalHistory, Store}
use able_work.Documents.Helpers.{is_company_admin, assert_drafter}
use able_work.Documents.Drafts.{load_document}

unfoldable pub delete_document : ℕ → Store → Store
delete_document document_id st = record st {
  documents = filter (λ (d : Document). not (d.id == document_id)) st.documents;
}

unfoldable pub delete_history : ℕ → Store → Store
delete_history document_id st = record st {
  histories = filter (λ (h : ApprovalHistory). not (h.document_id == document_id)) st.histories;
}

unfoldable pub remove : ℕ → ℕ → JwtPayload → Store → Result Store
unfolding load_document assert_drafter delete_document
remove company_id document_id user st = do
  document ← load_document st company_id document_id
  assert_drafter document user
  guard (document.status == DocStatus.draft) Error.document_not_draft
  ok (delete_document document_id st)

-- Whether a request of the company is linked to the document.
unfoldable pub is_linked : Store → ℕ → ℕ → Bool
is_linked st company_id document_id =
    any (λ r. is_value r.document_id document_id && r.company_id == company_id) st.requests

unfoldable pub force_delete : ℕ → ℕ → JwtPayload → Store → Result Store
unfolding is_company_admin load_document is_linked delete_document delete_history
force_delete company_id document_id user st = do
  guard (is_company_admin user) Error.document_force_delete_forbidden
  document ← load_document st company_id document_id
  guard (not (is_linked st company_id document_id)) Error.document_linked_to_request
  ok (delete_document document_id (delete_history document_id st))

pub data SkipReason : Type 0 where
  not_found linked_to_request status_not_deletable : SkipReason

pub record BulkResult : Type 0 where
  pub deleted_ids : List ℕ
  pub skipped : List (ℕ × SkipReason)

unfoldable pub status_in : Store → ℕ → ℕ → Option DocStatus
status_in st company_id document_id =
    elim (find (λ d. d.id == document_id && d.company_id == company_id) st.documents) [
      | none ↦ none
      | some d ↦ some d.status
    ]

-- Why an id is skipped, if it is.
unfoldable pub skip_reason : Store → ℕ → ℕ → Option SkipReason
unfolding includes status_in is_linked
skip_reason st company_id id = elim (status_in st company_id id) [
  | none ↦ some SkipReason.not_found
  | some status ↦
      if is_linked st company_id id
      then some SkipReason.linked_to_request
      else if not (includes (DocStatus.pending ∷ DocStatus.rejected ∷ []) status)
      then some SkipReason.status_not_deletable
      else none
]

-- The loop over the distinct ids.
unfoldable pub sort_out : Store → ℕ → List ℕ → BulkResult
unfolding skip_reason
sort_out st company_id [] = record { deleted_ids = []; skipped = [] }
sort_out st company_id (id ∷ ids) =
    let rest = sort_out st company_id ids in
    elim (skip_reason st company_id id) [
      | none ↦ record rest { deleted_ids = id ∷ rest.deleted_ids }
      | some reason ↦ record rest { skipped = (id, reason) ∷ rest.skipped }
    ]

unfoldable pub delete_all : ℕ → List ℕ → Store → Store
unfolding includes
delete_all company_id ids st = record st {
  histories = filter (λ (h : ApprovalHistory). not (includes ids h.document_id)) st.histories;
  documents =
      filter (λ (d : Document). not (includes ids d.id && d.company_id == company_id)) st.documents;
}

unfoldable pub bulk_force_delete : ℕ → List ℕ → JwtPayload → Store → Result (BulkResult × Store)
unfolding is_company_admin sort_out delete_all unique
bulk_force_delete company_id ids user st = do
  guard (is_company_admin user) Error.document_force_delete_forbidden
  let result = sort_out st company_id (unique ids)
  ok (result, delete_all company_id result.deleted_ids st)
