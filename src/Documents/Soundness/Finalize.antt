-- ===== src/Documents/Soundness/Finalize.antt =====
-- The document that `finalizeApproval` leaves.
use able_work.Base.{ℕ, ◌≡◌, refl, subst, sym, some, ◌&&◌, ◌==◌}
use able_work.Documents.Constants.{DocStatus, StepStatus, step_status_eq}
use able_work.Documents.Types.{Document, Store, Env, steps_of}
use able_work.Documents.Store.{find_document, map_document, update_steps_of}
use able_work.Documents.Store.Rows.{find_document-set_document, find_document-update_steps_of}
use able_work.Documents.Helpers.{is_receiver}
use able_work.Documents.Progress.{complete_document, finalize_approval, with_status}
use able_work.Documents.Flow.Close.{activates_receiver}

pub find_document-finalize_approval :
    (env : Env) (company_id document_id : ℕ) (st : Store) (id : ℕ) {d : Document}
    → id ≡ document_id
    → find_document company_id document_id st.documents ≡ some d
    → find_document company_id document_id (finalize_approval env id st).documents
      ≡ some (complete_document env DocStatus.approved (map_document activates_receiver d))
unfolding finalize_approval
find_document-finalize_approval env company_id document_id st id {d} e found =
    subst
      (λ i.
        find_document company_id document_id (finalize_approval env i st).documents
        ≡ some (complete_document env DocStatus.approved (map_document activates_receiver d)))
      (sym e)
      (find_document-set_document company_id document_id
        (update_steps_of document_id (λ s. is_receiver s.role && s.status == StepStatus.waiting)
          (with_status StepStatus.pending) st)
        (find_document-update_steps_of company_id document_id st found
          (λ s. is_receiver s.role && s.status == StepStatus.waiting)
          (with_status StepStatus.pending))
        (complete_document env DocStatus.approved) (λ x. (refl, refl)))

pub complete_document-fields :
    (env : Env) (status : DocStatus) (d : Document)
    → ((complete_document env status d).status ≡ status)
      × (steps_of (complete_document env status d) ≡ steps_of d)
unfolding complete_document
complete_document-fields env status d = (refl, refl)
