-- ===== src/Documents/Soundness/Closed.antt =====
-- The actions that move the flow, on a document that is not pending; and the recall, which ends it.
use able_work.Base.{
  ℕ, ◌≡◌, ◌≢◌, refl, sym, ap, ◌∙◌, Bool, true, false, not, inl, inr, Option, some, Memᴰ, arith,
  any-false_iff, nat_eq, nat_beq_iff, Option-cases, All-get,
}
use able_work.Access.{JwtPayload}
use able_work.Errors.{ok, >>=-eq_ok, guard-eq_ok, ok-injective}
use able_work.Documents.Constants.{DocStatus, StepRole, doc_status_beq_iff, doc_status_eq}
use able_work.Documents.Types.{Text, Step, Document, Store, Env, steps_of}
use able_work.Documents.Store.{find_document}
use able_work.Documents.Store.Rows.{find_document-set_document, found_same}
use able_work.Documents.Helpers.{is_acted}
use able_work.Documents.Drafts.{load_document, recall, recalled}
use able_work.Documents.Actions.Approve.{approve_flow_step}
use able_work.Documents.Actions.Reject.{reject, pre_approve}
use able_work.Documents.Actions.Return.{return_to_previous, cancel_approval}
use able_work.Documents.Soundness.Approve.{approve_flow_step-Approved}
use able_work.Documents.Soundness.Reject.{reject-HasPassed}
use able_work.Documents.Soundness.PreApprove.{pre_approve-HasPassed}
use able_work.Documents.Soundness.Return.{return_to_previous-HasPassed}
use able_work.Documents.Soundness.Cancel.{cancel_approval-MayCancel}

module _ (env : Env) (company_id document_id step_id : ℕ) (comment : Option Text)
    (actor : JwtPayload) (role : StepRole) (st : Store) where
  -- None of the actions that move the flow succeeds with this store.
  abbrev pub NoneLeadsTo : Store → Type 0
  NoneLeadsTo st' =
      (approve_flow_step env company_id document_id step_id comment actor role st ≢ ok st')
      × (reject env company_id document_id step_id comment actor st ≢ ok st')
      × (pre_approve env company_id document_id step_id comment actor st ≢ ok st')
      × (return_to_previous env company_id document_id step_id comment actor st ≢ ok st')
      × (cancel_approval company_id document_id step_id comment actor st ≢ ok st')

  -- On a stored document that is not pending, no approval, rejection, pre-approval, return or
  -- cancelling of an approval succeeds.
  pub actions-NoneLeadsTo :
      {d : Document}
      → find_document company_id document_id st.documents ≡ some d
      → d.status ≢ DocStatus.pending
      → (st' : Store) → NoneLeadsTo st'
  actions-NoneLeadsTo {d} found closed st' = (
    λ h.
        let (t, p, a) =
          approve_flow_step-Approved env company_id document_id step_id comment actor role st h in
        same a.target.found a.document_pending,
    λ h.
        let (t, p, a, w) = reject-HasPassed env company_id document_id step_id comment actor st h in
        same a.target.found a.document_pending,
    λ h.
        let (t, p, a, w) =
          pre_approve-HasPassed env company_id document_id step_id comment actor st h in
        same a.target.found a.document_pending,
    λ h.
        let (t, v, a, o, e, w) =
          return_to_previous-HasPassed env company_id document_id step_id comment actor st h in
        same a.target.found a.document_pending,
    λ h.
        let (t, a, w) =
          cancel_approval-MayCancel company_id document_id step_id comment actor st h in
        same a.target.found a.document_pending,
  )
    where
      same :
          {e : Document}
          → find_document company_id document_id st.documents ≡ some e
          → e.status ≡ DocStatus.pending
          → ⊥
      same f p = closed (found_same (λ x. x.status ≡ DocStatus.pending) f found p)

-- What a recall has found, and what it leaves.
pub record Recalls (company_id document_id : ℕ) (user : JwtPayload) (st st' : Store) (d : Document)
    : Type 0 where
  pub found : find_document company_id document_id st.documents ≡ some d
  pub own : d.drafter_id ≡ user.employee_id
  pub was_pending : d.status ≡ DocStatus.pending
  pub none_acted : (s : Step) → Memᴰ s (steps_of d) → is_acted s.status ≡ false
  pub left :
      find_document company_id document_id st'.documents
      ≡ some (record d { status = DocStatus.recalled })

pub load_document-found :
    (st : Store) (company_id document_id : ℕ) {d : Document}
    → load_document st company_id document_id ≡ ok d
    → find_document company_id document_id st.documents ≡ some d
unfolding load_document
load_document-found st company_id document_id h =
    elim (Option-cases (find_document company_id document_id st.documents)) [
      | inl e ↦ absurd (ground (arith, e))
      | inr (x, e) ↦ ground (arith, e)
    ]

-- A successful recall has found the drafter's own pending document, none of whose steps was acted on,
-- and leaves it recalled and otherwise as it was.
pub recall-Recalls :
    (company_id document_id : ℕ) (user : JwtPayload) (st : Store) {st' : Store}
    → recall company_id document_id user st ≡ ok st'
    → (d : Document) × Recalls company_id document_id user st st' d
unfolding recall recalled
recall-Recalls company_id document_id user st {st'} h =
    let (d, loaded, h1) = >>=-eq_ok (load_document st company_id document_id) _ h in
    let (c1, h2) = guard-eq_ok _ _ _ h1 in
    let (c2, h3) = guard-eq_ok _ _ _ h2 in
    let (c3, h4) = guard-eq_ok _ _ _ h3 in
    let (c4, h5) = guard-eq_ok _ _ _ h4 in
    let found = load_document-found st company_id document_id loaded in
    (
      d,
      record {
        found = found;
        own = (nat_beq_iff _ _).0 c2;
        was_pending = (doc_status_beq_iff _ _).0 c3;
        none_acted = λ s m.
            All-get (λ (x : Step). is_acted x.status ≡ false) (steps_of d)
              (any-false_iff (λ (x : Step). is_acted x.status) (steps_of d) (negated _ c4)) m;
        left =
            ap (λ (x : Store). find_document company_id document_id x.documents)
              (sym (ok-injective _ _ h5))
            ∙ find_document-set_document company_id document_id st found recalled
                (λ x. (refl, refl));
      },
    )
  where
    negated : (b : Bool) → not b ≡ true → b ≡ false
    negated b e = ground arith
