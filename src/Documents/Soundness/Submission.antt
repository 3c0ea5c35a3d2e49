-- ===== src/Documents/Soundness/Submission.antt =====
-- `submit`: the pending flow that a submission starts, at its first or second attempt.
use able_work.Base.{
  ℕ, ◌≡◌, refl, sym, ap, ◌∙◌, subst, not, inl, inr, ◌⊎◌, Option, none, some, List, map, any,
  is_some, includes, ◌==◌, nat_eq,
}
use able_work.Access.{JwtPayload}
use able_work.Errors.{Error, Result, ok, err, >>=-eq_ok, guard-eq_ok, ok-injective}
use able_work.Documents.Types.{Document, ResolvedStep, SubmitDocument, Store, Env}
use able_work.Documents.Store.{find_document}
use able_work.Documents.Store.Rows.{find_document-key}
use able_work.Documents.Helpers.{editable_statuses}
use able_work.Documents.Constants.{doc_status_eq}
use able_work.Documents.Support.{loaded_steps}
use able_work.Documents.Steps.{Choice, resolve_submit_steps, resolve_steps}
use able_work.Documents.Steps.Resolve.{
  resolve_submit_steps-flow, resolve_steps-flow, first_flow_order-exists,
}
use able_work.Documents.Steps.Submit.{run_submit_transaction, first_flow_order, first_assignee_id}
use able_work.Documents.Drafts.{
  submit, submit_with_retry, emit_submitted, load_document, existing_input, default_line_of,
  names_drafter,
}
use able_work.Documents.Flow.{HoldsPending}
use able_work.Documents.Flow.Start.{GeneratesDistinct, DistinctOrders}
use able_work.Documents.Soundness.Submit.{run_submit_transaction-HoldsPending}
use able_work.Documents.Soundness.Closed.{load_document-found}

retry_cases :
    (r again : Result Store) {y : Store}
    → (elim r [ ok st' ↦ ok st' | err Error.unique_violation ↦ again | err e ↦ err e ]) ≡ ok y
    → (r ≡ ok y) ⊎ (again ≡ ok y)
retry_cases (ok x) again h = inl h
retry_cases (err Error.unique_violation) again h = inr h
retry_cases (err e) again h = absurd (cc h)

emit_submitted-documents :
    (d : Document) (first : Option ℕ) (st : Store)
    → (emit_submitted d first st).documents ≡ st.documents
unfolding emit_submitted
emit_submitted-documents d none st = refl
emit_submitted-documents d (some a) st = refl

-- The steps that a submission resolves have distinct orders in the flow.
abbrev pub ResolvesApart : ℕ → ℕ → SubmitDocument → Store → Type 0
ResolvesApart company_id document_id dto st =
    (d : Document) (choice : Choice) (rs : List ResolvedStep)
    → find_document company_id document_id st.documents ≡ some d
    → resolve_submit_steps st company_id dto (map existing_input (loaded_steps d))
        (default_line_of st d)
      ≡ ok choice
    → resolve_steps st company_id choice.0 ≡ ok rs
    → DistinctOrders rs

module _ (env : Env) (distinct : GeneratesDistinct env) (company_id document_id : ℕ)
    (dto : SubmitDocument) (user : JwtPayload) (others : Store → Store) (st : Store) where
  -- The transaction succeeds on the store of the call or on the one of the second attempt.
  retry-HoldsPending :
      (d d' : Document) (rs : List ResolvedStep) (line_id : Option ℕ) {k : ℕ} {st' : Store}
      → find_document company_id d.id st.documents ≡ some d
      → find_document company_id d.id (others st).documents ≡ some d'
      → DistinctOrders rs
      → first_flow_order rs ≡ some k
      → submit_with_retry env company_id d rs line_id user others st ≡ ok st'
      → HoldsPending company_id d.id k st'
  unfolding submit_with_retry
  retry-HoldsPending d d' rs line_id found found' apart first h =
      elim (retry_cases (run_submit_transaction env company_id d rs line_id user st)
        (run_submit_transaction env company_id d rs line_id user (others st)) h) [
          | inl once ↦
              run_submit_transaction-HoldsPending env distinct company_id d rs apart first line_id
                user st found once
          | inr again ↦
              run_submit_transaction-HoldsPending env distinct company_id d rs apart first line_id
                user (others st) found' again
        ]

  -- A successful submission leaves the document pending with its flow at some order, where the
  -- database generates distinct ids, the resolved flow steps have distinct orders, and what other
  -- transactions do between the two attempts does not delete the document.
  pub submit-HoldsPending :
      {d' : Document} {st' : Store}
      → ResolvesApart company_id document_id dto st
      → find_document company_id document_id (others st).documents ≡ some d'
      → submit env company_id document_id dto user others st ≡ ok st'
      → (k : ℕ) × HoldsPending company_id document_id k st'
  unfolding submit
  submit-HoldsPending {d'} {st'} apart kept h =
      let (d, loaded, h1) = >>=-eq_ok (load_document st company_id document_id) _ h in
      let (c1, h2) =
        guard-eq_ok (not (is_some d.request_id)) Error.document_managed_by_request _ h1 in
      let (c2, h3) =
        guard-eq_ok (d.drafter_id == user.employee_id) Error.document_not_drafter _ h2 in
      let (c3, h4) =
        guard-eq_ok (includes editable_statuses d.status) Error.document_already_submitted _ h3 in
      let (choice, chosen, h5) =
        >>=-eq_ok
          (resolve_submit_steps st company_id dto (map existing_input (loaded_steps d))
            (default_line_of st d))
          _ h4 in
      let (c4, h6) =
        guard-eq_ok (not (any (names_drafter d.drafter_id) choice.0))
          Error.approval_self_not_allowed _ h5 in
      let (rs, resolved, h7) = >>=-eq_ok (resolve_steps st company_id choice.0) _ h6 in
      let (after, ran, h8) =
        >>=-eq_ok (submit_with_retry env company_id d rs choice.1 user others st) _ h7 in
      let found = load_document-found st company_id document_id loaded in
      let (m, id_eq, company_eq) = find_document-key company_id document_id st.documents found in
      let in_flow = resolve_steps-flow st company_id choice.0 resolved (
        resolve_submit_steps-flow st company_id dto (map existing_input (loaded_steps d))
          (default_line_of st d) chosen) in
      let (k, first) = first_flow_order-exists rs in_flow in
      let holds =
        retry-HoldsPending d d' rs choice.1
          (subst (λ i. find_document company_id i st.documents ≡ some d) (sym id_eq) found)
          (subst (λ i. find_document company_id i (others st).documents ≡ some d') (sym id_eq) kept)
          (apart d choice rs found chosen resolved) first ran in
      let (x, f, status, flow) = subst (λ i. HoldsPending company_id i k after) id_eq holds in
      (
        k,
        (
          x,
          ap (λ (s : Store). find_document company_id document_id s.documents)
                (sym (ok-injective _ _ h8))
              ∙ ap (find_document company_id document_id)
                  (emit_submitted-documents d (first_assignee_id rs) after)
              ∙ f,
          status,
          flow,
        ),
      )
