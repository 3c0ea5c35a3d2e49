-- ===== src/Documents/Soundness/Submit.antt =====
-- The submission: the pending flow that its transaction starts.
use able_work.Base.{
  ℕ, suc, ◌≡◌, refl, sym, ap, ◌∙◌, subst, Bool, true, false, inl, inr, Option, some, is_some, List,
  [], ◌∷◌, ◌++◌, arith, nat_eq, if◌then◌else◌, Option-cases,
}
use able_work.Access.{JwtPayload}
use able_work.Errors.{Error, ok, err, ok-injective}
use able_work.Documents.Types.{Step, ApprovalLine, Document, ResolvedStep, Store, Env, steps_of}
use able_work.Documents.Store.{find_document, set_document}
use able_work.Documents.Store.Rows.{find_document-set_document}
use able_work.Documents.Helpers.{initial_step_status}
use able_work.Documents.Numbering.{issue_doc_number-documents}
use able_work.Documents.Steps.Submit.{
  create_steps, create_line, first_flow_order, number_for, submitted, run_submit_transaction,
}
use able_work.Documents.Flow.{PendingFlow, HoldsPending}
use able_work.Documents.Flow.Move.{with_steps}
use able_work.Documents.Flow.Start.{GeneratesDistinct, DistinctOrders, create_steps-PendingFlow}

pub number_for-documents :
    (env : Env) (company_id : ℕ) (document : Document) (st : Store)
    → (number_for env company_id document st).1.documents ≡ st.documents
unfolding number_for
number_for-documents env company_id document st = elim (Option-cases document.doc_number) [
  | inr (number, e) ↦ ground (arith, e)
  | inl e ↦
      ground (
        arith,
        e,
        issue_doc_number-documents env company_id document.form_id document.category_id st,
      )
]

append_nil : (xs : List Step) → xs ++ [] ≡ xs
append_nil [] = refl
append_nil (x ∷ xs) = ap (λ ys. x ∷ ys) (append_nil xs)

pub ok_of_if :
    (taken : Bool) (e : Error) (x : Store) {y : Store}
    → (if taken then err e else ok x) ≡ ok y
    → y ≡ x
ok_of_if true e x h = absurd (cc h)
ok_of_if false e x h = sym (ok-injective _ _ h)

module _ (env : Env) (distinct : GeneratesDistinct env) (company_id : ℕ) (document : Document)
    (steps : List ResolvedStep) (apart : DistinctOrders steps) {k : ℕ}
    (first : first_flow_order steps ≡ some k) (shared_line_id : Option ℕ) (user : JwtPayload) where
  abbrev lined : Store → Store
  lined st =
      create_line env document.id shared_line_id
        (λ s. initial_step_status s (first_flow_order steps)) steps true st

  abbrev new_steps : Store → List Step
  new_steps st =
      create_steps env (suc st.drawn) (λ s. initial_step_status s (first_flow_order steps)) steps

  new_steps-PendingFlow : (st : Store) → PendingFlow k (new_steps st)
  new_steps-PendingFlow st =
      subst
        (λ o. PendingFlow k (create_steps env (suc st.drawn) (λ s. initial_step_status s o) steps))
        (sym first) (create_steps-PendingFlow env (suc st.drawn) steps distinct apart first)

  run-documents :
      (st : Store) {st' : Store}
      → run_submit_transaction env company_id document steps shared_line_id user st ≡ ok st'
      → st'.documents
        ≡ (set_document document.id
            (submitted env (number_for env company_id document (lined st)).0)
            (number_for env company_id document (lined st)).1).documents
  unfolding run_submit_transaction
  run-documents st h = ap (λ (s : Store). s.documents) (ok_of_if _ _ _ h)

  lined_found :
      (st : Store) {d : Document}
      → find_document company_id document.id st.documents ≡ some d
      → (x : Document) × (find_document company_id document.id (lined st).documents ≡ some x)
        × (steps_of x ≡ new_steps st)
  unfolding create_line
  lined_found st {d} found = (
    record d { approval_lines = line ∷ [] },
    find_document-set_document company_id document.id st found
        (λ (x : Document). record x { approval_lines = line ∷ [] }) (λ x. (refl, refl)),
    append_nil (new_steps st),
  )
    where
      line : ApprovalLine
      line = record {
        id = env.uuid st.drawn;
        is_shared = is_some shared_line_id;
        shared_line_ref_id = shared_line_id;
        steps = new_steps st;
      }

  -- A successful run of the submission's transaction, on a stored document and with flow steps of
  -- distinct orders, leaves the document pending with its flow at the first of these orders, where the
  -- database generates distinct ids.
  pub run_submit_transaction-HoldsPending :
      (st : Store) {st' : Store} {d : Document}
      → find_document company_id document.id st.documents ≡ some d
      → run_submit_transaction env company_id document steps shared_line_id user st ≡ ok st'
      → HoldsPending company_id document.id k st'
  unfolding submitted
  run_submit_transaction-HoldsPending st found h =
      let (x, found_x, e) = lined_found st found in
      let N = number_for env company_id document (lined st) in
      (
        submitted env N.0 x,
        ap (find_document company_id document.id) (run-documents st h)
            ∙ find_document-set_document company_id document.id N.1
                (ap (find_document company_id document.id)
                    (number_for-documents env company_id document (lined st))
                  ∙ found_x)
                (submitted env N.0) (λ y. (refl, refl)),
        refl,
        with_steps x (new_steps st) (PendingFlow k) e (new_steps-PendingFlow st),
      )
