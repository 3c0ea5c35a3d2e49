-- ===== src/Documents/Soundness/Reject.antt =====
-- `reject`: a sound pending document becomes a sound rejected one.
use able_work.Base.{
  ℕ, ◌≡◌, ◌≢◌, refl, sym, ◌∙◌, subst, Bool, true, false, ◌||◌, inl, inr, Option, some, map, arith,
  each-map, Bool-cases, nat_eq, if◌then◌else◌, includes, [], ◌∷◌,
}
use able_work.Access.{JwtPayload}
use able_work.Errors.{ok, >>=-eq_ok, guard-eq_ok, ok-injective}
use able_work.Documents.Constants.{
  DocStatus, StepRole, StepStatus, doc_status_eq, step_status_eq, step_role_eq, doc_status_beq_iff,
  step_status_beq_iff, cancel_on_reject_roles,
}
use able_work.Documents.Types.{Text, Step, Store, Env, steps_of}
use able_work.Documents.Store.{
  find_document, map_document, update_if_id, update_step, update_steps_of,
}
use able_work.Documents.Store.Rows.{
  steps_of-map_twice, find_document-update_step, find_document-update_steps_of_at,
  find_document-set_document_at, find_document-key, found_same,
}
use able_work.Documents.Helpers.{is_flow, is_receiver}
use able_work.Documents.Support.{ActionTarget, load_action_target, resolve_actor}
use able_work.Documents.Support.Target.{IsTarget, load_action_target-IsTarget}
use able_work.Documents.Progress.{acted, complete_document, with_status}
use able_work.Documents.Actions.Reject.{reject, commit_reject, cancels_on_reject}
use able_work.Documents.Flow.{
  PendingFlow, IsStopped, IsSound, SoundSteps, HoldsPending, HoldsStopped,
}
use able_work.Documents.Flow.Move.{
  KeepsPlace, update_if_id-KeepsPlace, if-KeepsPlace, after-KeepsPlace, map-HasUniqueIds,
  with_steps, PendingFlow-IsSound, pending_flow,
}
use able_work.Documents.Soundness.Finalize.{complete_document-fields}

reject_roles :
    (role : StepRole)
    → is_flow role || is_receiver role ≡ true
    → includes cancel_on_reject_roles role ≡ true
unfolding is_flow is_receiver
reject_roles role h = ground arith

open_statuses :
    (status : StepStatus)
    → includes (StepStatus.waiting ∷ StepStatus.pending ∷ []) status ≡ false
    → (status ≢ StepStatus.waiting) × (status ≢ StepStatus.pending)
unfolding includes
open_statuses status h = ground arith

cancel-IsStopped :
    (step_id : ℕ) (m : Step)
    → (m.id ≡ step_id → m.status ≡ StepStatus.rejected)
    → IsStopped (if cancels_on_reject step_id m then with_status StepStatus.cancelled m else m)
unfolding cancels_on_reject
cancel-IsStopped step_id m rejected h =
    elim (Bool-cases (includes (StepStatus.waiting ∷ StepStatus.pending ∷ []) m.status)) [
      | inl o ↦ ground (arith, reject_roles m.role)
      | inr c ↦ ground (arith, open_statuses m.status c)
    ]

-- What the step is changed to, and then the others.
module _ (step_id : ℕ) (mark : Step → Step) (keeps : KeepsPlace mark) where
  abbrev stopped : Step → Step
  stopped s =
      let m = update_if_id step_id mark s in
      if cancels_on_reject step_id m then with_status StepStatus.cancelled m else m

  stopped-KeepsPlace : KeepsPlace stopped
  stopped-KeepsPlace =
      after-KeepsPlace
        (λ s. if cancels_on_reject step_id s then with_status StepStatus.cancelled s else s)
        (update_if_id step_id mark)
        (if-KeepsPlace (cancels_on_reject step_id) (with_status StepStatus.cancelled)
          (λ s. (refl, refl, refl)))
        (update_if_id-KeepsPlace step_id mark keeps)

  -- After a rejection nothing is open among the flow and the receivers.
  stopped-IsStopped :
      ((s : Step) → (mark s).status ≡ StepStatus.rejected) → (s : Step) → IsStopped (stopped s)
  stopped-IsStopped rejects s =
      cancel-IsStopped step_id (update_if_id step_id mark s)
        (λ e. ground (arith, rejects s, keeps s))

module _ (env : Env) (company_id document_id step_id : ℕ) (comment : Option Text)
    (actor : JwtPayload) (st : Store) where
  -- The checks that a flow step has passed before it is rejected or pre-approved.
  pub record HasPassed (t : ActionTarget) : Type 0 where
    pub target : IsTarget company_id document_id step_id st t
    pub document_pending : t.document.status ≡ DocStatus.pending
    pub in_flow : is_flow t.step.role ≡ true
    pub step_pending : t.step.status ≡ StepStatus.pending
    pub allowed : (is_proxy : Bool) × (resolve_actor env st t.step actor ≡ ok is_proxy)

  pub reject-HasPassed :
      {st' : Store}
      → reject env company_id document_id step_id comment actor st ≡ ok st'
      → (t : ActionTarget) × (p : Bool) × HasPassed t
        × (st' ≡ commit_reject env company_id t comment actor p st)
  unfolding reject is_flow
  reject-HasPassed h =
      let (t, loaded, h1) = >>=-eq_ok (load_action_target st company_id document_id step_id) _ h in
      let (c1, h2) = guard-eq_ok _ _ _ h1 in
      let (c2, h3) = guard-eq_ok _ _ _ h2 in
      let (c3, h4) = guard-eq_ok _ _ _ h3 in
      let (p, resolved, h5) = >>=-eq_ok (resolve_actor env st t.step actor) _ h4 in
      (
        t,
        p,
        record {
          target = load_action_target-IsTarget company_id document_id step_id st loaded;
          document_pending = (doc_status_beq_iff _ _).0 c1;
          in_flow = c2;
          step_pending = (step_status_beq_iff _ _).0 c3;
          allowed = (p, resolved);
        },
        sym (ok-injective _ _ h5),
      )

  module _ (t : ActionTarget) (passed : HasPassed t) (sound : IsSound t.document) (p : Bool) where
    pub flow : (k : ℕ) × PendingFlow k (steps_of t.document)
    flow = pending_flow t.document passed.document_pending sound

    pub id_eq : t.document.id ≡ document_id
    id_eq = (find_document-key company_id document_id st.documents passed.target.found).1

    pub acted-KeepsPlace :
        (status : StepStatus) → KeepsPlace (acted env status comment p actor.employee_id)
    unfolding acted
    acted-KeepsPlace status s = (refl, refl, refl)

    pub marked_found :
        (status : StepStatus)
        → find_document company_id document_id
            (update_step t.step.id (acted env status comment p actor.employee_id) st).documents
          ≡ some (
              map_document
                (update_if_id t.step.id (acted env status comment p actor.employee_id))
                t.document)
    marked_found status =
        find_document-update_step company_id document_id st passed.target.found t.step.id
          (acted env status comment p actor.employee_id)

    commit_reject-HoldsStopped :
        HoldsStopped company_id document_id (commit_reject env company_id t comment actor p st)
    unfolding commit_reject
    commit_reject-HoldsStopped =
        let mark = acted env StepStatus.rejected comment p actor.employee_id in
        let cancel = λ (s : Step).
          if cancels_on_reject t.step.id s then with_status StepStatus.cancelled s else s in
        let d = map_document cancel (map_document (update_if_id t.step.id mark) t.document) in
        let st1 = update_step t.step.id mark st in
        (
          complete_document env DocStatus.rejected d,
          find_document-set_document_at company_id document_id
              (update_steps_of t.document.id (cancels_on_reject t.step.id)
                (with_status StepStatus.cancelled) st1)
              (find_document-update_steps_of_at company_id document_id st1
                (marked_found StepStatus.rejected) t.document.id (cancels_on_reject t.step.id)
                (with_status StepStatus.cancelled) id_eq)
              t.document.id (complete_document env DocStatus.rejected) id_eq (λ x. (refl, refl)),
          (complete_document-fields env DocStatus.rejected d).0,
          with_steps (complete_document env DocStatus.rejected d)
              (map (stopped t.step.id mark (acted-KeepsPlace StepStatus.rejected))
                (steps_of t.document))
              (SoundSteps DocStatus.rejected)
              ((complete_document-fields env DocStatus.rejected d).1
                ∙ steps_of-map_twice cancel (update_if_id t.step.id mark) t.document)
              (
                map-HasUniqueIds (stopped t.step.id mark (acted-KeepsPlace StepStatus.rejected))
                    (stopped-KeepsPlace t.step.id mark (acted-KeepsPlace StepStatus.rejected))
                    (steps_of t.document) flow.1.unique_ids,
                each-map IsStopped (stopped t.step.id mark (acted-KeepsPlace StepStatus.rejected))
                    (steps_of t.document)
                    (λ s m.
                      stopped-IsStopped t.step.id mark (acted-KeepsPlace StepStatus.rejected)
                        acted_status s),
              ),
        )
      where
        acted_status :
            (s : Step)
            → (acted env StepStatus.rejected comment p actor.employee_id s).status
              ≡ StepStatus.rejected
        acted_status s = refl

  -- A successful rejection of a document whose flow is pending, by whichever step of the flow, a
  -- personal agreement among them, leaves it rejected, with its step ids unique and no flow or
  -- receiver's step waiting or pending.
  pub reject-HoldsStopped :
      {st' : Store} {k : ℕ}
      → HoldsPending company_id document_id k st
      → reject env company_id document_id step_id comment actor st ≡ ok st'
      → HoldsStopped company_id document_id st'
  reject-HoldsStopped {k = k} (d, found, status, flow) h =
      let (t, p, passed, written) = reject-HasPassed h in
      let flow' = found_same (λ x. PendingFlow k (steps_of x)) found passed.target.found flow in
      subst (HoldsStopped company_id document_id) (sym written) (
        commit_reject-HoldsStopped t passed
          (PendingFlow-IsSound t.document passed.document_pending flow') p)
