-- ===== src/Documents/Soundness/PreApprove.antt =====
-- `preApprove`: a sound pending document becomes a sound approved one.
use able_work.Base.{
  ℕ, ◌≡◌, ◌≢◌, refl, sym, ap, ◌∙◌, subst, Bool, true, inl, inr, ◌⊎◌, Option, map, Memᴰ, arith,
  each-map, map-map, Bool-cases, ◌==◌, nat_eq, if◌then◌else◌,
}
use able_work.Access.{JwtPayload}
use able_work.Errors.{ok, >>=-eq_ok, guard-eq_ok, ok-injective}
use able_work.Documents.Constants.{
  DocStatus, StepRole, StepStatus, doc_status_eq, step_status_eq, step_role_eq, doc_status_beq_iff,
  step_status_beq_iff,
}
use able_work.Documents.Types.{Text, Step, Store, Env, steps_of}
use able_work.Documents.Store.{map_document, update_if_id, update_step, update_steps_of}
use able_work.Documents.Store.Rows.{
  steps_of-map_document, steps_of-map_twice, find_document-update_steps_of_at, found_same,
}
use able_work.Documents.Helpers.{is_flow}
use able_work.Documents.Support.{ActionTarget, load_action_target, resolve_actor}
use able_work.Documents.Support.Target.{load_action_target-IsTarget, role_of_includes}
use able_work.Documents.Progress.{acted, complete_document, with_status, awaits, is_approved}
use able_work.Documents.Actions.Reject.{pre_approve, commit_pre_approve, skips_on_pre_approve}
use able_work.Documents.Flow.{
  IsSettled, IsSound, PendingFlow, SoundSteps, HoldsPending, HoldsSettled, is_settled,
}
use able_work.Documents.Flow.Move.{
  KeepsPlace, update_if_id-KeepsPlace, if-KeepsPlace, after-KeepsPlace, map-HasUniqueIds,
  with_steps, PendingFlow-IsSound,
}
use able_work.Documents.Flow.Advance.{other_AtFrontier}
use able_work.Documents.Flow.Close.{
  activates_receiver, activates_receiver-KeepsPlace, activates_receiver-IsSettled,
  is_settled_of_approved,
}
use able_work.Documents.Soundness.Reject.{HasPassed, flow, id_eq, acted-KeepsPlace, marked_found}
use able_work.Documents.Soundness.Finalize.{
  complete_document-fields, find_document-finalize_approval,
}

settled_pre_approved : is_settled StepStatus.pre_approved ≡ true
unfolding is_settled
settled_pre_approved = refl

settled_skipped : is_settled StepStatus.skipped ≡ true
unfolding is_settled
settled_skipped = refl

approver_in_flow : (role : StepRole) → role ≡ StepRole.approver → is_flow role ≡ true
unfolding is_flow
approver_in_flow role e = ground arith

-- What the step is changed to, and then the others.
module _ (step_id : ℕ) (mark : Step → Step) (keeps : KeepsPlace mark) where
  abbrev skipped : Step → Step
  skipped s =
      let m = update_if_id step_id mark s in
      if skips_on_pre_approve m then with_status StepStatus.skipped m else m

  skipped-KeepsPlace : KeepsPlace skipped
  skipped-KeepsPlace =
      after-KeepsPlace (λ s. if skips_on_pre_approve s then with_status StepStatus.skipped s else s)
        (update_if_id step_id mark)
        (if-KeepsPlace skips_on_pre_approve (with_status StepStatus.skipped)
          (λ s. (refl, refl, refl)))
        (update_if_id-KeepsPlace step_id mark keeps)

  -- After a pre-approval the flow is settled, and the receivers are active.
  pre_approved-IsSettled :
      ((s : Step) → (mark s).status ≡ StepStatus.pre_approved)
      → (s : Step)
      → (is_flow s.role ≡ true
          → s.id ≢ step_id
          → (is_approved s.status ≡ true) ⊎ (awaits s.status ≡ true))
      → IsSettled (activates_receiver (skipped s))
  unfolding skips_on_pre_approve
  pre_approved-IsSettled marks s was = activates_receiver-IsSettled (skipped s) (λ f.
      elim (Bool-cases (s.id == step_id)) [
        | inl same ↦ ground (arith, marks s, settled_pre_approved, settled_skipped)
        | inr other ↦ ground (
          arith,
          was ((sym (ap is_flow (skipped-KeepsPlace s).1) ∙ f)) (ground arith),
          is_settled_of_approved s.status,
          settled_skipped,
        )
      ])

module _ (env : Env) (company_id document_id step_id : ℕ) (comment : Option Text)
    (actor : JwtPayload) (st : Store) where
  pub pre_approve-HasPassed :
      {st' : Store}
      → pre_approve env company_id document_id step_id comment actor st ≡ ok st'
      → (t : ActionTarget) × (p : Bool) × HasPassed env company_id document_id step_id comment actor
          st t
        × (st' ≡ commit_pre_approve env t comment actor p st)
  unfolding pre_approve
  pre_approve-HasPassed h =
      let (t, loaded, h1) = >>=-eq_ok (load_action_target st company_id document_id step_id) _ h in
      let (c1, h2) = guard-eq_ok _ _ _ h1 in
      let (c2, h3) = guard-eq_ok _ _ _ h2 in
      let (c3, h4) = guard-eq_ok _ _ _ h3 in
      let (c4, h5) = guard-eq_ok _ _ _ h4 in
      let (p, resolved, h6) = >>=-eq_ok (resolve_actor env st t.step actor) _ h5 in
      (
        t,
        p,
        record {
          target = load_action_target-IsTarget company_id document_id step_id st loaded;
          document_pending = (doc_status_beq_iff _ _).0 c1;
          in_flow =
              approver_in_flow t.step.role (role_of_includes StepRole.approver t.step.role c2);
          step_pending = (step_status_beq_iff _ _).0 c3;
          allowed = (p, resolved);
        },
        sym (ok-injective _ _ h6),
      )

  module _ (t : ActionTarget)
      (passed : HasPassed env company_id document_id step_id comment actor st t)
      (sound : IsSound t.document) (p : Bool) where
    abbrev mark : Step → Step
    mark = acted env StepStatus.pre_approved comment p actor.employee_id

    keeps : KeepsPlace mark
    keeps =
        acted-KeepsPlace env company_id document_id step_id comment actor st t passed sound p
          StepStatus.pre_approved

    mark_status : (s : Step) → (mark s).status ≡ StepStatus.pre_approved
    unfolding acted
    mark_status s = refl

    -- A step of the flow other than the current one was approved or waits.
    was :
        (s : Step)
        → Memᴰ s (steps_of t.document)
        → is_flow s.role ≡ true
        → s.id ≢ t.step.id
        → (is_approved s.status ≡ true) ⊎ (awaits s.status ≡ true)
    was s m f n =
        elim (other_AtFrontier (steps_of t.document)
          (flow env company_id document_id step_id comment actor st t passed sound p).1 t.step
          passed.target.member passed.in_flow passed.step_pending s m f n) [
            | inl h ↦ inl h.1
            | inr h ↦ inr h.1
          ]

    commit_pre_approve-HoldsSettled :
        HoldsSettled company_id document_id (commit_pre_approve env t comment actor p st)
    unfolding commit_pre_approve
    commit_pre_approve-HoldsSettled =
        let skip =
          λ (s : Step). if skips_on_pre_approve s then with_status StepStatus.skipped s else s in
        let d1 = map_document skip (map_document (update_if_id t.step.id mark) t.document) in
        let d = map_document activates_receiver d1 in
        let st1 = update_step t.step.id mark st in
        let e = id_eq env company_id document_id step_id comment actor st t passed sound p in
        (
          complete_document env DocStatus.approved d,
          find_document-finalize_approval env company_id document_id
              (update_steps_of t.document.id skips_on_pre_approve (with_status StepStatus.skipped)
                st1)
              t.document.id e
              (find_document-update_steps_of_at company_id document_id st1
                (marked_found env company_id document_id step_id comment actor st t passed sound p
                  StepStatus.pre_approved)
                t.document.id skips_on_pre_approve (with_status StepStatus.skipped) e),
          (complete_document-fields env DocStatus.approved d).0,
          with_steps (complete_document env DocStatus.approved d)
              (map (λ s. activates_receiver (skipped t.step.id mark keeps s)) (steps_of t.document))
              (SoundSteps DocStatus.approved)
              ((complete_document-fields env DocStatus.approved d).1
                ∙ steps_of-map_document activates_receiver d1
                ∙ ap (map activates_receiver)
                    (steps_of-map_twice skip (update_if_id t.step.id mark) t.document)
                ∙ map-map activates_receiver (skipped t.step.id mark keeps) (steps_of t.document))
              (
                map-HasUniqueIds (λ s. activates_receiver (skipped t.step.id mark keeps s))
                    (after-KeepsPlace activates_receiver (skipped t.step.id mark keeps)
                      activates_receiver-KeepsPlace (skipped-KeepsPlace t.step.id mark keeps))
                    (steps_of t.document)
                    (flow env company_id document_id step_id comment actor st t passed sound
                      p).1.unique_ids,
                each-map IsSettled (λ s. activates_receiver (skipped t.step.id mark keeps s))
                    (steps_of t.document)
                    (λ s m. pre_approved-IsSettled t.step.id mark keeps mark_status s (was s m)),
              ),
        )

  -- A successful pre-approval of a document whose flow is pending leaves it approved, with its step
  -- ids unique, every flow step settled and no receiver waiting.
  pub pre_approve-HoldsSettled :
      {st' : Store} {k : ℕ}
      → HoldsPending company_id document_id k st
      → pre_approve env company_id document_id step_id comment actor st ≡ ok st'
      → HoldsSettled company_id document_id st'
  pre_approve-HoldsSettled {k = k} (d, found, status, pending_at) h =
      let (t, p, passed, written) = pre_approve-HasPassed h in
      let at_k =
        found_same (λ x. PendingFlow k (steps_of x)) found passed.target.found pending_at in
      subst (HoldsSettled company_id document_id) (sym written) (
        commit_pre_approve-HoldsSettled t passed
          (PendingFlow-IsSound t.document passed.document_pending at_k) p)
