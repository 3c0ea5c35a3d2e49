-- ===== src/Documents/Soundness/Approve.antt =====
-- `approveFlowStep` (approve, agree, deptCollab): what a successful call has checked, what it makes
-- of the document, and that the document stays sound.
use able_work.Base.{
  ℕ, ◌≡◌, ◌≢◌, refl, sym, ap, ◌∙◌, subst, Bool, true, false, inl, inr, Option, none, some, map,
  Memᴰ, arith, ◌==◌, nat_eq, Option-cases, Bool-cases, each-map, if◌then◌else◌,
}
use able_work.Access.{JwtPayload}
use able_work.Errors.{ok, >>=-eq_ok, guard-eq_ok, ok-injective}
use able_work.Documents.Constants.{
  DocStatus, StepRole, StepStatus, doc_status_eq, step_role_eq, step_status_eq, doc_status_beq_iff,
  step_status_beq_iff,
}
use able_work.Documents.Types.{Text, Step, Store, Env, steps_of}
use able_work.Documents.Store.{find_document, map_document, update_if_id, update_step}
use able_work.Documents.Store.Rows.{
  steps_of-map_twice, find_document-update_step, find_document-key, found_same,
}
use able_work.Documents.Helpers.{is_flow}
use able_work.Documents.Support.{ActionTarget, load_action_target, resolve_actor, loaded_steps}
use able_work.Documents.Support.Target.{
  IsTarget, load_action_target-IsTarget, mem-loaded_steps, mem-of_loaded_steps, role_of_includes,
}
use able_work.Documents.Progress.{
  acted, activated, complete_document, finalize_approval, next_step, is_approved, awaits,
}
use able_work.Documents.Actions.Approve.{approve_flow_step, commit_approve}
use able_work.Documents.Flow.{
  PendingFlow, HoldsPending, HoldsSettled, Advances, SoundSteps, IsSettled, is_settled,
}
use able_work.Documents.Soundness.Finalize.{
  find_document-finalize_approval, complete_document-fields,
}
use able_work.Documents.Flow.Move.{
  KeepsPlace, update_if_id-KeepsPlace, after-KeepsPlace, map-HasUniqueIds, with_steps,
}
use able_work.Documents.Flow.Advance.{
  IsNext, next_step-IsNext, next_step-none, advance-PendingFlow, next_later, other_AtFrontier,
  IsNext-of_same,
}
use able_work.Documents.Flow.Close.{
  activates_receiver, activates_receiver-KeepsPlace, activates_receiver-IsSettled,
  is_settled_of_approved,
}

module _ (env : Env) (company_id document_id step_id : ℕ) (comment : Option Text)
    (actor : JwtPayload) (role : StepRole) (st : Store) where
  -- The checks that a successful approval has passed, and the write that it made.
  pub record Approved (st' : Store) (t : ActionTarget) (is_proxy : Bool) : Type 0 where
    pub target : IsTarget company_id document_id step_id st t
    pub document_pending : t.document.status ≡ DocStatus.pending
    pub role_eq : t.step.role ≡ role
    pub step_pending : t.step.status ≡ StepStatus.pending
    pub actor_allowed : resolve_actor env st t.step actor ≡ ok is_proxy
    pub written : st' ≡ commit_approve env company_id t comment actor role is_proxy st

  pub approve_flow_step-Approved :
      {st' : Store}
      → approve_flow_step env company_id document_id step_id comment actor role st ≡ ok st'
      → (t : ActionTarget) × (is_proxy : Bool) × Approved st' t is_proxy
  unfolding approve_flow_step
  approve_flow_step-Approved h =
      let (t, loaded, h1) = >>=-eq_ok (load_action_target st company_id document_id step_id) _ h in
      let (c1, h2) = guard-eq_ok _ _ _ h1 in
      let (c2, h3) = guard-eq_ok _ _ _ h2 in
      let (c3, h4) = guard-eq_ok _ _ _ h3 in
      let (p, resolved, h5) = >>=-eq_ok (resolve_actor env st t.step actor) _ h4 in
      (
        t,
        p,
        record {
          target = load_action_target-IsTarget company_id document_id step_id st loaded;
          document_pending = (doc_status_beq_iff _ _).0 c1;
          role_eq = role_of_includes role t.step.role c2;
          step_pending = (step_status_beq_iff _ _).0 c3;
          actor_allowed = resolved;
          written = sym (ok-injective _ _ h5);
        },
      )

  module _ (t : ActionTarget) (is_proxy : Bool) where
    -- The step as the approval marks it.
    abbrev marked : Step → Step
    marked =
        acted env (if is_proxy then StepStatus.proxy_approved else StepStatus.approved) comment
          is_proxy actor.employee_id

    commit_approve-next :
        (next : Step)
        → next_step t.steps t.step ≡ some next
        → (commit_approve env company_id t comment actor role is_proxy st).documents
          ≡ (update_step next.id activated (update_step t.step.id marked st)).documents
    unfolding commit_approve
    commit_approve-next next e = ground (arith, e)

    -- With a next step, the document's steps are the old ones with two writes.
    abbrev advanced : Step → Step → Step
    advanced next s = update_if_id next.id activated (update_if_id t.step.id marked s)

    advanced-KeepsPlace : (next : Step) → KeepsPlace (advanced next)
    unfolding acted activated
    advanced-KeepsPlace next =
        after-KeepsPlace (update_if_id next.id activated) (update_if_id t.step.id marked)
          (update_if_id-KeepsPlace next.id activated (λ s. (refl, refl, refl)))
          (update_if_id-KeepsPlace t.step.id marked (λ s. (refl, refl, refl)))

    advanced-PendingFlow :
        (next : Step) {k : ℕ}
        → PendingFlow k (steps_of t.document)
        → IsNext (steps_of t.document) t.step next
        → Memᴰ t.step (steps_of t.document)
        → is_flow t.step.role ≡ true
        → t.step.status ≡ StepStatus.pending
        → PendingFlow next.step_order (map (advanced next) (steps_of t.document))
    unfolding acted activated is_approved
    advanced-PendingFlow next h is_next m f p =
        advance-PendingFlow (steps_of t.document) h t.step m f p next is_next (advanced next)
          (advanced-KeepsPlace next) (λ s e n. ground arith) (λ s e. ground arith)
          (λ s n1 n2. ground arith)

    -- Without one, the receivers are activated and the document is approved.
    abbrev finished : Step → Step
    finished s = activates_receiver (update_if_id t.step.id marked s)

    finished-KeepsPlace : KeepsPlace finished
    unfolding acted
    finished-KeepsPlace =
        after-KeepsPlace activates_receiver (update_if_id t.step.id marked)
          activates_receiver-KeepsPlace
          (update_if_id-KeepsPlace t.step.id marked (λ s. (refl, refl, refl)))

    marked_settled : (s : Step) → is_settled (marked s).status ≡ true
    unfolding acted is_settled
    marked_settled s = ground arith

    -- Every other step of the flow was approved before, so all are settled now.
    finished-IsSettled :
        {k : ℕ}
        → PendingFlow k (steps_of t.document)
        → Memᴰ t.step (steps_of t.document)
        → is_flow t.step.role ≡ true
        → t.step.status ≡ StepStatus.pending
        → next_step t.steps t.step ≡ none
        → t.steps ≡ loaded_steps t.document
        → (s : Step) → Memᴰ s (steps_of t.document)
        → IsSettled (finished s)
    finished-IsSettled {k} h m f p e loaded s ms =
        activates_receiver-IsSettled (update_if_id t.step.id marked s) settled
      where
        waits_not : s.id ≢ t.step.id → is_flow s.role ≡ true → awaits s.status ≡ false
        waits_not n =
            next_step-none t.steps t.step e s
              (subst (λ l. Memᴰ s l) (sym loaded) (mem-loaded_steps t.document ms)) n

        settled :
            is_flow (update_if_id t.step.id marked s).role ≡ true
            → is_settled (update_if_id t.step.id marked s).status ≡ true
        settled fs = elim (Bool-cases (s.id == t.step.id)) [
          | inl same ↦ ground (arith, marked_settled s)
          | inr other ↦
              let n : s.id ≢ t.step.id = ground arith in
              let g : is_flow s.role ≡ true = ground arith in
              ground (
                arith,
                other_AtFrontier (steps_of t.document) h t.step m f p s ms g n,
                waits_not n g,
                is_settled_of_approved s.status,
              )
        ]

    commit_approve-final :
        next_step t.steps t.step ≡ none
        → (commit_approve env company_id t comment actor role is_proxy st).documents
          ≡ (finalize_approval env t.document.id (update_step t.step.id marked st)).documents
    unfolding commit_approve
    commit_approve-final e = ground (arith, e)

    module _ (target : IsTarget company_id document_id step_id st t)
        (in_flow : is_flow t.step.role ≡ true) (step_pending : t.step.status ≡ StepStatus.pending)
        {k : ℕ} (at_k : PendingFlow k (steps_of t.document)) where
      marked_found :
          find_document company_id document_id (update_step t.step.id marked st).documents
          ≡ some (map_document (update_if_id t.step.id marked) t.document)
      marked_found =
          find_document-update_step company_id document_id st target.found t.step.id marked

      is_next :
          {next : Step}
          → next_step t.steps t.step ≡ some next
          → IsNext (steps_of t.document) t.step next
      is_next {next} e =
          IsNext-of_same (loaded_steps t.document) (steps_of t.document)
            (λ s m. mem-of_loaded_steps t.document m) (λ s m. mem-loaded_steps t.document m)
            (next_step-IsNext (loaded_steps t.document) t.step
              (subst (λ l. next_step l t.step ≡ some next) target.loaded e))

      commit_approve-HoldsPending :
          (next : Step)
          → t.document.status ≡ DocStatus.pending
          → next_step t.steps t.step ≡ some next
          → HoldsPending company_id document_id next.step_order
              (commit_approve env company_id t comment actor role is_proxy st)
      commit_approve-HoldsPending next status e =
          let d =
            map_document (update_if_id next.id activated)
              (map_document (update_if_id t.step.id marked) t.document) in
          (
            d,
            ap (find_document company_id document_id) (commit_approve-next next e)
                ∙ find_document-update_step company_id document_id (update_step t.step.id marked st)
                    marked_found next.id activated,
            status,
            with_steps d (map (advanced next) (steps_of t.document)) (PendingFlow next.step_order)
                (steps_of-map_twice (update_if_id next.id activated) (update_if_id t.step.id marked)
                  t.document)
                (advanced-PendingFlow next at_k (is_next e) target.member in_flow step_pending),
          )

      commit_approve-HoldsSettled :
          next_step t.steps t.step ≡ none
          → HoldsSettled company_id document_id
              (commit_approve env company_id t comment actor role is_proxy st)
      commit_approve-HoldsSettled e =
          let d = complete_document env DocStatus.approved (
            map_document activates_receiver
              (map_document (update_if_id t.step.id marked) t.document)) in
          (
            d,
            ap (find_document company_id document_id) (commit_approve-final e)
                ∙ find_document-finalize_approval env company_id document_id
                    (update_step t.step.id marked st) t.document.id
                    (find_document-key company_id document_id st.documents target.found).1
                    marked_found,
            (complete_document-fields env DocStatus.approved _).0,
            with_steps d (map finished (steps_of t.document)) (SoundSteps DocStatus.approved)
                ((complete_document-fields env DocStatus.approved _).1
                  ∙ steps_of-map_twice activates_receiver (update_if_id t.step.id marked)
                      t.document)
                (
                  map-HasUniqueIds finished finished-KeepsPlace (steps_of t.document)
                      at_k.unique_ids,
                  each-map IsSettled finished (steps_of t.document)
                      (finished-IsSettled at_k target.member in_flow step_pending e target.loaded),
                ),
          )

      commit_approve-Advances :
          t.document.status ≡ DocStatus.pending
          → Advances company_id document_id k
              (commit_approve env company_id t comment actor role is_proxy st)
      commit_approve-Advances status = elim (Option-cases (next_step t.steps t.step)) [
        | inl e ↦ inr (commit_approve-HoldsSettled e)
        | inr (next, e) ↦ inl (
          next.step_order,
          next_later (steps_of t.document) at_k t.step target.member in_flow step_pending next
              (is_next e),
          commit_approve-HoldsPending next status e,
        )
      ]

  -- A successful approval, agreement or department's collaboration of a flow step, on a document whose
  -- flow is pending at the order `k`, leaves its flow pending at a later order, or the document
  -- approved with its flow settled and no receiver waiting.
  pub approve_flow_step-Advances :
      {st' : Store} {k : ℕ}
      → is_flow role ≡ true
      → HoldsPending company_id document_id k st
      → approve_flow_step env company_id document_id step_id comment actor role st ≡ ok st'
      → Advances company_id document_id k st'
  approve_flow_step-Advances {k = k} f (d, found, status, pending_at) h =
      let (t, p, a) = approve_flow_step-Approved h in
      let at_k = found_same (λ x. PendingFlow k (steps_of x)) found a.target.found pending_at in
      subst (Advances company_id document_id k) (sym a.written) (
        commit_approve-Advances t p a.target (ap is_flow a.role_eq ∙ f) a.step_pending at_k
          a.document_pending)
