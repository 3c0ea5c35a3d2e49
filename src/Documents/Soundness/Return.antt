-- ===== src/Documents/Soundness/Return.antt =====
-- `returnToPrevious`: a sound pending document stays one, with its flow one step further back.
use able_work.Base.{
  ℕ, ◌≡◌, refl, sym, subst, true, false, Option, none, some, map, Memᴰ, arith, nat_eq,
}
use able_work.Access.{JwtPayload}
use able_work.Errors.{Error, ok, err, >>=-eq_ok, guard-eq_ok, ok-injective}
use able_work.Documents.Constants.{doc_status_beq_iff, step_status_beq_iff}
use able_work.Documents.Types.{Text, Step, Document, Store, Env, steps_of}
use able_work.Documents.Store.{find_document, map_document, update_if_id, update_step}
use able_work.Documents.Store.Rows.{steps_of-map_twice, find_document-update_step, found_same}
use able_work.Documents.Helpers.{is_flow}
use able_work.Documents.Support.{ActionTarget, load_action_target, resolve_actor, loaded_steps}
use able_work.Documents.Support.Target.{
  load_action_target-IsTarget, mem-loaded_steps, mem-of_loaded_steps,
}
use able_work.Documents.Progress.{awaits, restored}
use able_work.Documents.Actions.Return.{return_to_previous, commit_return, returned, previous_step}
use able_work.Documents.Flow.{IsSound, HoldsPending, PendingFlow}
use able_work.Documents.Flow.Move.{
  KeepsPlace, update_if_id-KeepsPlace, after-KeepsPlace, with_steps, PendingFlow-IsSound,
}
use able_work.Documents.Flow.Advance.{turn_order}
use able_work.Documents.Flow.Back.{
  IsPrevious, previous_step-IsPrevious, IsPrevious-of_same, return-PendingFlow,
}
use able_work.Documents.Soundness.Reject.{HasPassed, flow}

-- A result that an optional value decides between a failure and a success.
pub some_of_ok :
    {A B : Type 0} (o : Option A) (e : Error) (f : A → B) {b : B}
    → (elim o [ none ↦ err e | some a ↦ ok (f a) ]) ≡ ok b
    → (a : A) × (o ≡ some a) × (b ≡ f a)
some_of_ok none e f h = absurd (cc h)
some_of_ok (some a) e f h = (a, refl, sym (ok-injective _ _ h))

-- From its step of the order `k`, on which the action was, the flow has moved to the last approved step
-- below that one.
pub record Returns (company_id document_id step_id k : ℕ) (st st' : Store) : Type 0 where
  pub document : Document
  pub current : Step
  pub previous : Step
  pub found : find_document company_id document_id st.documents ≡ some document
  pub member : Memᴰ current (steps_of document)
  pub acted_on : current.id ≡ step_id
  pub at_turn : current.step_order ≡ k
  pub is_previous : IsPrevious (steps_of document) current previous
  pub goes_back : HoldsPending company_id document_id previous.step_order st'

module _ (env : Env) (company_id document_id step_id : ℕ) (comment : Option Text)
    (actor : JwtPayload) (st : Store) where
  -- A successful return has passed the checks of a rejection, the setting allows it, and the step
  -- that is reopened is the last approved one below the current.
  pub return_to_previous-HasPassed :
      {st' : Store}
      → return_to_previous env company_id document_id step_id comment actor st ≡ ok st'
      → (t : ActionTarget) × (previous : Step) × HasPassed env company_id document_id step_id
          comment actor st t
        × (env.enable_prev_step_reject ≡ true)
        × (previous_step t.steps t.step ≡ some previous)
        × (st' ≡ commit_return env t previous comment actor st)
  unfolding return_to_previous is_flow
  return_to_previous-HasPassed h =
      let (t, loaded, h1) = >>=-eq_ok (load_action_target st company_id document_id step_id) _ h in
      let (c1, h2) = guard-eq_ok _ _ _ h1 in
      let (c2, h3) = guard-eq_ok _ _ _ h2 in
      let (c3, h4) = guard-eq_ok _ _ _ h3 in
      let (p, resolved, h5) = >>=-eq_ok (resolve_actor env st t.step actor) _ h4 in
      let (c4, h6) = guard-eq_ok _ _ _ h5 in
      let (previous, e, written) =
        some_of_ok (previous_step t.steps t.step) Error.approval_step_no_previous
          (λ v. commit_return env t v comment actor st) h6 in
      (
        t,
        previous,
        record {
          target = load_action_target-IsTarget company_id document_id step_id st loaded;
          document_pending = (doc_status_beq_iff _ _).0 c1;
          in_flow = c2;
          step_pending = (step_status_beq_iff _ _).0 c3;
          allowed = (p, resolved);
        },
        c4,
        e,
        written,
      )

  module _ (t : ActionTarget)
      (passed : HasPassed env company_id document_id step_id comment actor st t)
      (sound : IsSound t.document) (previous : Step)
      (e : previous_step t.steps t.step ≡ some previous) where
    is_previous : IsPrevious (steps_of t.document) t.step previous
    is_previous =
        IsPrevious-of_same (loaded_steps t.document) (steps_of t.document)
          (λ s m. mem-of_loaded_steps t.document m) (λ s m. mem-loaded_steps t.document m)
          (previous_step-IsPrevious (loaded_steps t.document) t.step
            (subst (λ l. previous_step l t.step ≡ some previous) passed.target.loaded e))

    abbrev moved : Step → Step
    moved s = update_if_id previous.id restored (update_if_id t.step.id (returned env comment) s)

    moved-KeepsPlace : KeepsPlace moved
    unfolding returned restored
    moved-KeepsPlace =
        after-KeepsPlace (update_if_id previous.id restored)
          (update_if_id t.step.id (returned env comment))
          (update_if_id-KeepsPlace previous.id restored (λ s. (refl, refl, refl)))
          (update_if_id-KeepsPlace t.step.id (returned env comment) (λ s. (refl, refl, refl)))

    moved-PendingFlow : PendingFlow previous.step_order (map moved (steps_of t.document))
    unfolding returned restored awaits
    moved-PendingFlow =
        return-PendingFlow (steps_of t.document)
          (flow env company_id document_id step_id comment actor st t passed sound false).1 t.step
          passed.target.member passed.in_flow passed.step_pending previous is_previous moved
          moved-KeepsPlace (λ s e n. ground arith) (λ s e. ground arith) (λ s n1 n2. ground arith)

    commit_return-HoldsPending :
        HoldsPending company_id document_id previous.step_order
          (commit_return env t previous comment actor st)
    unfolding commit_return
    commit_return-HoldsPending =
        let d1 = map_document (update_if_id t.step.id (returned env comment)) t.document in
        let d = map_document (update_if_id previous.id restored) d1 in
        (
          d,
          find_document-update_step company_id document_id
              (update_step t.step.id (returned env comment) st)
              (find_document-update_step company_id document_id st passed.target.found t.step.id
                (returned env comment))
              previous.id restored,
          passed.document_pending,
          with_steps d (map moved (steps_of t.document)) (PendingFlow previous.step_order)
              (steps_of-map_twice (update_if_id previous.id restored)
                (update_if_id t.step.id (returned env comment)) t.document)
              moved-PendingFlow,
        )

  -- A successful return of a document whose flow is pending at the order `k` has acted on the step of
  -- that order and leaves the flow pending at the order of the last approved step of the flow below it.
  pub return_to_previous-Returns :
      {st' : Store} {k : ℕ}
      → HoldsPending company_id document_id k st
      → return_to_previous env company_id document_id step_id comment actor st ≡ ok st'
      → Returns company_id document_id step_id k st st'
  return_to_previous-Returns {k = k} (d, found, status, pending_at) h =
      let (t, previous, passed, enabled, e, written) = return_to_previous-HasPassed h in
      let at_k =
        found_same (λ x. PendingFlow k (steps_of x)) found passed.target.found pending_at in
      let sound = PendingFlow-IsSound t.document passed.document_pending at_k in
      record {
        document = t.document;
        current = t.step;
        previous = previous;
        found = passed.target.found;
        member = passed.target.member;
        acted_on = passed.target.step_id_eq;
        at_turn =
            turn_order (steps_of t.document) at_k t.step passed.target.member passed.in_flow
              passed.step_pending;
        is_previous = is_previous t passed sound previous e;
        goes_back =
            subst (HoldsPending company_id document_id previous.step_order) (sym written)
              (commit_return-HoldsPending t passed sound previous e);
      }
