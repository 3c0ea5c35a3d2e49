-- ===== src/Documents/Soundness/Cancel.antt =====
-- `cancelApproval`: a sound pending document stays one, with the cancelled step's turn again.
use able_work.Base.{
  ℕ, ◌<◌, ◌≡◌, refl, sym, ap, ◌∙◌, subst, Bool, true, false, not, inl, inr, Option, some, map, Memᴰ,
  arith, nat_eq, Option-cases,
}
use able_work.Access.{JwtPayload}
use able_work.Errors.{ok, >>=-eq_ok, guard-eq_ok, ok-injective}
use able_work.Documents.Constants.{DocStatus, StepStatus, doc_status_beq_iff}
use able_work.Documents.Types.{Text, Step, Document, Store, steps_of}
use able_work.Documents.Store.{find_document, map_document, update_if_id, update_step}
use able_work.Documents.Store.Rows.{steps_of-map_twice, find_document-update_step, found_same}
use able_work.Documents.Helpers.{is_flow}
use able_work.Documents.Support.{ActionTarget, load_action_target}
use able_work.Documents.Support.Target.{
  IsTarget, load_action_target-IsTarget, mem-loaded_steps, mem-of_loaded_steps,
}
use able_work.Documents.Progress.{awaits, is_approved, is_open, restored, with_status}
use able_work.Documents.Actions.Return.{
  cancel_approval, commit_cancel, is_own_action, has_acted_later, current_pending_next,
}
use able_work.Documents.Flow.{IsSound, HoldsPending, PendingFlow}
use able_work.Documents.Flow.Move.{
  KeepsPlace, update_if_id-KeepsPlace, after-KeepsPlace, with_steps, PendingFlow-IsSound,
  pending_flow,
}
use able_work.Documents.Flow.Reopen.{
  IsHeld, later_open, current_pending_next-IsHeld, current_pending_next-none, approved_below_turn,
  cancel-PendingFlow,
}

-- Only steps of the flow are approved in the document.
abbrev pub ApprovesInFlow : ℕ → ℕ → Store → Type 0
ApprovesInFlow company_id document_id st =
    (d : Document)
    → find_document company_id document_id st.documents ≡ some d
    → (s : Step) → Memᴰ s (steps_of d)
    → is_approved s.status ≡ true
    → is_flow s.role ≡ true

-- From the order `k` the flow has moved back to the step whose approval was cancelled.
pub record Reopens (company_id document_id step_id k : ℕ) (st st' : Store) : Type 0 where
  pub document : Document
  pub cancelled : Step
  pub found : find_document company_id document_id st.documents ≡ some document
  pub member : Memᴰ cancelled (steps_of document)
  pub acted_on : cancelled.id ≡ step_id
  pub was_approved : is_approved cancelled.status ≡ true
  pub earlier : cancelled.step_order < k
  pub reopened : HoldsPending company_id document_id cancelled.step_order st'

module _ (company_id document_id step_id : ℕ) (comment : Option Text) (actor : JwtPayload)
    (st : Store) where
  -- The checks that a successful cancelling has passed.
  pub record MayCancel (t : ActionTarget) : Type 0 where
    pub target : IsTarget company_id document_id step_id st t
    pub document_pending : t.document.status ≡ DocStatus.pending
    pub step_approved : is_approved t.step.status ≡ true
    pub own : is_own_action t.step actor ≡ true
    pub none_later : has_acted_later t.steps t.step ≡ false

  false_of_negated : (b : Bool) → not b ≡ true → b ≡ false
  false_of_negated b h = ground arith

  pub cancel_approval-MayCancel :
      {st' : Store}
      → cancel_approval company_id document_id step_id comment actor st ≡ ok st'
      → (t : ActionTarget) × MayCancel t × (st' ≡ commit_cancel t comment actor st)
  unfolding cancel_approval
  cancel_approval-MayCancel h =
      let (t, loaded, h1) = >>=-eq_ok (load_action_target st company_id document_id step_id) _ h in
      let (c1, h2) = guard-eq_ok _ _ _ h1 in
      let (c2, h3) = guard-eq_ok _ _ _ h2 in
      let (c3, h4) = guard-eq_ok _ _ _ h3 in
      let (c4, h5) = guard-eq_ok _ _ _ h4 in
      (
        t,
        record {
          target = load_action_target-IsTarget company_id document_id step_id st loaded;
          document_pending = (doc_status_beq_iff _ _).0 c1;
          step_approved = c2;
          own = c3;
          none_later = false_of_negated _ c4;
        },
        sym (ok-injective _ _ h5),
      )

  module _ (t : ActionTarget) (may : MayCancel t) (in_flow : is_flow t.step.role ≡ true)
      (sound : IsSound t.document) where
    turn : (k : ℕ) × PendingFlow k (steps_of t.document)
    turn = pending_flow t.document may.document_pending sound

    opens :
        (s : Step)
        → Memᴰ s (steps_of t.document)
        → is_flow s.role ≡ true
        → t.step.step_order < s.step_order
        → is_open s.status ≡ true
    opens s m =
        later_open t.steps t.step may.none_later s
          (subst (λ l. Memᴰ s l) (sym may.target.loaded) (mem-loaded_steps t.document m))

    loaded_in : (s : Step) → Memᴰ s t.steps → Memᴰ s (steps_of t.document)
    loaded_in s m = mem-of_loaded_steps t.document (subst (λ l. Memᴰ s l) may.target.loaded m)

    is_held :
        {held : Step}
        → current_pending_next t.steps t.step ≡ some held
        → IsHeld (steps_of t.document) t.step held
    is_held {held} e =
        let h = current_pending_next-IsHeld t.steps t.step e in
        record {
          member = loaded_in held h.member;
          in_flow = h.in_flow;
          behind = h.behind;
          step_pending = h.step_pending;
        }

    -- The step whose turn it was is held.
    held_exists : (held : Step) × (current_pending_next t.steps t.step ≡ some held)
    held_exists = elim (Option-cases (current_pending_next t.steps t.step)) [
      | inr found ↦ found
      | inl e ↦
          let (c, mc, fc, order) = turn.1.current in
          absurd (
            current_pending_next-none t.steps t.step e c
              (subst (λ l. Memᴰ c l) (sym may.target.loaded) (mem-loaded_steps t.document mc)) fc
              (subst (λ n. t.step.step_order < n) (sym order)
                (approved_below_turn (steps_of t.document) turn.1 t.step may.target.member in_flow
                  may.step_approved opens))
              ((turn.1.frontier c mc fc).1 order))
    ]

    module _ (held : Step) (e : current_pending_next t.steps t.step ≡ some held) where
      abbrev hold : Step → Step
      hold = with_status StepStatus.waiting

      abbrev moved : Step → Step
      moved s = update_if_id held.id hold (update_if_id t.step.id restored s)

      moved-KeepsPlace : KeepsPlace moved
      unfolding restored
      moved-KeepsPlace =
          after-KeepsPlace (update_if_id held.id hold) (update_if_id t.step.id restored)
            (update_if_id-KeepsPlace held.id hold (λ s. (refl, refl, refl)))
            (update_if_id-KeepsPlace t.step.id restored (λ s. (refl, refl, refl)))

      moved-PendingFlow : PendingFlow t.step.step_order (map moved (steps_of t.document))
      unfolding restored awaits
      moved-PendingFlow =
          cancel-PendingFlow (steps_of t.document) turn.1 t.step may.target.member in_flow
            may.step_approved opens held (is_held e) moved moved-KeepsPlace
            (λ s same n. ground arith) (λ s same. ground arith) (λ s n1 n2. ground arith)

      commit_cancel-documents :
          (commit_cancel t comment actor st).documents
          ≡ (update_step held.id hold (update_step t.step.id restored st)).documents
      unfolding commit_cancel
      commit_cancel-documents = ground (arith, e)

      commit_cancel-HoldsPending :
          HoldsPending company_id document_id t.step.step_order (commit_cancel t comment actor st)
      commit_cancel-HoldsPending =
          let d1 = map_document (update_if_id t.step.id restored) t.document in
          let d = map_document (update_if_id held.id hold) d1 in
          (
            d,
            ap (find_document company_id document_id) commit_cancel-documents
                ∙ find_document-update_step company_id document_id
                    (update_step t.step.id restored st)
                    (find_document-update_step company_id document_id st may.target.found t.step.id
                      restored)
                    held.id hold,
            may.document_pending,
            with_steps d (map moved (steps_of t.document)) (PendingFlow t.step.step_order)
                (steps_of-map_twice (update_if_id held.id hold) (update_if_id t.step.id restored)
                  t.document)
                moved-PendingFlow,
          )

  -- When only flow steps of a document are approved, and its flow is pending at the order `k`, a
  -- successful cancelling has acted on an approved step of an earlier order and leaves the flow pending
  -- at the order of that step.
  pub cancel_approval-Reopens :
      {st' : Store} {k : ℕ}
      → ApprovesInFlow company_id document_id st
      → HoldsPending company_id document_id k st
      → cancel_approval company_id document_id step_id comment actor st ≡ ok st'
      → Reopens company_id document_id step_id k st st'
  cancel_approval-Reopens {k = k} in_flow (d, found, status, pending_at) h =
      let (t, may, written) = cancel_approval-MayCancel h in
      let f = in_flow t.document may.target.found t.step may.target.member may.step_approved in
      let at_k = found_same (λ x. PendingFlow k (steps_of x)) found may.target.found pending_at in
      let s = PendingFlow-IsSound t.document may.document_pending at_k in
      let (held, e) = held_exists t may f s in
      record {
        document = t.document;
        cancelled = t.step;
        found = may.target.found;
        member = may.target.member;
        acted_on = may.target.step_id_eq;
        was_approved = may.step_approved;
        earlier =
            approved_below_turn (steps_of t.document) at_k t.step may.target.member f
              may.step_approved (opens t may f s);
        reopened =
            subst (HoldsPending company_id document_id t.step.step_order) (sym written)
              (commit_cancel-HoldsPending t may f s held e);
      }
