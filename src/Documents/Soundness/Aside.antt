-- ===== src/Documents/Soundness/Aside.antt =====
-- `view`, `receive` and `bounce`: what a receipt and a bounce mark, and that a view leaves a sound document
-- sound.
use able_work.Base.{
  ℕ, ◌≡◌, ◌≢◌, refl, sym, ap, subst, Bool, true, false, inl, inr, Option, some, none, List,
  if◌then◌else◌, ◌∙◌, map, Memᴰ, arith, Bool-cases, ◌==◌, nat_eq, nat_beq_iff, includes, [], ◌∷◌,
}
use able_work.Access.{JwtPayload}
use able_work.Errors.{ok, >>=-eq_ok, guard-eq_ok, ok-injective}
use able_work.Documents.Constants.{
  DocStatus, StepRole, StepStatus, HistoryAction, doc_status_eq, step_role_eq, step_status_eq,
  receiver_roles, doc_status_beq_iff, step_status_beq_iff,
}
use able_work.Documents.Types.{Text, Step, Document, Event, Store, Env, steps_of}
use able_work.Documents.Store.{find_document, map_document, update_if_id, emit}
use able_work.Documents.Store.Rows.{steps_of-map_document, find_document-update_step, found_same}
use able_work.Documents.Helpers.{is_flow}
use able_work.Documents.Support.{ActionTarget, load_action_target, resolve_actor}
use able_work.Documents.Support.Target.{IsTarget, load_action_target-IsTarget}
use able_work.Documents.Progress.{acted}
use able_work.Documents.Actions.Receive.{view, receive, bounce, commit_mark}
use able_work.Documents.Flow.{IsSound, HoldsSound}
use able_work.Documents.Flow.Move.{KeepsPlace, update_if_id-KeepsPlace, IsSound-of}
use able_work.Documents.Flow.Aside.{LeavesFlow, unique_ids_of, SoundSteps-aside}

-- The marks `VIEWED`, `RECEIVED` and `BOUNCED` end a step.
abbrev Ends : StepStatus → Type 0
Ends status = (status ≢ StepStatus.waiting) × (status ≢ StepStatus.pending)

-- An action has ended a pending step of an approved document that has one of the roles: the step has
-- the status, the comment, the instant and perhaps the proxy, and all else in the document is as it was.
pub record Marks (roles : List StepRole) (status : StepStatus) (env : Env)
    (company_id document_id step_id : ℕ) (comment : Option Text) (actor : JwtPayload)
    (st st' : Store) : Type 0 where
  pub document : Document
  pub step : Step
  pub is_proxy : Bool
  pub found : find_document company_id document_id st.documents ≡ some document
  pub was_approved : document.status ≡ DocStatus.approved
  pub member : Memᴰ step (steps_of document)
  pub acted_on : step.id ≡ step_id
  pub has_role : includes roles step.role ≡ true
  pub was_pending : step.status ≡ StepStatus.pending
  pub allowed : resolve_actor env st step actor ≡ ok is_proxy
  pub left :
      find_document company_id document_id st'.documents
      ≡ some (
          map_document
            (λ s.
              if s.id == step_id
              then record s {
                status = status;
                comment = comment;
                acted_at = some env.now;
                is_proxy = is_proxy;
                proxy_id = if is_proxy then some actor.employee_id else none;
              }
              else s)
            document)

reader_not_flow :
    (role : StepRole)
    → includes (StepRole.reference ∷ StepRole.viewer ∷ []) role ≡ true
    → is_flow role ≡ false
unfolding is_flow includes
reader_not_flow role h = ground arith

module _ (env : Env) (company_id document_id step_id : ℕ) (comment : Option Text)
    (actor : JwtPayload) (st : Store) where
  -- A step outside the flow that is ended leaves the document sound.
  module _ (t : ActionTarget) (target : IsTarget company_id document_id step_id st t)
      (aside : is_flow t.step.role ≡ false) (status : StepStatus) (ends : Ends status)
      (is_proxy : Bool) where
    abbrev mark : Step → Step
    mark = acted env status comment is_proxy actor.employee_id

    mark-KeepsPlace : KeepsPlace (update_if_id t.step.id mark)
    unfolding acted
    mark-KeepsPlace = update_if_id-KeepsPlace t.step.id mark (λ s. (refl, refl, refl))

    mark_status : (s : Step) → (mark s).status ≡ status
    unfolding acted
    mark_status s = refl

    mark-LeavesFlow :
        IsSound t.document
        → (s : Step) → Memᴰ s (steps_of t.document)
        → LeavesFlow (update_if_id t.step.id mark) s
    mark-LeavesFlow sound s m = elim (Bool-cases (s.id == t.step.id)) [
      | inr n ↦ (λ f. ground arith, λ r. inl (ground arith))
      | inl e ↦
          let same =
            unique_ids_of t.document.status (steps_of t.document) sound s t.step m target.member
              ((nat_beq_iff _ _).0 e) in
          (
            λ f. absurd (cc (f, aside, ap (λ (x : Step). is_flow x.role) same)),
            λ r. inr (ground (arith, mark_status s, ends.0), ground (arith, mark_status s, ends.1)),
          )
    ]

    commit_mark-HoldsSound :
        (action : HistoryAction)
        → IsSound t.document
        → HoldsSound company_id document_id
            (commit_mark env t status action comment actor is_proxy st)
    unfolding commit_mark
    commit_mark-HoldsSound action sound =
        let d = map_document (update_if_id t.step.id mark) t.document in
        (
          d,
          find_document-update_step company_id document_id st target.found t.step.id mark,
          IsSound-of d t.document.status (map (update_if_id t.step.id mark) (steps_of t.document))
              refl (steps_of-map_document (update_if_id t.step.id mark) t.document)
              (SoundSteps-aside (update_if_id t.step.id mark) mark-KeepsPlace (steps_of t.document)
                (mark-LeavesFlow sound) t.document.status sound),
        )

  -- A successful view of a sound document, in any status, leaves it sound.
  pub view-HoldsSound :
      {st' : Store}
      → HoldsSound company_id document_id st
      → view env company_id document_id step_id comment actor st ≡ ok st'
      → HoldsSound company_id document_id st'
  unfolding view
  view-HoldsSound (d, found, sound) h =
      let (t, loaded, h1) = >>=-eq_ok (load_action_target st company_id document_id step_id) _ h in
      let (c1, h2) = guard-eq_ok _ _ _ h1 in
      let (c2, h3) = guard-eq_ok _ _ _ h2 in
      let (p, resolved, h4) = >>=-eq_ok (resolve_actor env st t.step actor) _ h3 in
      let target = load_action_target-IsTarget company_id document_id step_id st loaded in
      subst (HoldsSound company_id document_id) (ok-injective _ _ h4) (
        commit_mark-HoldsSound t target (reader_not_flow t.step.role c1) StepStatus.viewed
          (ground arith, ground arith) p HistoryAction.view
          (found_same IsSound found target.found sound))

  -- The checks that a receipt and a bounce share.
  record HasPassed (roles : List StepRole) (t : ActionTarget) (p : Bool) : Type 0 where
    pub target : IsTarget company_id document_id step_id st t
    pub in_role : includes roles t.step.role ≡ true
    pub was_approved : t.document.status ≡ DocStatus.approved
    pub was_pending : t.step.status ≡ StepStatus.pending
    pub allowed : resolve_actor env st t.step actor ≡ ok p

  -- A step outside the flow that is marked after these checks.
  module _ (roles : List StepRole) (t : ActionTarget) (p : Bool) (passed : HasPassed roles t p)
      (status : StepStatus) (action : HistoryAction) where
    commit_mark-Marks :
        Marks roles status env company_id document_id step_id comment actor st
          (commit_mark env t status action comment actor p st)
    unfolding commit_mark acted
    commit_mark-Marks = record {
      document = t.document;
      step = t.step;
      is_proxy = p;
      found = passed.target.found;
      was_approved = passed.was_approved;
      member = passed.target.member;
      acted_on = passed.target.step_id_eq;
      has_role = passed.in_role;
      was_pending = passed.was_pending;
      allowed = passed.allowed;
      left =
          find_document-update_step company_id document_id st passed.target.found t.step.id
            (acted env status comment p actor.employee_id)
          ∙ ap
              (λ i. some (
                map_document (update_if_id i (acted env status comment p actor.employee_id))
                  t.document))
              passed.target.step_id_eq;
    }

  receive-HasPassed :
      {st' : Store}
      → receive env company_id document_id step_id comment actor st ≡ ok st'
      → (t : ActionTarget) × (p : Bool) × HasPassed receiver_roles t p
        × (st' ≡ commit_mark env t StepStatus.received HistoryAction.receive comment actor p st)
  unfolding receive
  receive-HasPassed h =
      let (t, loaded, h1) = >>=-eq_ok (load_action_target st company_id document_id step_id) _ h in
      let (c1, h2) = guard-eq_ok (includes receiver_roles t.step.role) _ _ h1 in
      let (c2, h3) = guard-eq_ok (t.document.status == DocStatus.approved) _ _ h2 in
      let (c3, h4) = guard-eq_ok (t.step.status == StepStatus.pending) _ _ h3 in
      let (p, resolved, h5) = >>=-eq_ok (resolve_actor env st t.step actor) _ h4 in
      (
        t,
        p,
        record {
          target = load_action_target-IsTarget company_id document_id step_id st loaded;
          in_role = c1;
          was_approved = (doc_status_beq_iff _ _).0 c2;
          was_pending = (step_status_beq_iff _ _).0 c3;
          allowed = resolved;
        },
        sym (ok-injective _ _ h5),
      )

  -- A successful receipt has found a pending receiver's step of an approved document, on which the
  -- actor may act, and leaves the step received and all else in the document as it was.
  pub receive-Marks :
      {st' : Store}
      → receive env company_id document_id step_id comment actor st ≡ ok st'
      → Marks receiver_roles StepStatus.received env company_id document_id step_id comment actor st
          st'
  receive-Marks h =
      let (t, p, passed, written) = receive-HasPassed h in
      subst
        (Marks receiver_roles StepStatus.received env company_id document_id step_id comment actor
          st)
        (sym written)
        (commit_mark-Marks receiver_roles t p passed StepStatus.received HistoryAction.receive)

  bounce-HasPassed :
      {st' : Store}
      → bounce env company_id document_id step_id comment actor st ≡ ok st'
      → (t : ActionTarget) × (p : Bool) × HasPassed (StepRole.dept_receiver ∷ []) t p
        × (st'
            ≡ emit
                (Event.document_bounced t.document.id t.document.drafter_id)
                (commit_mark env t StepStatus.bounced HistoryAction.bounce comment actor p st))
  unfolding bounce
  bounce-HasPassed h =
      let (t, loaded, h1) = >>=-eq_ok (load_action_target st company_id document_id step_id) _ h in
      let (c1, h2) = guard-eq_ok (includes (StepRole.dept_receiver ∷ []) t.step.role) _ _ h1 in
      let (c2, h3) = guard-eq_ok (t.document.status == DocStatus.approved) _ _ h2 in
      let (c3, h4) = guard-eq_ok (t.step.status == StepStatus.pending) _ _ h3 in
      let (p, resolved, h5) = >>=-eq_ok (resolve_actor env st t.step actor) _ h4 in
      (
        t,
        p,
        record {
          target = load_action_target-IsTarget company_id document_id step_id st loaded;
          in_role = c1;
          was_approved = (doc_status_beq_iff _ _).0 c2;
          was_pending = (step_status_beq_iff _ _).0 c3;
          allowed = resolved;
        },
        sym (ok-injective _ _ h5),
      )

  emit-Marks :
      (roles : List StepRole) (status : StepStatus) (event : Event) {st' : Store}
      → Marks roles status env company_id document_id step_id comment actor st st'
      → Marks roles status env company_id document_id step_id comment actor st (emit event st')
  unfolding emit
  emit-Marks roles status event m = record {
    document = m.document;
    step = m.step;
    is_proxy = m.is_proxy;
    found = m.found;
    was_approved = m.was_approved;
    member = m.member;
    acted_on = m.acted_on;
    has_role = m.has_role;
    was_pending = m.was_pending;
    allowed = m.allowed;
    left = m.left;
  }

  -- A successful bounce has found a pending receiving department's step of an approved document, on
  -- which the actor may act, and leaves the step bounced and all else in the document as it was.
  pub bounce-Marks :
      {st' : Store}
      → bounce env company_id document_id step_id comment actor st ≡ ok st'
      → Marks
          (StepRole.dept_receiver ∷ [])
          StepStatus.bounced
          env
          company_id
          document_id
          step_id
          comment
          actor
          st
          st'
  bounce-Marks h =
      let (t, p, passed, written) = bounce-HasPassed h in
      let roles = StepRole.dept_receiver ∷ [] in
      subst (Marks roles StepStatus.bounced env company_id document_id step_id comment actor st)
        (sym written)
        (emit-Marks roles StepStatus.bounced
          (Event.document_bounced t.document.id t.document.drafter_id)
          (commit_mark-Marks roles t p passed StepStatus.bounced HistoryAction.bounce))
