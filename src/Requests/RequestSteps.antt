-- ===== src/Requests/RequestSteps.antt =====
-- requests.service.ts and request-approval.service.ts: the operations on requests in any order.
use able_work.Base.{ℕ, Option, none, some, ◌≡◌, sym, ap, subst, find, ◌==◌, nat_eq, ◌&&◌}
use able_work.Access.{JwtPayload}
use able_work.Errors.{
  ok, Error, Holds, Holds-ok, Holds-bind, Holds-then, Holds-guard, Holds-if, Holds-imp, Holds-eq_ok,
  Holds-option,
}
use able_work.Documents.Constants.{DocStatus}
use able_work.Leaves.Groups.{found_or}
use able_work.Leaves.Types.{Employee}
use able_work.Requests.Types.{
  Payload, Request, RequestStatus, ApprovalStatus, ApprovalRule, Store, Env,
}
use able_work.Requests.Approval.{
  load_request_in_company, assert_request_pending, assert_is_approver, add_approval,
  set_request_status, finish_approval, finish_rejection, approve, reject, force_approve,
  force_reject, set_document_status, is_super_admin,
}
use able_work.Requests.Service.{
  cancel, update_request, CreateRequest, create_request, add_request, submit_request,
  validate_payload, applicable_rule, set_document_content, form_of, new_request, add_document,
  is_auto,
}
use able_work.Requests.Line.{line_steps}
use able_work.Requests.Frame.{
  finish_approval-SameRequests, SameRequests, set_document_status-SameRequests,
  apply_approved_request-SameRequests,
}
use able_work.Requests.Distinct.{NoRepeat, approve-NoRepeat}
use able_work.Requests.Passed.{round_of}

-- One call that succeeds.
pub data RequestStep (env : Env) : Store → Store → Type 0 where
  created :
      (c : ℕ) (dto : CreateRequest) (who : JwtPayload) (st st' : Store)
      → create_request env c dto who st ≡ ok st'
      → RequestStep env st st'
  edited :
      (c id : ℕ) (payload : Payload) (who : JwtPayload) (st st' : Store)
      → update_request env c id payload who st ≡ ok st'
      → RequestStep env st st'
  cancelled :
      (c id : ℕ) (who : JwtPayload) (st st' : Store)
      → cancel c id who st ≡ ok st'
      → RequestStep env st st'
  approved :
      (c id : ℕ) (who : JwtPayload) (st st' : Store)
      → approve env c id who st ≡ ok st'
      → RequestStep env st st'
  rejected :
      (c id : ℕ) (who : JwtPayload) (st st' : Store)
      → reject c id who st ≡ ok st'
      → RequestStep env st st'
  forced :
      (c id : ℕ) (who : JwtPayload) (st st' : Store)
      → force_approve env c id who st ≡ ok st'
      → RequestStep env st st'
  refused :
      (c id : ℕ) (who : JwtPayload) (st st' : Store)
      → force_reject c id who st ≡ ok st'
      → RequestStep env st st'

pub data RequestSteps (env : Env) : Store → Store → Type 0 where
  done : (st : Store) → RequestSteps env st st
  step :
      (st st' st'' : Store)
      → RequestStep env st st'
      → RequestSteps env st' st''
      → RequestSteps env st st''

abbrev Distinct : Store → Type 0
Distinct st = NoRepeat st.approvals

-- A rejection and the forced decisions are no approvals of a round.
add_approval-Distinct :
    (id round who : ℕ) (status : ApprovalStatus) (st : Store)
    → (status ≡ ApprovalStatus.approved → ApprovalStatus.rejected ≡ ApprovalStatus.approved)
    → Distinct st
    → Distinct (add_approval id round who status st)
unfolding add_approval
add_approval-Distinct id round who status st other h = (λ e. let bad = other e in cc, h)

set_document_status-Distinct :
    (document_id : Option ℕ) (status : DocStatus) (st : Store)
    → Distinct st
    → Distinct (set_document_status document_id status st)
set_document_status-Distinct d status st h =
    subst NoRepeat (sym (ap (λ r. r.0) (set_document_status-SameRequests d status st))) h

finish_approval-Distinct :
    (env : Env) (c : ℕ) (request : Request) (st : Store)
    → Distinct st
    → Holds Distinct (finish_approval env c request st)
unfolding set_request_status
finish_approval-Distinct env c request st h =
    Holds-imp (SameRequests (set_request_status request.id RequestStatus.approved st)) Distinct _
      (λ st' same. subst NoRepeat (sym (ap (λ r. r.0) same)) h)
      (finish_approval-SameRequests env c request st)

finish_rejection-Distinct :
    (request : Request) (st : Store) → Distinct st → Distinct (finish_rejection request st)
unfolding finish_rejection set_request_status
finish_rejection-Distinct request st h =
    set_document_status-Distinct request.document_id DocStatus.rejected _ h

reject-Distinct :
    (c id : ℕ) (who : JwtPayload) (st : Store) → Distinct st → Holds Distinct (reject c id who st)
unfolding reject
reject-Distinct c id who st h =
    Holds-bind Distinct (load_request_in_company c id st) _ (λ request _.
      Holds-then Distinct (assert_request_pending request) _ (λ _.
        Holds-then Distinct (assert_is_approver request who st) _ (λ _. Holds-ok Distinct _ (
          finish_rejection-Distinct request _ (
            add_approval-Distinct id (round_of c id request st) who.employee_id
              ApprovalStatus.rejected st (λ e. e) h)))))

force_approve-Distinct :
    (env : Env) (c id : ℕ) (who : JwtPayload) (st : Store)
    → Distinct st
    → Holds Distinct (force_approve env c id who st)
unfolding force_approve
force_approve-Distinct env c id who st h =
    Holds-guard Distinct (is_super_admin who.access_level) _ _ (λ _.
      Holds-bind Distinct (load_request_in_company c id st) _ (λ request _.
        Holds-then Distinct (assert_request_pending request) _ (λ _.
          finish_approval-Distinct env c request _ (
            add_approval-Distinct id 0 who.employee_id ApprovalStatus.force_approved st (λ e. cc)
              h))))

force_reject-Distinct :
    (c id : ℕ) (who : JwtPayload) (st : Store)
    → Distinct st
    → Holds Distinct (force_reject c id who st)
unfolding force_reject
force_reject-Distinct c id who st h =
    Holds-guard Distinct (is_super_admin who.access_level) _ _ (λ _.
      Holds-bind Distinct (load_request_in_company c id st) _ (λ request _.
        Holds-then Distinct (assert_request_pending request) _ (λ _. Holds-ok Distinct _ (
          finish_rejection-Distinct request _ (
            add_approval-Distinct id 0 who.employee_id ApprovalStatus.force_rejected st (λ e. cc)
              h)))))

cancel-Distinct :
    (c id : ℕ) (who : JwtPayload) (st : Store) → Distinct st → Holds Distinct (cancel c id who st)
unfolding cancel set_request_status
cancel-Distinct c id who st h =
    Holds-bind Distinct (load_request_in_company c id st) _ (λ request _.
      Holds-guard Distinct (request.requester_id == who.employee_id) _ _ (λ _.
        Holds-then Distinct (assert_request_pending request) _ (λ _.
          Holds-ok Distinct _
            (set_document_status-Distinct request.document_id DocStatus.cancelled _ h))))

set_document_content-Distinct :
    (document_id : Option ℕ) (payload : Payload) (st : Store)
    → Distinct st
    → Distinct (set_document_content document_id payload st)
unfolding set_document_content
set_document_content-Distinct none payload st h = h
set_document_content-Distinct (some d) payload st h = h

update_request-Distinct :
    (env : Env) (c id : ℕ) (payload : Payload) (who : JwtPayload) (st : Store)
    → Distinct st
    → Holds Distinct (update_request env c id payload who st)
unfolding update_request
update_request-Distinct env c id payload who st h =
    Holds-bind Distinct (load_request_in_company c id st) _ (λ request _.
      Holds-guard Distinct (request.requester_id == who.employee_id) _ _ (λ _.
        Holds-then Distinct (assert_request_pending request) _ (λ _.
          Holds-then Distinct
            (validate_payload env c who.employee_id request.request_type payload st) _
            (λ _.
              Holds-ok Distinct _
                (set_document_content-Distinct request.document_id payload _ h)))))

submit_request-Distinct :
    (c : ℕ) (request : Request) (rule : Option ApprovalRule) (st : Store)
    → Distinct st
    → Holds Distinct (submit_request c request rule st)
unfolding submit_request add_document
submit_request-Distinct c request rule st h =
    Holds-option Distinct (form_of c request st) _ _ (λ _. Holds-ok Distinct st h)
      (λ form _.
        Holds-bind Distinct (line_steps c request.requester_id rule st) _
          (λ steps _. Holds-ok Distinct _ h))

create_request-Distinct :
    (env : Env) (c : ℕ) (dto : CreateRequest) (who : JwtPayload) (st : Store)
    → Distinct st
    → Holds Distinct (create_request env c dto who st)
unfolding create_request add_request set_request_status
create_request-Distinct env c dto who st h =
    Holds-then Distinct (validate_payload env c who.employee_id dto.request_type dto.payload st) _
      (λ _.
        Holds-bind Distinct
          (found_or
            (find (λ (e : Employee). e.id == who.employee_id && e.company_id == c)
              st.leave.employees)
            Error.employee_not_found)
          _
          (λ employee _.
            let rule = applicable_rule c dto employee st in
            let request = new_request c dto who rule st in
            Holds-if Distinct (is_auto rule) _ _
              (λ _.
                Holds-imp
                  (SameRequests
                    (set_request_status request.id RequestStatus.approved (add_request request st)))
                  Distinct _ (λ st' same. subst NoRepeat (sym (ap (λ r. r.0) same)) h)
                  (apply_approved_request-SameRequests env c request _))
              (λ _. submit_request-Distinct c request rule (add_request request st) h)))

step-Distinct : (env : Env) {st st' : Store} → RequestStep env st st' → Distinct st → Distinct st'
step-Distinct env (RequestStep.created c dto who st st' e) h =
    Holds-eq_ok Distinct _ e (create_request-Distinct env c dto who st h)
step-Distinct env (RequestStep.edited c id payload who st st' e) h =
    Holds-eq_ok Distinct _ e (update_request-Distinct env c id payload who st h)
step-Distinct env (RequestStep.cancelled c id who st st' e) h =
    Holds-eq_ok Distinct _ e (cancel-Distinct c id who st h)
step-Distinct env (RequestStep.approved c id who st st' e) h =
    approve-NoRepeat env c id who st st' h e
step-Distinct env (RequestStep.rejected c id who st st' e) h =
    Holds-eq_ok Distinct _ e (reject-Distinct c id who st h)
step-Distinct env (RequestStep.forced c id who st st' e) h =
    Holds-eq_ok Distinct _ e (force_approve-Distinct env c id who st h)
step-Distinct env (RequestStep.refused c id who st st' e) h =
    Holds-eq_ok Distinct _ e (force_reject-Distinct c id who st h)

-- If no one has approved a round of a request twice, then this is so after any sequence of successful
-- submissions, changes, cancellations, approvals, rejections and forced decisions.
pub steps-NoRepeat :
    (env : Env) {st st' : Store}
    → RequestSteps env st st'
    → NoRepeat st.approvals
    → NoRepeat st'.approvals
steps-NoRepeat env (RequestSteps.done st) h = h
steps-NoRepeat env (RequestSteps.step st st' st'' one rest) h =
    steps-NoRepeat env rest (step-Distinct env one h)
