-- ===== src/Requests/Frame.antt =====
-- request-effects.service.ts: what an approved request leaves alone. The effects write no table of
-- the requests.
use able_work.Base.{ℕ, Option, none, some, List, ◌≡◌, refl, ◌∙◌, not}
use able_work.Leaves.Groups.{found_or}
use able_work.Errors.{
  Error, Holds-guard, Result, ok, Holds, Holds-ok, Holds-bind, Holds-option, Holds-eq_ok,
}
use able_work.Documents.Constants.{DocStatus}
use able_work.Leaves.Types.{LeaveStore}
use able_work.Requests.Types.{
  RequestType, RequestStatus, Request, RequestApproval, Payload, Store, Env,
}
use able_work.Requests.ShiftEffects.{
  apply_shift_create, apply_shift_modify, apply_shift_delete, apply_attendance_upsert,
  apply_attendance_delete, attendance_of, date_read, primary_membership, plan_shift, own_shift,
  own_attendance, new_clock_in,
}
use able_work.Requests.LeaveEffects.{
  required, apply_leave_create, apply_leave_modify, apply_leave_delete,
}
use able_work.Requests.Effects.{apply_effect, apply_approved_request, on_leave}
use able_work.Requests.Approval.{finish_approval, set_request_status, set_document_status}

-- The tables of the requests are those of another store.
abbrev pub requests_of : Store → List RequestApproval × List Request
requests_of st = (st.approvals, st.requests)

abbrev pub SameRequests : Store → Store → Type 0
SameRequests st st' = requests_of st' ≡ requests_of st

on_leave-SameRequests :
    (f : LeaveStore → Result LeaveStore) (st : Store) → Holds (SameRequests st) (on_leave f st)
on_leave-SameRequests f st =
    Holds-bind (SameRequests st) (f st.leave) (λ leave. ok (record st { leave = leave }))
      (λ v e. Holds-ok (SameRequests st) _ refl)

apply_attendance_upsert-SameRequests :
    (env : Env) (c e : ℕ) (payload : Payload) (st : Store)
    → Holds (SameRequests st) (apply_attendance_upsert env c e payload st)
unfolding apply_attendance_upsert
apply_attendance_upsert-SameRequests env c e payload st =
    let P = SameRequests st in
    Holds-bind P (date_read env c e payload) _ (λ date _.
      Holds-option P (attendance_of env c e payload date st) _ _
        (λ _.
          Holds-bind P (found_or (new_clock_in env c e payload date) Error.request_payload_invalid)
            _ (λ _ _. Holds-ok P _ refl))
        (λ a _. Holds-guard P (not a.is_confirmed) _ _ (λ _. Holds-ok P _ refl)))

apply_effect-SameRequests :
    (env : Env) (c e : ℕ) (type : RequestType) (payload : Payload) (st : Store)
    → Holds (SameRequests st) (apply_effect env c e type payload st)
unfolding apply_effect apply_shift_create apply_shift_modify apply_shift_delete
    apply_attendance_delete
apply_effect-SameRequests env c e RequestType.leave_create payload st =
    on_leave-SameRequests (apply_leave_create env c e payload) st
apply_effect-SameRequests env c e RequestType.leave_modify payload st =
    on_leave-SameRequests (apply_leave_modify env c e payload) st
apply_effect-SameRequests env c e RequestType.leave_delete payload st =
    on_leave-SameRequests (apply_leave_delete env c e payload) st
apply_effect-SameRequests env c e RequestType.shift_create payload st =
    let P = SameRequests st in
    Holds-bind P (required payload.date) _ (λ date _.
      Holds-bind P (found_or (primary_membership c e st) Error.employee_organization_not_found) _
        (λ _ _. Holds-bind P (plan_shift env c e payload date st) _ (λ _ _. Holds-ok P _ refl)))
apply_effect-SameRequests env c e RequestType.shift_modify payload st =
    let P = SameRequests st in
    Holds-bind P (required payload.shift_id) _
      (λ id _. Holds-bind P (own_shift env c e payload id st) _ (λ _ _. Holds-ok P _ refl))
apply_effect-SameRequests env c e RequestType.shift_delete payload st =
    let P = SameRequests st in
    Holds-bind P (required payload.shift_id) _
      (λ id _. Holds-bind P (own_shift env c e payload id st) _ (λ _ _. Holds-ok P _ refl))
apply_effect-SameRequests env c e RequestType.attendance_edit payload st =
    apply_attendance_upsert-SameRequests env c e payload st
apply_effect-SameRequests env c e RequestType.attendance_create payload st =
    apply_attendance_upsert-SameRequests env c e payload st
apply_effect-SameRequests env c e RequestType.attendance_delete payload st =
    let P = SameRequests st in
    Holds-bind P (required payload.attendance_id) _ (λ id _.
      Holds-bind P (own_attendance env c e payload id st) _
        (λ a _. Holds-guard P (not a.is_confirmed) _ _ (λ _. Holds-ok P _ refl)))
apply_effect-SameRequests env c e RequestType.device_change payload st =
    Holds-ok (SameRequests st) _ refl
apply_effect-SameRequests env c e RequestType.offsite_work payload st =
    Holds-ok (SameRequests st) _ refl
apply_effect-SameRequests env c e RequestType.custom payload st = Holds-ok (SameRequests st) _ refl

pub set_document_status-SameRequests :
    (document_id : Option ℕ) (status : DocStatus) (st : Store)
    → SameRequests st (set_document_status document_id status st)
unfolding set_document_status
set_document_status-SameRequests none status st = refl
set_document_status-SameRequests (some d) status st = refl

-- A final approval writes the status of the request, and no approval.
pub finish_approval-SameRequests :
    (env : Env) (company_id : ℕ) (request : Request) (st : Store)
    → Holds
        (SameRequests (set_request_status request.id RequestStatus.approved st))
        (finish_approval env company_id request st)
unfolding finish_approval apply_approved_request
finish_approval-SameRequests env c request st =
    let st0 = set_request_status request.id RequestStatus.approved st in
    Holds-bind (SameRequests st0) (apply_approved_request env c request st0) _ (λ applied e.
      Holds-ok (SameRequests st0) _ (
        set_document_status-SameRequests request.document_id DocStatus.approved applied
        ∙ Holds-eq_ok (SameRequests st0) _ e (
            apply_effect-SameRequests env c request.requester_id request.request_type
              request.payload st0)))

pub apply_approved_request-SameRequests :
    (env : Env) (company_id : ℕ) (request : Request) (st : Store)
    → Holds (SameRequests st) (apply_approved_request env company_id request st)
unfolding apply_approved_request
apply_approved_request-SameRequests env c request st =
    apply_effect-SameRequests env c request.requester_id request.request_type request.payload st
