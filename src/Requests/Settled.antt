-- ===== src/Requests/Settled.antt =====
-- request-approval.service.ts and requests.service.ts: what happens to a request that is no longer
-- pending.
use able_work.Base.{ℕ, ◌≡◌, refl, Bool, true, false, ◌==◌, nat_eq}
use able_work.Access.{JwtPayload}
use able_work.Errors.{Result, ok, err, Error, guard, ◌>>◌}
use able_work.Requests.Types.{Payload, Request, RequestStatus, Store, Env, request_status_eq}
use able_work.Requests.Approval.{
  load_request_in_company, assert_request_pending, approve, reject, force_approve, force_reject,
  is_super_admin,
}
use able_work.Requests.Service.{cancel, update_request}

-- The call throws.
abbrev pub IsRefused : Result Store → Type 0
IsRefused call = (code : Error) × (call ≡ err code)

IsRefused-after :
    (b : Bool) (code : Error) (rest : Result Store)
    → IsRefused rest
    → IsRefused (guard b code >> rest)
IsRefused-after true code rest h = h
IsRefused-after false code rest h = (code, refl)

-- If a request of the company is not pending, then it can be neither approved nor rejected, not by
-- force either, nor cancelled nor changed, by whomever it is tried.
pub settled-IsRefused :
    (env : Env) (company_id request_id : ℕ) (requester : JwtPayload) (payload : Payload)
    (st : Store) (request : Request)
    → load_request_in_company company_id request_id st ≡ ok request
    → (request.status == RequestStatus.pending) ≡ false
    → IsRefused (approve env company_id request_id requester st)
      × IsRefused (reject company_id request_id requester st)
      × IsRefused (force_approve env company_id request_id requester st)
      × IsRefused (force_reject company_id request_id requester st)
      × IsRefused (cancel company_id request_id requester st)
      × IsRefused (update_request env company_id request_id payload requester st)
unfolding approve reject force_approve force_reject cancel update_request assert_request_pending
settled-IsRefused env c id requester payload st request loaded settled = (
  rw (approve, loaded, settled) (Error.request_not_pending, refl),
  rw (reject, loaded, settled) (Error.request_not_pending, refl),
  IsRefused-after (is_super_admin requester.access_level) _ _
      (rw (loaded, settled) (Error.request_not_pending, refl)),
  IsRefused-after (is_super_admin requester.access_level) _ _
      (rw (loaded, settled) (Error.request_not_pending, refl)),
  rw (cancel, loaded)
      (IsRefused-after (request.requester_id == requester.employee_id) _ _
        (rw settled (Error.request_not_pending, refl))),
  rw (update_request, loaded)
      (IsRefused-after (request.requester_id == requester.employee_id) _ _
        (rw settled (Error.request_not_pending, refl))),
)
