-- ===== src/Requests/Distinct.antt =====
-- request-approval.service.ts: the approvals that a round counts are those of different people.
use able_work.Base.{ℕ, false, List, [], ◌∷◌, ◌≡◌, sym, subst}
use able_work.Access.{JwtPayload}
use able_work.Errors.{ok, Holds-eq_ok}
use able_work.Requests.Types.{ApprovalStatus, RequestApproval, Store, Env}
use able_work.Requests.Approval.{has_approved, approve, add_approval}
use able_work.Requests.Passed.{Passed, approve-Passed}

-- No one has approved a round of a request twice.
abbrev pub NoRepeat : List RequestApproval → Type 0
NoRepeat [] = Unit
NoRepeat (a ∷ log) =
    (a.status ≡ ApprovalStatus.approved
      → has_approved a.request_id a.round a.approver_id log ≡ false)
    × NoRepeat log

-- If no one has approved a round of a request twice, and `approve` succeeds, then this is so after it.
pub approve-NoRepeat :
    (env : Env) (company_id request_id : ℕ) (requester : JwtPayload) (st st' : Store)
    → NoRepeat st.approvals
    → approve env company_id request_id requester st ≡ ok st'
    → NoRepeat st'.approvals
unfolding add_approval
approve-NoRepeat env company_id request_id requester st st' distinct h =
    let p =
      Holds-eq_ok (Passed company_id request_id requester st) _ h
        (approve-Passed env company_id request_id requester st) in
    subst NoRepeat (sym p.advanced.0) (λ _. p.is_first, distinct)
