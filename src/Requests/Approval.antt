-- ===== src/Requests/Approval.antt =====
-- request-approval.service.ts: who may act on a request, and what approval, rejection and their
-- forced forms do. Comments, times and events are left out.
use able_work.Base.{
  ℕ, ◌+◌, Bool, true, false, ◌&&◌, Option, none, some, List, [], ◌∷◌, leb, if◌then◌else◌, ◌==◌,
  nat_eq, not, find, filter, any, map, includes,
}
use able_work.Access.{AccessLevel, JwtPayload}
use able_work.Errors.{Error, Result, ok, err, ◌>>=◌, ◌>>◌, guard}
use able_work.Documents.Constants.{DocStatus, StepStatus, step_status_eq}
use able_work.Leaves.Groups.{found_or}
use able_work.Requests.Types.{
  RequestStatus, Request, ApprovalStatus, RequestApproval, ApprovalRule, RequestDocument, Store,
  Env, request_status_eq, approval_status_eq,
}
use able_work.Requests.ShiftEffects.{is_company_org}
use able_work.Requests.Effects.{apply_approved_request}
use able_work.Requests.Rounds.{
  get_max_rounds, get_current_round, is_round_complete, find_applicable_rule,
}

unfoldable pub load_request_in_company : ℕ → ℕ → Store → Result Request
load_request_in_company company_id request_id st =
    found_or (find (λ r. r.id == request_id && r.company_id == company_id) st.requests)
      Error.request_not_found

unfoldable pub assert_request_pending : Request → Result (Unit {0})
assert_request_pending request =
    guard (request.status == RequestStatus.pending) Error.request_not_pending

unfoldable pub get_employee_org_ids : ℕ → ℕ → Store → List ℕ
unfolding is_company_org
get_employee_org_ids company_id employee_id st =
    map (λ m. m.organization_id)
      (filter (λ m. m.employee_id == employee_id && is_company_org company_id m.organization_id st)
        st.memberships)

-- A pending step of the request's document that names the employee.
unfoldable pub is_pending_assignee : ℕ → Option ℕ → Store → Bool
is_pending_assignee employee_id none st = false
is_pending_assignee employee_id (some document_id) st =
    any
      (λ d.
        d.id == document_id
        && any (λ s. s.assignee_id == employee_id && s.status == StepStatus.pending) d.steps)
      st.documents

unfoldable pub shares_organization : Request → JwtPayload → Store → Bool
unfolding get_employee_org_ids includes
shares_organization request requester st =
    any (includes (get_employee_org_ids request.company_id requester.employee_id st))
      (get_employee_org_ids request.company_id request.requester_id st)

-- Whether one who is not the requester may act on the request.
unfoldable pub may_approve : Request → JwtPayload → Store → Bool
unfolding is_pending_assignee shares_organization
may_approve request requester st = elim requester.access_level [
  | AccessLevel.super_admin ↦ true
  | AccessLevel.general_admin ↦ true
  | AccessLevel.org_admin ↦
      if shares_organization request requester st
      then true
      else is_pending_assignee requester.employee_id request.document_id st
  | AccessLevel.employee ↦ is_pending_assignee requester.employee_id request.document_id st
]

unfoldable pub assert_is_approver : Request → JwtPayload → Store → Result (Unit {0})
unfolding may_approve
assert_is_approver request requester st = do
  guard (not (requester.employee_id == request.requester_id)) Error.request_self_approval
  guard (may_approve request requester st) Error.approval_forbidden
  ok tt

-- The same person has approved this round before.
unfoldable pub has_approved : ℕ → ℕ → ℕ → List RequestApproval → Bool
has_approved request_id round approver_id = any (λ a.
    a.request_id == request_id
    && a.round == round
    && a.approver_id == approver_id
    && a.status == ApprovalStatus.approved)

unfoldable pub add_approval : ℕ → ℕ → ℕ → ApprovalStatus → Store → Store
add_approval request_id round approver_id status st = record st {
  approvals =
      record { request_id = request_id; round = round; approver_id = approver_id; status = status }
      ∷ st.approvals;
}

-- `request.update({ where: { id }, data: { status } })`
unfoldable pub set_request_status : ℕ → RequestStatus → Store → Store
set_request_status request_id status st = record st {
  requests =
      map (λ (r : Request). if r.id == request_id then record r { status = status } else r)
        st.requests;
}

-- The document of a request, if it has one, gets a status.
unfoldable pub set_document_status : Option ℕ → DocStatus → Store → Store
set_document_status none status st = st
set_document_status (some document_id) status st = record st {
  documents =
      map (λ (d : RequestDocument). if d.id == document_id then record d { status = status } else d)
        st.documents;
}

-- The waiting steps of a round become pending.
unfoldable pub activate_round : Option ℕ → ℕ → Store → Store
activate_round none round st = st
activate_round (some document_id) round st = record st {
  documents =
      map
        (λ (d : RequestDocument).
          if d.id == document_id
          then record d {
            steps =
                map
                  (λ s.
                    if s.round == round && s.status == StepStatus.waiting
                    then record s { status = StepStatus.pending }
                    else s)
                  d.steps;
          }
          else d)
        st.documents;
}

-- The approval or the rejection of the whole request.
unfoldable pub finish_approval : Env → ℕ → Request → Store → Result Store
unfolding set_request_status apply_approved_request set_document_status
finish_approval env company_id request st = do
  applied ←
      apply_approved_request env company_id request
        (set_request_status request.id RequestStatus.approved st)
  ok (set_document_status request.document_id DocStatus.approved applied)

unfoldable pub finish_rejection : Request → Store → Store
unfolding set_request_status set_document_status
finish_rejection request st =
    set_document_status request.document_id DocStatus.rejected
      (set_request_status request.id RequestStatus.rejected st)

-- After an approval: the last round ends the request, an earlier one opens the next.
unfoldable pub advance : Env → ℕ → Request → Option ApprovalRule → ℕ → Store → Result Store
unfolding is_round_complete get_max_rounds finish_approval activate_round
advance env company_id request rule round st =
    if is_round_complete request.id round rule st.approvals
    then if leb (get_max_rounds rule) round
      then finish_approval env company_id request st
      else ok (activate_round request.document_id (round + 1) st)
    else ok st

unfoldable pub approve : Env → ℕ → ℕ → JwtPayload → Store → Result Store
unfolding load_request_in_company assert_request_pending assert_is_approver find_applicable_rule
    get_current_round has_approved add_approval advance
approve env company_id request_id requester st = do
  request ← load_request_in_company company_id request_id st
  assert_request_pending request
  assert_is_approver request requester st
  let rule = find_applicable_rule company_id request.request_type st.rules
  let round = get_current_round request_id rule st.approvals
  guard (not (has_approved request_id round requester.employee_id st.approvals))
      Error.request_already_approved
  let after = add_approval request_id round requester.employee_id ApprovalStatus.approved st
  advance env company_id request rule round after

unfoldable pub reject : ℕ → ℕ → JwtPayload → Store → Result Store
unfolding load_request_in_company assert_request_pending assert_is_approver find_applicable_rule
    get_current_round add_approval finish_rejection
reject company_id request_id requester st = do
  request ← load_request_in_company company_id request_id st
  assert_request_pending request
  assert_is_approver request requester st
  let rule = find_applicable_rule company_id request.request_type st.rules
  let round = get_current_round request_id rule st.approvals
  ok (
      finish_rejection request
        (add_approval request_id round requester.employee_id ApprovalStatus.rejected st))

abbrev pub is_super_admin : AccessLevel → Bool
is_super_admin AccessLevel.super_admin = true
is_super_admin AccessLevel.general_admin = false
is_super_admin AccessLevel.org_admin = false
is_super_admin AccessLevel.employee = false

unfoldable pub force_approve : Env → ℕ → ℕ → JwtPayload → Store → Result Store
unfolding load_request_in_company assert_request_pending add_approval finish_approval
force_approve env company_id request_id requester st = do
  guard (is_super_admin requester.access_level) Error.force_forbidden
  request ← load_request_in_company company_id request_id st
  assert_request_pending request
  finish_approval env company_id request
      (add_approval request_id 0 requester.employee_id ApprovalStatus.force_approved st)

unfoldable pub force_reject : ℕ → ℕ → JwtPayload → Store → Result Store
unfolding load_request_in_company assert_request_pending add_approval finish_rejection
force_reject company_id request_id requester st = do
  guard (is_super_admin requester.access_level) Error.force_forbidden
  request ← load_request_in_company company_id request_id st
  assert_request_pending request
  ok (
      finish_rejection request
        (add_approval request_id 0 requester.employee_id ApprovalStatus.force_rejected st))

-- One after the other; a request that fails leaves the store as it was.
unfoldable pub bulk_approve : Env → ℕ → List ℕ → JwtPayload → Store → List (ℕ × Bool) × Store
unfolding approve
bulk_approve env company_id [] requester st = ([], st)
bulk_approve env company_id (request_id ∷ ids) requester st =
    elim (approve env company_id request_id requester st) [
      | ok after ↦
          let (results, last) = bulk_approve env company_id ids requester after in
          ((request_id, true) ∷ results, last)
      | err _ ↦
          let (results, last) = bulk_approve env company_id ids requester st in
          ((request_id, false) ∷ results, last)
    ]
