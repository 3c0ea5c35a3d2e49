-- ===== src/Requests/Passed.antt =====
-- request-approval.service.ts: what a successful approval or rejection has tested, and what it has
-- written.
use able_work.Base.{
  ℕ, ◌+◌, true, false, Option, none, some, ◌≡◌, refl, ap, ◌⊎◌, inl, inr, leb, Memᴰ, find-mem, find,
  ◌&&◌, Option-cases, ◌==◌, nat_eq, not, arith,
}
use able_work.Access.{JwtPayload}
use able_work.Errors.{ok, Holds, Holds-if, Holds-ok, Holds-bind, Holds-then, Holds-guard, Holds-imp}
use able_work.Requests.Types.{
  RequestStatus, Request, ApprovalStatus, ApprovalRule, Store, Env, request_status_eq,
}
use able_work.Requests.Rounds.{
  get_max_rounds, get_current_round, is_round_complete, find_applicable_rule,
}
use able_work.Requests.Approval.{
  load_request_in_company, assert_request_pending, assert_is_approver, has_approved, add_approval,
  activate_round, set_request_status, finish_approval, advance, approve,
}
use able_work.Requests.Frame.{finish_approval-SameRequests, SameRequests}

-- The rule and the round that an approval of a request is counted in.
abbrev pub rule_of : ℕ → Request → Store → Option ApprovalRule
rule_of company_id request st = find_applicable_rule company_id request.request_type st.rules

abbrev pub round_of : ℕ → ℕ → Request → Store → ℕ
round_of company_id request_id request st =
    get_current_round request_id (rule_of company_id request st) st.approvals

activate_round-SameRequests :
    (document_id : Option ℕ) (round : ℕ) (st : Store)
    → SameRequests st (activate_round document_id round st)
unfolding activate_round
activate_round-SameRequests none round st = refl
activate_round-SameRequests (some d) round st = refl

-- What is written after an approval: nothing of the requests, or the final status, in which case the
-- round is complete and no later one is needed.
abbrev pub Advanced : Request → Option ApprovalRule → ℕ → Store → Store → Type 0
Advanced request rule round st st' =
    (st'.approvals ≡ st.approvals)
    × ((st'.requests ≡ st.requests)
        ⊎ ((is_round_complete request.id round rule st.approvals ≡ true)
            × (leb (get_max_rounds rule) round ≡ true)))

advance-Advanced :
    (env : Env) (company_id : ℕ) (request : Request) (rule : Option ApprovalRule) (round : ℕ)
    (st : Store)
    → Holds (Advanced request rule round st) (advance env company_id request rule round st)
unfolding advance set_request_status
advance-Advanced env company_id request rule round st =
    let P = Advanced request rule round st in
    Holds-if P (is_round_complete request.id round rule st.approvals) _ _
      (λ complete.
        Holds-if P (leb (get_max_rounds rule) round) _ _
          (λ last.
            Holds-imp (SameRequests (set_request_status request.id RequestStatus.approved st)) P
              (finish_approval env company_id request st)
              (λ st' same. (ap (λ r. r.0) same, inr (complete, last)))
              (finish_approval-SameRequests env company_id request st))
          (λ _.
            let same = activate_round-SameRequests request.document_id (round + 1) st in
            Holds-ok P _ (ap (λ r. r.0) same, inl (ap (λ r. r.1) same))))
      (λ _. Holds-ok P _ (refl, inl refl))

-- What a successful approval has passed: the request of the company is pending and another's, its
-- approver may act and has not approved the round, and the approval is counted in the current round.
pub record Passed (company_id request_id : ℕ) (requester : JwtPayload) (st st' : Store)
    : Type 0 where
  pub request : Request
  pub loaded : load_request_in_company company_id request_id st ≡ ok request
  pub is_pending : assert_request_pending request ≡ ok tt
  pub is_approver : assert_is_approver request requester st ≡ ok tt
  pub is_first :
      has_approved request_id
        (round_of company_id request_id request st)
        requester.employee_id
        st.approvals
      ≡ false
  pub advanced :
      Advanced request
        (rule_of company_id request st)
        (round_of company_id request_id request st)
        (add_approval request_id
          (round_of company_id request_id request st)
          requester.employee_id
          ApprovalStatus.approved
          st)
        st'

-- A request that was loaded is a row with that id and company.
pub load-IsRow :
    (company_id request_id : ℕ) (st : Store)
    → Holds
        (λ r. Memᴰ r st.requests × (r.id ≡ request_id) × (r.company_id ≡ company_id))
        (load_request_in_company company_id request_id st)
unfolding load_request_in_company Holds
load-IsRow company_id request_id st =
    elim (Option-cases
      (find (λ (r : Request). r.id == request_id && r.company_id == company_id) st.requests)) [
        | inl n ↦ rw n tt
        | inr (r, found) ↦
            let (row, test) =
              find-mem (λ (r : Request). r.id == request_id && r.company_id == company_id)
                st.requests found in
            rw found (row, ground arith, ground arith)
      ]

pub approve-Passed :
    (env : Env) (company_id request_id : ℕ) (requester : JwtPayload) (st : Store)
    → Holds
        (Passed company_id request_id requester st)
        (approve env company_id request_id requester st)
unfolding approve
approve-Passed env company_id request_id requester st =
    let P = Passed company_id request_id requester st in
    Holds-bind P (load_request_in_company company_id request_id st) _ (λ request loaded.
      let rule = rule_of company_id request st in
      let round = round_of company_id request_id request st in
      let after = add_approval request_id round requester.employee_id ApprovalStatus.approved st in
      Holds-then P (assert_request_pending request) _ (λ pending.
        Holds-then P (assert_is_approver request requester st) _ (λ approver.
          Holds-guard P (not (has_approved request_id round requester.employee_id st.approvals)) _ _
            (λ first.
              Holds-imp (Advanced request rule round after) P
                (advance env company_id request rule round after)
                (λ st' advanced. record {
                  request = request;
                  loaded = loaded;
                  is_pending = pending;
                  is_approver = approver;
                  is_first = ground arith;
                  advanced = advanced;
                })
                (advance-Advanced env company_id request rule round after)))))
