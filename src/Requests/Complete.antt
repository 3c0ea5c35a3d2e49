-- ===== src/Requests/Complete.antt =====
-- request-approval.service.ts, `approve`: a request is approved only when each round of its rule has
-- the approvals that it needs.
use able_work.Base.{
  ℕ, zero, suc, ◌+◌, ◌≤◌, ◌<◌, Option, List, ◌∷◌, ◌≡◌, sym, subst, ◌⊎◌, inl, inr, leb, ltb, true,
  leb→le, Bool-cases, arith, nat_eq,
}
use able_work.Access.{JwtPayload}
use able_work.Errors.{ok, Holds-eq_ok}
use able_work.Requests.Types.{
  ApprovalStatus, Request, RequestApproval, ApprovalRule, Store, Env, approval_status_eq,
}
use able_work.Requests.Rounds.{
  approved_count, round_required_count, get_max_rounds, first_open_round, get_current_round,
  is_round_complete,
}
use able_work.Requests.Approval.{approve, add_approval, load_request_in_company}
use able_work.Requests.Passed.{Passed, approve-Passed, rule_of, round_of, load-IsRow}

-- The round has the approvals that the rule asks for.
abbrev pub IsComplete : ℕ → Option ApprovalRule → List RequestApproval → ℕ → Type 0
IsComplete request_id rule log r = round_required_count rule r ≤ approved_count request_id r log

-- The rounds before the current one are complete.
earlier_rounds :
    (id : ℕ) (rule : Option ApprovalRule) (log : List RequestApproval) (r n : ℕ)
    → r + n ≡ suc (get_max_rounds rule)
    → (k : ℕ) → r ≤ k
    → k < first_open_round id rule log r n
    → IsComplete id rule log k
unfolding first_open_round
earlier_rounds id rule log r zero all k lo hi = omega arith
earlier_rounds id rule log r (suc n) all k lo hi =
    let later = earlier_rounds id rule log (suc r) n (omega arith) k in ground arith

module _ (id : ℕ) (rule : Option ApprovalRule) (a : RequestApproval)
    (log : List RequestApproval) where
  pub count_mono : (r : ℕ) → approved_count id r log ≤ approved_count id r (a ∷ log)
  unfolding approved_count
  count_mono r = ground arith

  -- The last round was current and is complete now, so all rounds are.
  all-IsComplete :
      leb (get_max_rounds rule) (get_current_round id rule log) ≡ true
      → IsComplete id rule (a ∷ log) (get_current_round id rule log)
      → (r : ℕ) → 1 ≤ r
      → r ≤ get_max_rounds rule
      → IsComplete id rule (a ∷ log) r
  unfolding get_current_round
  all-IsComplete last now r lo hi = elim (Bool-cases (ltb r (get_current_round id rule log))) [
    | inl before ↦
        let old =
          earlier_rounds id rule log 1 (get_max_rounds rule) (omega arith) r lo (ground arith) in
        omega (arith, count_mono r)
    | inr after ↦
        let same : get_current_round id rule log ≡ r = ground arith in
        subst (IsComplete id rule (a ∷ log)) same now
  ]

-- If `approve` succeeds, then it has loaded a request of the company, and it leaves the requests as
-- they were, or each round of the rule that applies to the request's type has the approvals that the
-- rule asks for.
pub approve-IsComplete :
    (env : Env) (company_id request_id : ℕ) (requester : JwtPayload) (st st' : Store)
    → approve env company_id request_id requester st ≡ ok st'
    → (request : Request) × (load_request_in_company company_id request_id st ≡ ok request)
      × ((st'.requests ≡ st.requests)
          ⊎ ((r : ℕ)
              → 1 ≤ r
              → r ≤ get_max_rounds (rule_of company_id request st)
              → IsComplete request_id (rule_of company_id request st) st'.approvals r))
unfolding add_approval is_round_complete
approve-IsComplete env company_id request_id requester st st' h =
    let p =
      Holds-eq_ok (Passed company_id request_id requester st) _ h
        (approve-Passed env company_id request_id requester st) in
    let (_, same_id, _) = Holds-eq_ok _ _ p.loaded (load-IsRow company_id request_id st) in
    let rule = rule_of company_id p.request st in
    let round = round_of company_id request_id p.request st in
    let added : RequestApproval = record {
      request_id = request_id;
      round = round;
      approver_id = requester.employee_id;
      status = ApprovalStatus.approved;
    } in
    (
      p.request,
      p.loaded,
      elim p.advanced.1 [
        | inl kept ↦ inl kept
        | inr (complete, last) ↦ inr (λ r lo hi.
            subst (λ log. IsComplete request_id rule log r) (sym p.advanced.0)
              (all-IsComplete request_id rule added st.approvals last
                (subst (λ id. IsComplete id rule (added ∷ st.approvals) round) same_id
                  (leb→le _ _ complete))
                r lo hi))
      ],
    )
