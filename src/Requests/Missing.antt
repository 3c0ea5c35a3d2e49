-- ===== src/Requests/Missing.antt =====
-- request-approval.service.ts, `approve`: the approvals that a request still misses run out.
use able_work.Base.{
  ℕ, zero, suc, ◌+◌, ◌-◌, ◌≤◌, ◌<◌, Option, List, ◌∷◌, ◌≡◌, refl, sym, subst, ◌⊎◌, inl, inr, ltb,
  Bool-cases, arith, nat_eq,
}
use able_work.Access.{JwtPayload}
use able_work.Errors.{ok, Holds-eq_ok}
use able_work.Requests.Types.{
  ApprovalStatus, Request, RequestApproval, ApprovalRule, Store, Env, approval_status_eq,
}
use able_work.Requests.Rounds.{
  approved_count, round_required_count, get_max_rounds, first_open_round, get_current_round,
}
use able_work.Requests.Approval.{approve, add_approval, load_request_in_company}
use able_work.Requests.Passed.{Passed, approve-Passed, rule_of, round_of}
use able_work.Requests.Complete.{count_mono}

-- The approvals that `n` rounds from `r` on miss.
unfoldable pub missing_from : ℕ → Option ApprovalRule → List RequestApproval → ℕ → ℕ → ℕ
unfolding round_required_count approved_count
missing_from id rule log r zero = 0
missing_from id rule log r (suc n) =
    (round_required_count rule r - approved_count id r log) + missing_from id rule log (suc r) n

-- The approvals that all rounds of a rule miss.
unfoldable pub missing : ℕ → Option ApprovalRule → List RequestApproval → ℕ
unfolding missing_from get_max_rounds
missing id rule log = missing_from id rule log 1 (get_max_rounds rule)

module _ (id : ℕ) (rule : Option ApprovalRule) (a : RequestApproval) (log : List RequestApproval)
    (mine : a.request_id ≡ id) (approved : a.status ≡ ApprovalStatus.approved) where
  count_here : (r : ℕ) → a.round ≡ r → approved_count id r (a ∷ log) ≡ suc (approved_count id r log)
  unfolding approved_count
  count_here r here = ground arith

  count_other : (r : ℕ) → a.round < r → approved_count id r (a ∷ log) ≡ approved_count id r log
  unfolding approved_count
  count_other r before = ground arith

  -- The rounds behind the approval miss what they missed.
  missing_later :
      (r n : ℕ) → a.round < r → missing_from id rule (a ∷ log) r n ≡ missing_from id rule log r n
  unfolding missing_from
  missing_later r zero before = refl
  missing_later r (suc n) before =
      rw (count_other r before, missing_later (suc r) n (omega arith)) refl

  missing_step :
      (r n : ℕ)
      → a.round ≡ first_open_round id rule log r n
      → (missing_from id rule log r n ≡ 0)
        ⊎ (suc (missing_from id rule (a ∷ log) r n) ≡ missing_from id rule log r n)
  unfolding missing_from first_open_round
  missing_step r zero at = inl refl
  missing_step r (suc n) at =
      elim (Bool-cases (ltb (approved_count id r log) (round_required_count rule r))) [
        | inl short ↦
            let here : a.round ≡ r = ground arith in
            let few : approved_count id r log < round_required_count rule r = ground arith in
            inr (omega (arith, few, count_here r here, missing_later (suc r) n (omega arith)))
        | inr full ↦
            let later : a.round ≡ first_open_round id rule log (suc r) n = ground arith in
            let enough : round_required_count rule r ≤ approved_count id r log = ground arith in
            elim (missing_step (suc r) n later) [
              | inl none_left ↦ inl (omega (arith, none_left, enough))
              | inr fewer ↦ inr (omega (arith, fewer, enough, count_mono id rule a log r))
            ]
      ]

-- If `approve` succeeds for a request whose rounds miss approvals by the rule that applies to its
-- type, then they miss one less.
pub approve-missing :
    (env : Env) (company_id request_id : ℕ) (requester : JwtPayload) (st st' : Store)
    → approve env company_id request_id requester st ≡ ok st'
    → (request : Request) × (load_request_in_company company_id request_id st ≡ ok request)
      × ((missing request_id (rule_of company_id request st) st.approvals ≡ 0)
          ⊎ (suc (missing request_id (rule_of company_id request st) st'.approvals)
              ≡ missing request_id (rule_of company_id request st) st.approvals))
unfolding add_approval missing get_current_round
approve-missing env company_id request_id requester st st' h =
    let p =
      Holds-eq_ok (Passed company_id request_id requester st) _ h
        (approve-Passed env company_id request_id requester st) in
    let rule = rule_of company_id p.request st in
    let added : RequestApproval = record {
      request_id = request_id;
      round = round_of company_id request_id p.request st;
      approver_id = requester.employee_id;
      status = ApprovalStatus.approved;
    } in
    (
      p.request,
      p.loaded,
      subst
          (λ log.
            (missing request_id rule st.approvals ≡ 0)
            ⊎ (suc (missing request_id rule log) ≡ missing request_id rule st.approvals))
          (sym p.advanced.0)
          (missing_step request_id rule added st.approvals refl refl 1 (get_max_rounds rule) refl),
    )
