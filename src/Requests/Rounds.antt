-- ===== src/Requests/Rounds.antt =====
-- requests.helpers.ts and the rounds of request-approval.service.ts: how many approvals a round of a
-- rule needs, and which round is current.
use able_work.Base.{
  ℕ, zero, suc, Bool, ◌&&◌, Option, none, some, List, [], ◌∷◌, ltb, leb, if◌then◌else◌, ◌==◌,
  nat_eq, filter, count, head?, map, sort_by, descending,
}
use able_work.Requests.Types.{
  RequestType, ApprovalStatus, RequestApproval, ApprovalRuleDetail, ApprovalRule, request_type_eq,
  approval_status_eq,
}

abbrev pub max_ℕ : ℕ → ℕ → ℕ
max_ℕ a b = if leb a b then b else a

-- `Math.max(m, ...xs)`
unfoldable pub maximum : ℕ → List ℕ → ℕ
maximum m [] = m
maximum m (x ∷ xs) = maximum (max_ℕ m x) xs

abbrev pub details_of : Option ApprovalRule → List ApprovalRuleDetail
details_of none = []
details_of (some rule) = rule.details

unfoldable pub round_required_count : Option ApprovalRule → ℕ → ℕ
unfolding maximum
round_required_count rule round =
    maximum 1 (map (λ d. d.required_count) (filter (λ d. d.round == round) (details_of rule)))

unfoldable pub get_max_rounds : Option ApprovalRule → ℕ
unfolding maximum
get_max_rounds rule =
    let detail_max = maximum 0 (map (λ d. d.round) (details_of rule)) in
    let rounds : ℕ = elim rule [ none ↦ 1 | some r ↦ r.max_approval_rounds ] in
    max_ℕ (max_ℕ 1 rounds) detail_max

-- `requestApproval.count({ where: { requestId, round, status: 'APPROVED' } })`
unfoldable pub approved_count : ℕ → ℕ → List RequestApproval → ℕ
approved_count request_id round =
    count
      (λ a. a.request_id == request_id && a.round == round && a.status == ApprovalStatus.approved)

unfoldable pub is_round_complete : ℕ → ℕ → Option ApprovalRule → List RequestApproval → Bool
unfolding approved_count round_required_count
is_round_complete request_id round rule approvals =
    leb (round_required_count rule round) (approved_count request_id round approvals)

-- The loop from round `r` on, with `n` rounds to look at.
unfoldable pub first_open_round : ℕ → Option ApprovalRule → List RequestApproval → ℕ → ℕ → ℕ
unfolding approved_count round_required_count get_max_rounds
first_open_round request_id rule approvals r zero = get_max_rounds rule
first_open_round request_id rule approvals r (suc n) =
    let later = first_open_round request_id rule approvals (suc r) n in
    if ltb (approved_count request_id r approvals) (round_required_count rule r) then r else later

unfoldable pub get_current_round : ℕ → Option ApprovalRule → List RequestApproval → ℕ
unfolding first_open_round get_max_rounds
get_current_round request_id rule approvals =
    first_open_round request_id rule approvals 1 (get_max_rounds rule)

-- The active rule of the type with the highest priority.
unfoldable pub find_applicable_rule : ℕ → RequestType → List ApprovalRule → Option ApprovalRule
unfolding sort_by
find_applicable_rule company_id request_type rules = head? (
    sort_by (descending (λ r. r.priority)) (
      filter (λ r. r.company_id == company_id && r.request_type == request_type && r.is_active)
        rules))
