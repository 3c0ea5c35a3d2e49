-- ===== src/Requests/Rules.antt =====
-- approval-rules.service.ts: the rules by which requests are approved.
use able_work.Base.{
  ℕ, ◌+◌, Bool, false, ◌&&◌, Option, List, ◌∷◌, ltb, if◌then◌else◌, ◌==◌, nat_eq, not, or_else,
  or_option, find, count, map,
}
use able_work.Errors.{Error, Result, ok, ◌>>=◌, ◌>>◌, guard}
use able_work.Leaves.Groups.{found_or}
use able_work.Requests.Types.{
  RequestType, RequestStatus, ApprovalRuleDetail, ApprovalRule, Store, request_type_eq,
  request_status_eq,
}

unfoldable pub assert_rule_belongs_to_company : ℕ → ℕ → Store → Result ApprovalRule
assert_rule_belongs_to_company company_id rule_id st =
    found_or (find (λ r. r.id == rule_id && r.company_id == company_id) st.rules)
      Error.approval_rule_not_found

pub record CreateApprovalRule : Type 0 where
  pub request_type : RequestType
  pub custom_type_id : Option ℕ
  pub priority : ℕ
  pub scope_org_ids : Option (List ℕ)
  pub scope_position_ids : Option (List ℕ)
  pub max_approval_rounds : ℕ
  pub is_auto_approve : Bool
  pub is_active : Bool
  pub details : List ApprovalRuleDetail

unfoldable pub create_approval_rule : ℕ → CreateApprovalRule → Store → Store
create_approval_rule company_id dto st = record st {
  rules =
      record {
        id = st.drawn;
        company_id = company_id;
        request_type = dto.request_type;
        custom_type_id = dto.custom_type_id;
        priority = dto.priority;
        scope_org_ids = dto.scope_org_ids;
        scope_position_ids = dto.scope_position_ids;
        max_approval_rounds = dto.max_approval_rounds;
        is_auto_approve = dto.is_auto_approve;
        is_active = dto.is_active;
        details = dto.details;
      }
      ∷ st.rules;
  drawn = st.drawn + 1;
}

pub record UpdateApprovalRule : Type 0 where
  pub request_type : Option RequestType
  pub custom_type_id : Option ℕ
  pub priority : Option ℕ
  pub scope_org_ids : Option (List ℕ)
  pub scope_position_ids : Option (List ℕ)
  pub max_approval_rounds : Option ℕ
  pub is_auto_approve : Option Bool
  pub is_active : Option Bool
  pub details : Option (List ApprovalRuleDetail)

-- Given details take the place of all that the rule had.
unfoldable pub update_approval_rule : ℕ → ℕ → UpdateApprovalRule → Store → Result Store
unfolding assert_rule_belongs_to_company
update_approval_rule company_id rule_id dto st = do
  _ ← assert_rule_belongs_to_company company_id rule_id st
  ok (record st {
    rules =
        map
          (λ (r : ApprovalRule).
            if r.id == rule_id
            then record r {
              request_type = or_else dto.request_type r.request_type;
              custom_type_id = or_option dto.custom_type_id r.custom_type_id;
              priority = or_else dto.priority r.priority;
              scope_org_ids = or_option dto.scope_org_ids r.scope_org_ids;
              scope_position_ids = or_option dto.scope_position_ids r.scope_position_ids;
              max_approval_rounds = or_else dto.max_approval_rounds r.max_approval_rounds;
              is_auto_approve = or_else dto.is_auto_approve r.is_auto_approve;
              is_active = or_else dto.is_active r.is_active;
              details = or_else dto.details r.details;
            }
            else r)
          st.rules;
  })

-- A rule of a type with pending requests is kept.
unfoldable pub pending_of_type : ℕ → RequestType → Store → ℕ
pending_of_type company_id request_type st =
    count
      (λ r.
        r.company_id == company_id
        && r.request_type == request_type
        && r.status == RequestStatus.pending)
      st.requests

unfoldable pub delete_approval_rule : ℕ → ℕ → Store → Result Store
unfolding assert_rule_belongs_to_company pending_of_type
delete_approval_rule company_id rule_id st = do
  rule ← assert_rule_belongs_to_company company_id rule_id st
  guard (not (ltb 0 (pending_of_type company_id rule.request_type st))) Error.approval_rule_in_use
  ok (record st {
    rules =
        map (λ (r : ApprovalRule). if r.id == rule_id then record r { is_active = false } else r)
          st.rules;
  })
