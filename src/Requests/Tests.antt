-- ===== src/Requests/Tests.antt =====
-- A company with two people and a few requests, on which the theorems of the requests are
-- instantiated.
use able_work.Base.{
  ℕ, suc, ◌+◌, ◌*◌, ◌≤◌, ◌≡◌, ◌⊎◌, refl, true, none, some, List, [], ◌∷◌, arith, sort_by,
}
use able_work.Base.Int.{pos, ◌≤ℤ◌, ◌+ℤ◌, ◌-ℤ◌}
use able_work.Access.{AccessLevel, JwtPayload}
use able_work.Errors.{ok}
use able_work.Leaves.Types.{LeaveType, TimeOption, Leave, LeaveBalance, Employee, LeaveStore}
use able_work.Leaves.Accrual.{find_balance, update_balance, pick_representative, active_types}
use able_work.Leaves.Service
use able_work.Leaves.Service.{validate_balance, has_expired, take_leave, moved}
use able_work.Leaves.Covered.{AllCovered}
use able_work.Leaves.Tests.{annual_leave, kim, leaves_at, fifteen_days}
use able_work.Requests.Types.{
  RequestType, RequestStatus, Payload, Request, ApprovalStatus, RequestApproval, Shift, Store, Env,
}
use able_work.Requests.LeaveEffects.{
  is_holiday, is_weekend, count_days, count_business_days, calc_leave_days_used,
  compute_leave_days_used, representative_pool, resolve_balance_type_id, apply_leave_create,
  apply_leave_delete,
}
use able_work.Requests.ShiftEffects.{
  is_company_org, primary_membership, plan_shift, default_shift_type, end_after, apply_shift_create,
}
use able_work.Requests.Effects.{apply_effect, apply_approved_request}
use able_work.Requests.Rounds.{
  maximum, round_required_count, get_max_rounds, approved_count, is_round_complete,
  first_open_round, get_current_round, find_applicable_rule,
}
use able_work.Requests.Approval.{
  load_request_in_company, assert_request_pending, assert_is_approver, may_approve, has_approved,
  add_approval, set_request_status, set_document_status, finish_approval, advance, approve, reject,
  force_approve, force_reject, bulk_approve,
}
use able_work.Requests.Line.{
  is_colleague, is_member, department_admin, parent_of, climb, resolve_dept_approver,
  position_approver, company_approver, resolve_assignee,
}
use able_work.Requests.Service.{cancel, update_request}
use able_work.Requests.Passed.{rule_of}
use able_work.Requests.Distinct.{NoRepeat}
use able_work.Requests.Complete.{IsComplete, approve-IsComplete}
use able_work.Requests.Missing.{missing, approve-missing}
use able_work.Requests.LeaveSteps.{LeaveStep, LeaveSteps, steps-AllCovered}
use able_work.Requests.RequestSteps.{RequestStep, RequestSteps, steps-NoRepeat}
use able_work.Requests.Bulk.{ApprovesEach, bulk_approve-ApprovesEach}
use able_work.Requests.Created.{apply_leave_create-not_negative}
use able_work.Requests.Withdrawn.{withdrawal, apply_leave_delete-after_create}
use able_work.Requests.Charge.{
  compute_leave_days_used-le, count_business_days-split, resolve_balance_type_id-eq,
}
use able_work.Requests.Settled.{IsRefused, settled-IsRefused}
use able_work.Requests.Colleague.{IsColleague, resolve_assignee-IsColleague}
use able_work.Requests.ShiftTimes.{HasTimes, IsDaily, apply_shift_create-IsDaily}

-- A server in UTC, whose clock gives the year 2024.
abbrev utc_server : Env
utc_server = record { local_year = λ at. 2024; local_time = λ d m. d * 86_400_000 + m * 60_000 }

abbrev no_payload : Payload
no_payload = record {
  leave_type_id = none;
  leave_id = none;
  start_date = none;
  end_date = none;
  start_time = none;
  end_time = none;
  date = none;
  template_id = none;
  shift_id = none;
  attendance_id = none;
  clock_in_at = none;
  clock_out_at = none;
  new_device_id = none;
}

-- Monday and Tuesday.
abbrev two_days : Payload
two_days = record no_payload {
  leave_type_id = some 20;
  start_date = some 739_300;
  end_date = some 739_301;
}

abbrev short_leave : Leave
short_leave = record {
  id = 100;
  employee_id = 40;
  leave_type_id = 20;
  start_date = 739_300;
  end_date = 739_301;
  start_time = none;
  end_time = none;
  days_used = 200;
}

abbrev thirteen_days : LeaveBalance
thirteen_days = record fifteen_days { used_days = pos 200; remaining_days = pos 1300 }

abbrev before_leave : LeaveStore
before_leave = leaves_at (fifteen_days ∷ [])

abbrev after_leave : LeaveStore
after_leave = record (leaves_at (thirteen_days ∷ [])) { leaves = short_leave ∷ []; drawn = 101 }

leave_taken : apply_leave_create utc_server 1 40 two_days before_leave ≡ ok after_leave
unfolding apply_leave_create compute_leave_days_used calc_leave_days_used count_business_days
    count_days is_weekend is_holiday resolve_balance_type_id representative_pool validate_balance
    has_expired take_leave find_balance update_balance moved ◌+ℤ◌ ◌-ℤ◌
leave_taken = refl

steps-AllCovered_example : AllCovered after_leave.balances
steps-AllCovered_example =
    steps-AllCovered utc_server (λ c. true)
      (LeaveSteps.step before_leave after_leave after_leave
        (LeaveStep.requested 1 40 two_days before_leave after_leave leave_taken)
        (LeaveSteps.done after_leave))
      covered
  where
    covered : AllCovered before_leave.balances
    covered = unfold ◌+ℤ◌ in (omega arith, tt)

apply_leave_create-not_negative_example :
    (leave : Leave) × (after_leave.leaves ≡ (leave ∷ before_leave.leaves))
    × (leave.employee_id ≡ 40)
    × (b : LeaveBalance) × (find_balance 40
          (resolve_balance_type_id leave.leave_type_id before_leave.types)
          (utc_server.local_year (Service.instant leave.start_date))
          after_leave.balances
        ≡ some b)
    × (pos 0 ≤ℤ b.remaining_days)
apply_leave_create-not_negative_example =
    apply_leave_create-not_negative utc_server 1 40 two_days before_leave after_leave leave_taken

apply_leave_delete-after_create_example :
    apply_leave_delete utc_server 1 40 (withdrawal two_days 100) after_leave
    ≡ ok (record before_leave { drawn = 101 })
apply_leave_delete-after_create_example =
    apply_leave_delete-after_create utc_server 1 40 two_days before_leave after_leave refl tt
      leave_taken

week_charged : compute_leave_days_used 1 [] annual_leave 739_300 739_307 none none ≡ ok 600
unfolding compute_leave_days_used calc_leave_days_used count_business_days count_days is_weekend
    is_holiday
week_charged = refl

compute_leave_days_used-le_example :
    600 ≤ Service.calc_leave_days_used 739_300 739_307 annual_leave.deduction_days
compute_leave_days_used-le_example =
    compute_leave_days_used-le 1 [] annual_leave 739_300 739_307 none none 600 (ground arith)
      week_charged

count_business_days-split_example :
    count_business_days 1 [] 739_300 739_307
    ≡ count_business_days 1 [] 739_300 739_303 + count_business_days 1 [] (suc 739_303) 739_307
count_business_days-split_example =
    count_business_days-split 1 [] 739_300 739_303 739_307 (omega arith) (omega arith)

abbrev hourly_leave : LeaveType
hourly_leave = record annual_leave { id = 21; time_option = TimeOption.hourly }

resolve_balance_type_id-eq_example :
    resolve_balance_type_id 21 (hourly_leave ∷ annual_leave ∷ []) ≡ annual_leave.id
resolve_balance_type_id-eq_example =
    resolve_balance_type_id-eq 21 (hourly_leave ∷ annual_leave ∷ []) hourly_leave annual_leave refl
      refl picked
  where
    picked :
        pick_representative (active_types hourly_leave.group_id (hourly_leave ∷ annual_leave ∷ []))
        ≡ some annual_leave
    picked = unfold pick_representative active_types in refl

abbrev lee : Employee
lee = record kim { id = 41; access_level = AccessLevel.general_admin }

abbrev lee_token : JwtPayload
lee_token = record { employee_id = 41; company_id = 1; access_level = AccessLevel.general_admin }

abbrev kims_request : RequestStatus → Request
kims_request status = record {
  id = 500;
  company_id = 1;
  requester_id = 40;
  request_type = RequestType.custom;
  payload = no_payload;
  status = status;
  document_id = none;
  rule_id = none;
}

abbrev office : RequestStatus → List RequestApproval → Store
office status approvals = record {
  leave = record (leaves_at []) { employees = kim ∷ lee ∷ [] };
  requests = kims_request status ∷ [];
  approvals = approvals;
  rules = [];
  documents = [];
  forms = [];
  memberships = record { employee_id = 40; organization_id = 5; is_primary = true } ∷ [];
  organizations = record { id = 5; company_id = 1; parent_id = none } ∷ [];
  shift_types = record { id = 7; company_id = 1; is_active = true } ∷ [];
  shift_templates = [];
  shifts = [];
  attendances = [];
  drawn = 600;
}

abbrev lees_approval : RequestApproval
lees_approval = record {
  request_id = 500;
  round = 1;
  approver_id = 41;
  status = ApprovalStatus.approved;
}

abbrev open_office : Store
open_office = office RequestStatus.pending []

abbrev closed_office : Store
closed_office = office RequestStatus.approved (lees_approval ∷ [])

lee_approves : approve utc_server 1 500 lee_token open_office ≡ ok closed_office
unfolding approve load_request_in_company assert_request_pending assert_is_approver may_approve
    find_applicable_rule get_current_round first_open_round get_max_rounds maximum
    round_required_count approved_count has_approved add_approval advance is_round_complete
    finish_approval set_request_status apply_approved_request apply_effect set_document_status
    sort_by
lee_approves = refl

steps-NoRepeat_example : NoRepeat closed_office.approvals
steps-NoRepeat_example =
    steps-NoRepeat utc_server
      (RequestSteps.step open_office closed_office closed_office
        (RequestStep.approved 1 500 lee_token open_office closed_office lee_approves)
        (RequestSteps.done closed_office))
      tt

approve-IsComplete_example :
    (request : Request) × (load_request_in_company 1 500 open_office ≡ ok request)
    × ((closed_office.requests ≡ open_office.requests)
        ⊎ ((r : ℕ)
            → 1 ≤ r
            → r ≤ get_max_rounds (rule_of 1 request open_office)
            → IsComplete 500 (rule_of 1 request open_office) closed_office.approvals r))
approve-IsComplete_example =
    approve-IsComplete utc_server 1 500 lee_token open_office closed_office lee_approves

bulk_approve-ApprovesEach_example :
    ApprovesEach utc_server 1 lee_token
      (500 ∷ 501 ∷ [])
      open_office
      (bulk_approve utc_server 1 (500 ∷ 501 ∷ []) lee_token open_office).0
      (bulk_approve utc_server 1 (500 ∷ 501 ∷ []) lee_token open_office).1
bulk_approve-ApprovesEach_example =
    bulk_approve-ApprovesEach utc_server 1 (500 ∷ 501 ∷ []) lee_token open_office

settled-IsRefused_example :
    IsRefused (approve utc_server 1 500 lee_token closed_office)
    × IsRefused (reject 1 500 lee_token closed_office)
    × IsRefused (force_approve utc_server 1 500 lee_token closed_office)
    × IsRefused (force_reject 1 500 lee_token closed_office)
    × IsRefused (cancel 1 500 lee_token closed_office)
    × IsRefused (update_request utc_server 1 500 no_payload lee_token closed_office)
settled-IsRefused_example =
    settled-IsRefused utc_server 1 500 lee_token no_payload closed_office
      (kims_request RequestStatus.approved) loaded refl
  where
    loaded : load_request_in_company 1 500 closed_office ≡ ok (kims_request RequestStatus.approved)
    loaded = unfold load_request_in_company in refl

resolve_assignee-IsColleague_example : IsColleague 1 40 open_office lee
resolve_assignee-IsColleague_example =
    resolve_assignee-IsColleague 1 40 open_office none lee (unfold position_approver in refl) asked
  where
    asked : resolve_assignee 1 40 none open_office ≡ ok lee
    asked =
        unfold resolve_assignee position_approver resolve_dept_approver primary_membership
          is_company_org climb department_admin parent_of is_colleague is_member company_approver in
        refl

abbrev monday_shift : Payload
monday_shift = record no_payload {
  date = some 739_300;
  start_time = some 1320;
  end_time = some 360;
}

-- The night shift from 22:00 to 06:00.
abbrev night_shift : Shift
night_shift = record {
  id = 600;
  employee_id = 40;
  organization_id = 5;
  shift_type_id = 7;
  template_id = none;
  start_at = 63_875_599_200_000;
  end_at = 63_875_628_000_000;
  is_confirmed = true;
}

abbrev planned_office : Store
planned_office = record open_office { shifts = night_shift ∷ []; drawn = 601 }

shift_planned : apply_shift_create utc_server 1 40 monday_shift open_office ≡ ok planned_office
unfolding apply_shift_create primary_membership is_company_org plan_shift default_shift_type
    end_after
shift_planned = refl

apply_shift_create-IsDaily_example :
    (s : Shift) × (planned_office.shifts ≡ (s ∷ open_office.shifts))
    × (s.employee_id ≡ 40)
    × IsDaily s
apply_shift_create-IsDaily_example =
    apply_shift_create-IsDaily utc_server 1 40 monday_shift open_office planned_office
      (λ d m n. omega arith) has_times shift_planned
  where
    has_times : HasTimes monday_shift open_office
    has_times = record { start = omega arith; end = omega arith; templates = tt }

approve-missing_example :
    (request : Request) × (load_request_in_company 1 500 open_office ≡ ok request)
    × ((missing 500 (rule_of 1 request open_office) open_office.approvals ≡ 0)
        ⊎ (suc (missing 500 (rule_of 1 request open_office) closed_office.approvals)
            ≡ missing 500 (rule_of 1 request open_office) open_office.approvals))
approve-missing_example =
    approve-missing utc_server 1 500 lee_token open_office closed_office lee_approves
