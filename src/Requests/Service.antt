-- ===== src/Requests/Service.antt =====
-- requests.service.ts: the submission of a request, its change and its cancellation by the requester.
-- Names, titles, times and events are left out.
use able_work.Base.{
  ℕ, ◌+◌, Bool, true, false, ◌&&◌, Option, none, some, List, [], ◌∷◌, if◌then◌else◌, ◌==◌, nat_eq,
  is_value, find, filter, any, map, head?, includes, sort_by, ascending, descending,
}
use able_work.Access.{JwtPayload}
use able_work.Errors.{Error, Result, ok, ◌>>=◌, ◌>>◌, guard}
use able_work.Documents.Constants.{DocStatus}
use able_work.Leaves.Types.{Employee}
use able_work.Leaves.Groups.{found_or}
use able_work.Requests.Types.{
  RequestType, RequestStatus, Payload, Request, ApprovalRule, RequestStep, RequestDocument,
  DocumentForm, Store, Env, request_type_eq,
}
use able_work.Requests.LeaveEffects.{validate_leave_create_payload}
use able_work.Requests.ShiftEffects.{validate_shift_create_payload}
use able_work.Requests.Line.{line_steps}
use able_work.Requests.Effects.{apply_approved_request}
use able_work.Requests.Approval.{
  load_request_in_company, assert_request_pending, set_request_status, set_document_status,
}

unfoldable pub cancel : ℕ → ℕ → JwtPayload → Store → Result Store
unfolding load_request_in_company assert_request_pending set_request_status set_document_status
cancel company_id request_id requester st = do
  request ← load_request_in_company company_id request_id st
  guard (request.requester_id == requester.employee_id) Error.request_cancel_forbidden
  assert_request_pending request
  ok (
      set_document_status request.document_id DocStatus.cancelled
        (set_request_status request_id RequestStatus.cancelled st))

-- The checks before a request of a type is taken.
unfoldable pub validate_payload : Env → ℕ → ℕ → RequestType → Payload → Store → Result (Unit {0})
unfolding validate_leave_create_payload validate_shift_create_payload
validate_payload env company_id employee_id request_type payload st =
    if request_type == RequestType.leave_create
    then validate_leave_create_payload env company_id employee_id payload st.leave
    else if request_type == RequestType.shift_create
    then validate_shift_create_payload company_id payload st
    else ok tt

-- The content of the linked document follows the payload.
unfoldable pub set_document_content : Option ℕ → Payload → Store → Store
set_document_content none payload st = st
set_document_content (some document_id) payload st = record st {
  documents =
      map
        (λ (d : RequestDocument). if d.id == document_id then record d { content = payload } else d)
        st.documents;
}

unfoldable pub update_request : Env → ℕ → ℕ → Payload → JwtPayload → Store → Result Store
unfolding load_request_in_company assert_request_pending validate_payload set_document_content
update_request env company_id request_id payload requester st = do
  request ← load_request_in_company company_id request_id st
  guard (request.requester_id == requester.employee_id) Error.request_edit_forbidden
  assert_request_pending request
  validate_payload env company_id requester.employee_id request.request_type payload st
  ok (
      set_document_content request.document_id payload (record st {
        requests =
            map (λ (r : Request). if r.id == request_id then record r { payload = payload } else r)
              st.requests;
      }))

pub record CreateRequest : Type 0 where
  pub request_type : RequestType
  pub custom_type_id : Option ℕ
  pub payload : Payload

-- A scope that is missing or empty takes in everyone.
unfoldable pub in_scope : Option (List ℕ) → List ℕ → Bool
unfolding includes
in_scope none ids = true
in_scope (some []) ids = true
in_scope (some (x ∷ xs)) ids = any (includes (x ∷ xs)) ids

unfoldable pub applicable_rule : ℕ → CreateRequest → Employee → Store → Option ApprovalRule
unfolding in_scope sort_by
applicable_rule company_id dto employee st =
    let org_ids =
      map (λ m. m.organization_id) (filter (λ m. m.employee_id == employee.id) st.memberships) in
    find
      (λ r. in_scope r.scope_org_ids org_ids && in_scope r.scope_position_ids employee.position_ids)
      (sort_by (descending (λ r. r.priority)) (
        filter
          (λ r.
            r.company_id == company_id
            && r.request_type == dto.request_type
            && r.is_active
            && (elim dto.custom_type_id [ none ↦ true | some c ↦ is_value r.custom_type_id c ]))
          st.rules))

-- `document_forms.category` of a request type, the categories being numbered.
unfoldable pub category_of : RequestType → ℕ
category_of RequestType.leave_create = 0
category_of RequestType.leave_modify = 0
category_of RequestType.leave_delete = 0
category_of RequestType.shift_create = 1
category_of RequestType.shift_modify = 1
category_of RequestType.shift_delete = 1
category_of RequestType.attendance_edit = 2
category_of RequestType.attendance_create = 2
category_of RequestType.attendance_delete = 2
category_of RequestType.device_change = 3
category_of RequestType.offsite_work = 4
category_of RequestType.custom = 5

-- The request as a row, before its document.
unfoldable pub add_request : Request → Store → Store
add_request request st = record st { requests = request ∷ st.requests; drawn = st.drawn + 1 }

-- The document of a request, which is linked to it.
unfoldable pub add_document : Request → DocumentForm → List RequestStep → Store → Store
add_document request form steps st = record st {
  documents =
      record {
        id = st.drawn;
        company_id = request.company_id;
        form_id = form.id;
        drafter_id = request.requester_id;
        content = request.payload;
        status = DocStatus.pending;
        steps = steps;
      }
      ∷ st.documents;
  requests =
      map
        (λ (r : Request).
          if r.id == request.id then record r { document_id = some st.drawn } else r)
        st.requests;
  drawn = st.drawn + 1;
}

-- The active form of the request's category that sorts first.
unfoldable pub form_of : ℕ → Request → Store → Option DocumentForm
unfolding category_of sort_by
form_of company_id request st = head? (
    sort_by (ascending (λ f. f.sort_order)) (
      filter
        (λ f.
          f.company_id == company_id
          && f.category == category_of request.request_type
          && f.is_active)
        st.forms))

-- Without a form the request stays pending and has no document.
unfoldable pub submit_request : ℕ → Request → Option ApprovalRule → Store → Result Store
unfolding form_of line_steps add_document
submit_request company_id request rule st = elim (form_of company_id request st) [
  | none ↦ ok st
  | some form ↦ line_steps company_id request.requester_id rule st >>= λ steps.
      ok (add_document request form steps st)
]

abbrev pub is_auto : Option ApprovalRule → Bool
is_auto none = false
is_auto (some rule) = rule.is_auto_approve

abbrev rule_id_of : Option ApprovalRule → Option ℕ
rule_id_of none = none
rule_id_of (some rule) = some rule.id

-- The row of a new request, with the rule that applied to it.
abbrev pub new_request : ℕ → CreateRequest → JwtPayload → Option ApprovalRule → Store → Request
new_request company_id dto requester rule st = record {
  id = st.drawn;
  company_id = company_id;
  requester_id = requester.employee_id;
  request_type = dto.request_type;
  payload = dto.payload;
  status = RequestStatus.pending;
  document_id = none;
  rule_id = rule_id_of rule;
}

unfoldable pub create_request : Env → ℕ → CreateRequest → JwtPayload → Store → Result Store
unfolding validate_payload applicable_rule add_request set_request_status apply_approved_request
    submit_request
create_request env company_id dto requester st = do
  validate_payload env company_id requester.employee_id dto.request_type dto.payload st
  employee ←
      found_or
        (find (λ (e : Employee). e.id == requester.employee_id && e.company_id == company_id)
          st.leave.employees)
        Error.employee_not_found
  let rule = applicable_rule company_id dto employee st
  let request = new_request company_id dto requester rule st
  if is_auto rule
      then apply_approved_request env company_id request
          (set_request_status request.id RequestStatus.approved (add_request request st))
      else submit_request company_id request rule (add_request request st)
