-- ===== src/Requests/Types.antt =====
-- The rows that the requests module reads and writes (apps/api/prisma/schema.prisma), the payload of
-- a request, and what the server's clock and time zone give. The payload is JSON there: a record
-- here, each field of which may be missing. A date is a day number and a time of day its minutes.
use able_work.Base.{ℕ, Bool, true, Option, List, Equality, nat_beq, ◌≡◌, ◌↔◌, arith}
use able_work.Documents.Constants.{DocStatus, StepStatus}
use able_work.Leaves.Types.{LeaveStore}

pub data RequestType : Type 0 where
  leave_create leave_modify leave_delete : RequestType
  shift_create shift_modify shift_delete : RequestType
  attendance_edit attendance_create attendance_delete : RequestType
  device_change offsite_work custom : RequestType

abbrev request_type_code : RequestType → ℕ
request_type_code RequestType.leave_create = 0
request_type_code RequestType.leave_modify = 1
request_type_code RequestType.leave_delete = 2
request_type_code RequestType.shift_create = 3
request_type_code RequestType.shift_modify = 4
request_type_code RequestType.shift_delete = 5
request_type_code RequestType.attendance_edit = 6
request_type_code RequestType.attendance_create = 7
request_type_code RequestType.attendance_delete = 8
request_type_code RequestType.device_change = 9
request_type_code RequestType.offsite_work = 10
request_type_code RequestType.custom = 11

abbrev request_type_beq : RequestType → RequestType → Bool
request_type_beq a b = nat_beq (request_type_code a) (request_type_code b)

pub request_type_beq_iff : (a b : RequestType) → (request_type_beq a b ≡ true) ↔ (a ≡ b)
request_type_beq_iff a b = ground arith

instance abbrev pub request_type_eq : Equality RequestType
request_type_eq = record { same = request_type_beq; same_iff = request_type_beq_iff }

pub data RequestStatus : Type 0 where
  pending approved rejected cancelled : RequestStatus

abbrev request_status_code : RequestStatus → ℕ
request_status_code RequestStatus.pending = 0
request_status_code RequestStatus.approved = 1
request_status_code RequestStatus.rejected = 2
request_status_code RequestStatus.cancelled = 3

abbrev request_status_beq : RequestStatus → RequestStatus → Bool
request_status_beq a b = nat_beq (request_status_code a) (request_status_code b)

pub request_status_beq_iff : (a b : RequestStatus) → (request_status_beq a b ≡ true) ↔ (a ≡ b)
request_status_beq_iff a b = ground arith

instance abbrev pub request_status_eq : Equality RequestStatus
request_status_eq = record { same = request_status_beq; same_iff = request_status_beq_iff }

pub record Payload : Type 0 where
  pub leave_type_id : Option ℕ
  pub leave_id : Option ℕ
  pub start_date : Option ℕ
  pub end_date : Option ℕ
  pub start_time : Option ℕ
  pub end_time : Option ℕ
  pub date : Option ℕ
  pub template_id : Option ℕ
  pub shift_id : Option ℕ
  pub attendance_id : Option ℕ
  pub clock_in_at : Option ℕ
  pub clock_out_at : Option ℕ
  pub new_device_id : Option ℕ

pub record Request : Type 0 where
  pub id : ℕ
  pub company_id : ℕ
  pub requester_id : ℕ
  pub request_type : RequestType
  pub payload : Payload
  pub status : RequestStatus
  pub document_id : Option ℕ
  pub rule_id : Option ℕ

pub data ApprovalStatus : Type 0 where
  approved rejected force_approved force_rejected : ApprovalStatus

abbrev approval_status_code : ApprovalStatus → ℕ
approval_status_code ApprovalStatus.approved = 0
approval_status_code ApprovalStatus.rejected = 1
approval_status_code ApprovalStatus.force_approved = 2
approval_status_code ApprovalStatus.force_rejected = 3

abbrev approval_status_beq : ApprovalStatus → ApprovalStatus → Bool
approval_status_beq a b = nat_beq (approval_status_code a) (approval_status_code b)

pub approval_status_beq_iff : (a b : ApprovalStatus) → (approval_status_beq a b ≡ true) ↔ (a ≡ b)
approval_status_beq_iff a b = ground arith

instance abbrev pub approval_status_eq : Equality ApprovalStatus
approval_status_eq = record { same = approval_status_beq; same_iff = approval_status_beq_iff }

pub record RequestApproval : Type 0 where
  pub request_id : ℕ
  pub round : ℕ
  pub approver_id : ℕ
  pub status : ApprovalStatus

pub record ApprovalRuleDetail : Type 0 where
  pub round : ℕ
  pub required_count : ℕ
  pub approver_position_id : Option ℕ
  pub sort_order : ℕ

pub record ApprovalRule : Type 0 where
  pub id : ℕ
  pub company_id : ℕ
  pub request_type : RequestType
  pub custom_type_id : Option ℕ
  pub priority : ℕ
  pub scope_org_ids : Option (List ℕ)
  pub scope_position_ids : Option (List ℕ)
  pub max_approval_rounds : ℕ
  pub is_auto_approve : Bool
  pub is_active : Bool
  pub details : List ApprovalRuleDetail

-- A step of the line of a request's document: `round` is n where the role is `APPROVER_Rn`.
pub record RequestStep : Type 0 where
  pub round : ℕ
  pub assignee_id : ℕ
  pub step_order : ℕ
  pub is_parallel : Bool
  pub status : StepStatus

pub record RequestDocument : Type 0 where
  pub id : ℕ
  pub company_id : ℕ
  pub form_id : ℕ
  pub drafter_id : ℕ
  pub content : Payload
  pub status : DocStatus
  pub steps : List RequestStep

pub record DocumentForm : Type 0 where
  pub id : ℕ
  pub company_id : ℕ
  pub category : ℕ
  pub sort_order : ℕ
  pub is_active : Bool

pub record EmployeeOrganization : Type 0 where
  pub employee_id : ℕ
  pub organization_id : ℕ
  pub is_primary : Bool

pub record Organization : Type 0 where
  pub id : ℕ
  pub company_id : ℕ
  pub parent_id : Option ℕ

pub record ShiftType : Type 0 where
  pub id : ℕ
  pub company_id : ℕ
  pub is_active : Bool

pub record ShiftTemplate : Type 0 where
  pub id : ℕ
  pub company_id : ℕ
  pub shift_type_id : ℕ
  pub start_time : ℕ
  pub end_time : ℕ
  pub is_active : Bool

pub record Shift : Type 0 where
  pub id : ℕ
  pub employee_id : ℕ
  pub organization_id : ℕ
  pub shift_type_id : ℕ
  pub template_id : Option ℕ
  pub start_at : ℕ
  pub end_at : ℕ
  pub is_confirmed : Bool

pub record Attendance : Type 0 where
  pub id : ℕ
  pub employee_id : ℕ
  pub clock_in_at : ℕ
  pub clock_out_at : Option ℕ
  pub is_confirmed : Bool

-- The rows of each table stand in the order of their creation where the code asks for it.
pub record Store : Type 0 where
  pub leave : LeaveStore
  pub requests : List Request
  pub approvals : List RequestApproval
  pub rules : List ApprovalRule
  pub documents : List RequestDocument
  pub forms : List DocumentForm
  pub memberships : List EmployeeOrganization
  pub organizations : List Organization
  pub shift_types : List ShiftType
  pub shift_templates : List ShiftTemplate
  pub shifts : List Shift
  pub attendances : List Attendance
  pub drawn : ℕ

-- The server's time zone: `getFullYear()` of an instant, the instant of a date and a time of day as
-- `new Date('…T…:00')` reads it, and the date of an instant in UTC (`toISOString().slice(0, 10)`)
-- needs none.
pub record Env : Type 0 where
  pub local_year : ℕ → ℕ
  pub local_time : ℕ → ℕ → ℕ
