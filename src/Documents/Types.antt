-- ===== src/Documents/Types.antt =====
-- The rows that the approval services read and write (approval-support.service.ts,
-- documents.helpers.ts, dto/document.dto.ts, apps/api/prisma/schema.prisma). Ids are numbers, and
-- a text is the list of its code points. The lines of a document and the steps of a line are
-- nested in their parents, which is what the foreign keys with `onDelete: Cascade` give.
use able_work.Base.{◌≡◌, ◌↔◌, true, Equality, nat_beq, arith, ℕ, Bool, List, Option, ◌++◌, [], ◌∷◌}
use able_work.Documents.Constants.{DocStatus, StepRole, StepStatus, HistoryAction}

abbrev pub Text : Type 0
Text = List ℕ

-- A row of approval_steps.
pub record Step : Type 0 where
  pub id : ℕ
  pub role : StepRole
  pub assignee_id : ℕ
  pub organization_id : Option ℕ
  pub step_order : ℕ
  pub status : StepStatus
  pub comment : Option Text
  pub is_proxy : Bool
  pub proxy_id : Option ℕ
  pub acted_at : Option ℕ

-- A row of approval_lines.
pub record ApprovalLine : Type 0 where
  pub id : ℕ
  pub is_shared : Bool
  pub shared_line_ref_id : Option ℕ
  pub steps : List Step

-- A row of documents.
pub record Document : Type 0 where
  pub id : ℕ
  pub company_id : ℕ
  pub form_id : ℕ
  pub category_id : Option ℕ
  pub request_id : Option ℕ
  pub doc_number : Option Text
  pub title : Text
  pub content : Text
  pub drafter_id : ℕ
  pub status : DocStatus
  pub submitted_at : Option ℕ
  pub completed_at : Option ℕ
  pub approval_lines : List ApprovalLine

-- A row of approval_history.
pub record ApprovalHistory : Type 0 where
  pub document_id : ℕ
  pub step_id : Option ℕ
  pub actor_id : ℕ
  pub action : HistoryAction
  pub comment : Option Text

pub record ProxySetting : Type 0 where
  pub id : ℕ
  pub principal_id : ℕ
  pub proxy_id : ℕ
  pub start_date : ℕ
  pub end_date : ℕ
  pub is_active : Bool
  pub created_at : ℕ
  pub reason : Option Text

pub record OrganizationDocManager : Type 0 where
  pub organization_id : ℕ
  pub employee_id : ℕ
  pub sort_order : ℕ

pub record Organization : Type 0 where
  pub id : ℕ
  pub company_id : ℕ
  pub is_active : Bool
  pub doc_manager_id : Option ℕ
  pub approver_id : Option ℕ

pub record Employee : Type 0 where
  pub id : ℕ
  pub company_id : ℕ
  pub is_active : Bool
  pub organization_ids : List ℕ
  pub position_ids : List ℕ

-- `StepInput`, what `StepInputSchema` lets through.
pub record StepInput : Type 0 where
  pub role : StepRole
  pub assignee_id : Option ℕ
  pub organization_id : Option ℕ
  pub step_order : ℕ

-- `ResolvedStep`
pub record ResolvedStep : Type 0 where
  pub role : StepRole
  pub assignee_id : ℕ
  pub organization_id : Option ℕ
  pub step_order : ℕ

-- `CreateDocumentDto`, `UpdateDocumentDto`, `SubmitDocumentDto` and a step of `AddCcStepsDto`.
pub record CreateDocument : Type 0 where
  pub form_id : ℕ
  pub category_id : Option ℕ
  pub title : Text
  pub content : Text
  pub steps : Option (List StepInput)

pub record UpdateDocument : Type 0 where
  pub form_id : Option ℕ
  pub category_id : Option (Option ℕ)
  pub title : Option Text
  pub content : Option Text
  pub steps : Option (List StepInput)

pub record SubmitDocument : Type 0 where
  pub steps : Option (List StepInput)
  pub shared_line_id : Option ℕ

pub record CcStep : Type 0 where
  pub role : StepRole
  pub assignee_id : ℕ

-- A row of shared_approval_lines; `none` stands for a JSON column that is no array of step objects.
pub record SharedApprovalLine : Type 0 where
  pub id : ℕ
  pub company_id : ℕ
  pub steps : Option (List StepInput)

pub data Visibility : Type 0 where
  public restricted : Visibility

pub record DocumentForm : Type 0 where
  pub id : ℕ
  pub company_id : ℕ
  pub is_active : Bool
  pub allow_pre_approval : Bool
  pub default_line_id : Option ℕ
  pub abbreviation : Option Text
  pub visibility_scope : Visibility
  pub form_owner_id : Option ℕ

pub data ScopeType : Type 0 where
  organization position : ScopeType

abbrev scope_code : ScopeType → ℕ
scope_code ScopeType.organization = 0
scope_code ScopeType.position = 1

pub scope_type_beq_iff :
    (a b : ScopeType) → (nat_beq (scope_code a) (scope_code b) ≡ true) ↔ (a ≡ b)
scope_type_beq_iff a b = ground arith

instance abbrev pub scope_type_eq : Equality ScopeType
scope_type_eq = record {
  same = λ a b. nat_beq (scope_code a) (scope_code b);
  same_iff = scope_type_beq_iff;
}

pub record FormAccessRule : Type 0 where
  pub form_id : ℕ
  pub scope_type : ScopeType
  pub scope_id : ℕ

pub record DocumentCategory : Type 0 where
  pub id : ℕ
  pub company_id : ℕ
  pub abbreviation : Option Text

pub record DocumentNumberRule : Type 0 where
  pub id : ℕ
  pub company_id : ℕ
  pub form_id : ℕ
  pub pattern_text : Text
  pub current_seq : ℕ
  pub reset_yearly : Bool

-- A row of requests, with the document that it is linked to.
pub record Request : Type 0 where
  pub id : ℕ
  pub company_id : ℕ
  pub document_id : Option ℕ

-- What the services emit, with the payload fields that tell the events apart.
pub data Event : Type 0 where
  document_submitted document_approved document_rejected : (document_id drafter_id : ℕ) → Event
  document_recalled document_bounced document_step_approved : (document_id drafter_id : ℕ) → Event
  document_step_pending : (document_id assignee_id : ℕ) → Event

-- `AuditService.record` with the fields that the approval services give.
pub data AuditAction : Type 0 where
  document_approved document_approve_step document_reject : AuditAction

pub record AuditLog : Type 0 where
  pub company_id : ℕ
  pub actor_id : ℕ
  pub action : AuditAction
  pub target_id : ℕ

-- The tables, and the logs of what was emitted and audited, latest first. `drawn` counts the ids
-- that the database has generated.
pub record Store : Type 0 where
  pub documents : List Document
  pub histories : List ApprovalHistory
  pub events : List Event
  pub audits : List AuditLog
  pub proxy_settings : List ProxySetting
  pub doc_managers : List OrganizationDocManager
  pub organizations : List Organization
  pub employees : List Employee
  pub shared_lines : List SharedApprovalLine
  pub forms : List DocumentForm
  pub access_rules : List FormAccessRule
  pub categories : List DocumentCategory
  pub number_rules : List DocumentNumberRule
  pub requests : List Request
  pub drawn : ℕ

-- What a call takes from outside: the clock (`now`, the start of the current UTC day, the start,
-- the digits and the month of the current local year), the ids that the database generates, and
-- the company setting that the call reads.
pub record Env : Type 0 where
  pub now : ℕ
  pub today : ℕ
  pub year : ℕ
  pub year_start : ℕ
  pub month : ℕ
  pub uuid : ℕ → ℕ
  pub enable_prev_step_reject : Bool

-- `approvalLines.flatMap((line) => line.steps)`
abbrev pub flat_steps : List ApprovalLine → List Step
flat_steps [] = []
flat_steps (l ∷ ls) = l.steps ++ flat_steps ls

abbrev pub steps_of : Document → List Step
steps_of d = flat_steps d.approval_lines
