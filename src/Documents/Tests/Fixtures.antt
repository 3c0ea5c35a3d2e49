-- ===== src/Documents/Tests/Fixtures.antt =====
-- A small store of the approval services, for the runs and the theorems at inputs.
use able_work.Base.{ℕ, ◌+◌, refl, true, false, none, List, [], ◌∷◌, Memᴰ, All-get, arith}
use able_work.Access.{JwtPayload, AccessLevel}
use able_work.Errors.{Result, ok, err}
use able_work.Documents.Constants.{DocStatus, StepRole, StepStatus}
use able_work.Documents.Types.{Step, Document, DocumentForm, Visibility, Store, Env}
use able_work.Documents.Store.{find_document}
use able_work.Documents.Helpers.{is_flow, is_receiver}
use able_work.Documents.Progress.{is_approved, awaits}
use able_work.Documents.Flow.{
  AtFrontier, PendingFlow, HoldsPending, HoldsSound, IsSettled, is_settled,
}
use able_work.Documents.Flow.Distinct.{AllDiffer, AllDiffer-HasUniqueIds, AllDiffer-HasUniqueOrders}

abbrev pub step_at : ℕ → StepRole → ℕ → ℕ → StepStatus → Step
step_at id role assignee order status = record {
  id = id;
  role = role;
  assignee_id = assignee;
  organization_id = none;
  step_order = order;
  status = status;
  comment = none;
  is_proxy = false;
  proxy_id = none;
  acted_at = none;
}

abbrev pub two_step_line : List Step
two_step_line =
    step_at 1 StepRole.approver 21 1 StepStatus.pending
    ∷ step_at 2 StepRole.agreement 22 2 StepStatus.waiting
    ∷ step_at 3 StepRole.receiver 23 3 StepStatus.waiting
    ∷ step_at 4 StepRole.viewer 24 4 StepStatus.pending
    ∷ []

abbrev pub document_with : DocStatus → List Step → Document
document_with status steps = record {
  id = 10;
  company_id = 1;
  form_id = 5;
  category_id = none;
  request_id = none;
  doc_number = none;
  title = [];
  content = [];
  drafter_id = 20;
  status = status;
  submitted_at = none;
  completed_at = none;
  approval_lines =
      record { id = 100; is_shared = false; shared_line_ref_id = none; steps = steps } ∷ [];
}

abbrev pub store_with : List Document → Store
store_with documents = record {
  documents = documents;
  histories = [];
  events = [];
  audits = [];
  proxy_settings = [];
  doc_managers = [];
  organizations = [];
  employees = [];
  shared_lines = [];
  forms = [];
  access_rules = [];
  categories = [];
  number_rules = [];
  requests = [];
  drawn = 0;
}

abbrev pub env : Env
env = record {
  now = 1000;
  today = 900;
  year = 2026;
  year_start = 500;
  month = 6;
  uuid = λ n. 1000 + n;
  enable_prev_step_reject = true;
}

abbrev pub user : ℕ → JwtPayload
user id = record { employee_id = id; company_id = 1; access_level = AccessLevel.employee }

abbrev pub or_empty : Result Store → Store
or_empty (ok st) = st
or_empty (err e) = store_with []

abbrev pub pending_store : Store
pending_store = store_with (document_with DocStatus.pending two_step_line ∷ [])

pub two_step_line-AllDiffer : AllDiffer two_step_line
unfolding is_flow
two_step_line-AllDiffer = ground arith

pub two_step_line-PendingFlow : PendingFlow 1 two_step_line
unfolding is_flow is_approved awaits
two_step_line-PendingFlow = record {
  unique_ids = AllDiffer-HasUniqueIds two_step_line two_step_line-AllDiffer;
  unique_orders = AllDiffer-HasUniqueOrders two_step_line two_step_line-AllDiffer;
  frontier = λ s m. All-get (AtFrontier 1) two_step_line (ground arith) m;
  current = (step_at 1 StepRole.approver 21 1 StepStatus.pending, Memᴰ.head refl, refl, refl);
}

pub pending_store-HoldsPending : HoldsPending 1 10 1 pending_store
unfolding find_document
pending_store-HoldsPending =
    (document_with DocStatus.pending two_step_line, refl, refl, two_step_line-PendingFlow)

pub pending_store-HoldsSound : HoldsSound 1 10 pending_store
unfolding find_document
pending_store-HoldsSound =
    (document_with DocStatus.pending two_step_line, refl, (1, two_step_line-PendingFlow))

-- The same line after its first approval.
abbrev pub second_turn_line : List Step
second_turn_line =
    step_at 1 StepRole.approver 21 1 StepStatus.approved
    ∷ step_at 2 StepRole.agreement 22 2 StepStatus.pending
    ∷ step_at 3 StepRole.receiver 23 3 StepStatus.waiting
    ∷ []

abbrev pub second_turn_store : Store
second_turn_store = store_with (document_with DocStatus.pending second_turn_line ∷ [])

second_turn_line-AllDiffer : AllDiffer second_turn_line
unfolding is_flow
second_turn_line-AllDiffer = ground arith

second_turn_line-PendingFlow : PendingFlow 2 second_turn_line
unfolding is_flow is_approved awaits
second_turn_line-PendingFlow = record {
  unique_ids = AllDiffer-HasUniqueIds second_turn_line second_turn_line-AllDiffer;
  unique_orders = AllDiffer-HasUniqueOrders second_turn_line second_turn_line-AllDiffer;
  frontier = λ s m. All-get (AtFrontier 2) second_turn_line (ground arith) m;
  current = (
    step_at 2 StepRole.agreement 22 2 StepStatus.pending,
    Memᴰ.tail (Memᴰ.head refl),
    refl,
    refl,
  );
}

pub second_turn_store-HoldsPending : HoldsPending 1 10 2 second_turn_store
unfolding find_document
second_turn_store-HoldsPending =
    (document_with DocStatus.pending second_turn_line, refl, refl, second_turn_line-PendingFlow)

-- The line of an approved document, with a receiver and a receiving department.
abbrev pub done_line : List Step
done_line =
    step_at 1 StepRole.approver 21 1 StepStatus.approved
    ∷ step_at 3 StepRole.receiver 23 3 StepStatus.pending
    ∷ step_at 5 StepRole.dept_receiver 25 4 StepStatus.pending
    ∷ []

abbrev pub done_store : Store
done_store = store_with (document_with DocStatus.approved done_line ∷ [])

done_line-AllDiffer : AllDiffer done_line
unfolding is_flow
done_line-AllDiffer = ground arith

done_line-IsSettled : (s : Step) → Memᴰ s done_line → IsSettled s
unfolding is_flow is_receiver is_settled
done_line-IsSettled s m = All-get IsSettled done_line (ground arith) m

pub done_store-HoldsSound : HoldsSound 1 10 done_store
unfolding find_document
done_store-HoldsSound = (
  document_with DocStatus.approved done_line,
  refl,
  (AllDiffer-HasUniqueIds done_line done_line-AllDiffer, done_line-IsSettled),
)

-- A form that allows pre-approval.
abbrev pub lenient_form : DocumentForm
lenient_form = record {
  id = 5;
  company_id = 1;
  is_active = true;
  allow_pre_approval = true;
  default_line_id = none;
  abbreviation = none;
  visibility_scope = Visibility.public;
  form_owner_id = none;
}

abbrev pub lenient_store : Store
lenient_store = record pending_store { forms = lenient_form ∷ [] }

pub lenient_store-HoldsPending : HoldsPending 1 10 1 lenient_store
unfolding find_document
lenient_store-HoldsPending =
    (document_with DocStatus.pending two_step_line, refl, refl, two_step_line-PendingFlow)
