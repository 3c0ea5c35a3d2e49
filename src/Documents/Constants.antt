-- ===== src/Documents/Constants.antt =====
-- documents.constants.ts: the roles and states of approval, and the groups of them that the
-- services test for.
use able_work.Base.{ℕ, ◌≡◌, ◌↔◌, true, List, [], ◌∷◌, ◌++◌, Equality, nat_beq, arith}

pub data DocStatus : Type 0 where
  draft pending approved rejected recalled cancelled : DocStatus

pub data StepRole : Type 0 where
  approver agreement reference viewer receiver dept_collaborator dept_receiver : StepRole

pub data StepStatus : Type 0 where
  waiting pending approved proxy_approved pre_approved rejected : StepStatus
  returned cancelled skipped viewed received bounced : StepStatus

pub data HistoryAction : Type 0 where
  submit recall approve proxy_approve agree reject pre_approve : HistoryAction
  return_prev cancel_approval view receive dept_collab bounce opinion : HistoryAction

abbrev doc_status_code : DocStatus → ℕ
doc_status_code DocStatus.draft = 0
doc_status_code DocStatus.pending = 1
doc_status_code DocStatus.approved = 2
doc_status_code DocStatus.rejected = 3
doc_status_code DocStatus.recalled = 4
doc_status_code DocStatus.cancelled = 5

abbrev step_role_code : StepRole → ℕ
step_role_code StepRole.approver = 0
step_role_code StepRole.agreement = 1
step_role_code StepRole.reference = 2
step_role_code StepRole.viewer = 3
step_role_code StepRole.receiver = 4
step_role_code StepRole.dept_collaborator = 5
step_role_code StepRole.dept_receiver = 6

abbrev step_status_code : StepStatus → ℕ
step_status_code StepStatus.waiting = 0
step_status_code StepStatus.pending = 1
step_status_code StepStatus.approved = 2
step_status_code StepStatus.proxy_approved = 3
step_status_code StepStatus.pre_approved = 4
step_status_code StepStatus.rejected = 5
step_status_code StepStatus.returned = 6
step_status_code StepStatus.cancelled = 7
step_status_code StepStatus.skipped = 8
step_status_code StepStatus.viewed = 9
step_status_code StepStatus.received = 10
step_status_code StepStatus.bounced = 11

pub doc_status_beq_iff :
    (a b : DocStatus) → (nat_beq (doc_status_code a) (doc_status_code b) ≡ true) ↔ (a ≡ b)
doc_status_beq_iff a b = ground arith

pub step_role_beq_iff :
    (a b : StepRole) → (nat_beq (step_role_code a) (step_role_code b) ≡ true) ↔ (a ≡ b)
step_role_beq_iff a b = ground arith

pub step_status_beq_iff :
    (a b : StepStatus) → (nat_beq (step_status_code a) (step_status_code b) ≡ true) ↔ (a ≡ b)
step_status_beq_iff a b = ground arith

-- The constants are strings there, which `===` compares.
instance abbrev pub doc_status_eq : Equality DocStatus
doc_status_eq = record {
  same = λ a b. nat_beq (doc_status_code a) (doc_status_code b);
  same_iff = doc_status_beq_iff;
}

instance abbrev pub step_role_eq : Equality StepRole
step_role_eq = record {
  same = λ a b. nat_beq (step_role_code a) (step_role_code b);
  same_iff = step_role_beq_iff;
}

instance abbrev pub step_status_eq : Equality StepStatus
step_status_eq = record {
  same = λ a b. nat_beq (step_status_code a) (step_status_code b);
  same_iff = step_status_beq_iff;
}

abbrev pub approval_flow_roles : List StepRole
approval_flow_roles = StepRole.approver ∷ StepRole.agreement ∷ StepRole.dept_collaborator ∷ []

abbrev pub receiver_roles : List StepRole
receiver_roles = StepRole.receiver ∷ StepRole.dept_receiver ∷ []

abbrev pub dept_roles : List StepRole
dept_roles = StepRole.dept_collaborator ∷ StepRole.dept_receiver ∷ []

abbrev pub cancel_on_reject_roles : List StepRole
cancel_on_reject_roles = approval_flow_roles ++ receiver_roles

abbrev pub acted_step_statuses : List StepStatus
acted_step_statuses = StepStatus.approved ∷ StepStatus.proxy_approved ∷ StepStatus.pre_approved ∷ []
