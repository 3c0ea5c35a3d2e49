-- ===== src/Documents/Tests.antt =====
-- Runs of the approval services on small stores, and the theorems on them at these inputs.
pub mod Fixtures
use able_work.Base.{
  ◌∙◌, ap, subst, arith, true, Option, map, ℕ, ◌+◌, List, arith, ℕ, ◌+◌, ◌≡◌, refl, subst, some,
  true, false, none, List, [], ◌∷◌, Memᴰ, All-get, arith, sort_by, insert_sorted, includes, ◌||◌,
}
use able_work.Documents.Constants.{receiver_roles, DocStatus, StepRole, StepStatus}
use able_work.Documents.Types.{
  Employee, StepInput, SubmitDocument, Document, ResolvedStep, Step, Store, steps_of,
}
use able_work.Documents.Helpers.{is_flow}
use able_work.Documents.Support.{resolve_actor, loaded_steps, order_steps}
use able_work.Documents.Progress.{is_approved}
use able_work.Documents.Store.{find_document}
use able_work.Documents.Actions.Approve.{approve_flow_step}
use able_work.Documents.Actions.Reject.{reject, pre_approve}
use able_work.Documents.Actions.Return.{return_to_previous, cancel_approval}
use able_work.Documents.Actions.Receive.{view, receive, bounce}
use able_work.Documents.Flow.{HoldsPending, HoldsSound, Advances, HoldsSettled, HoldsStopped}
use able_work.Documents.Soundness.Approve.{approve_flow_step-Advances}
use able_work.Documents.Soundness.Reject.{reject-HoldsStopped}
use able_work.Documents.Soundness.PreApprove.{pre_approve-HoldsSettled}
use able_work.Documents.Soundness.Return.{Returns, return_to_previous-Returns}
use able_work.Documents.Soundness.Cancel.{Reopens, cancel_approval-Reopens, ApprovesInFlow}
use able_work.Documents.Soundness.Aside.{Marks, view-HoldsSound, receive-Marks, bounce-Marks}
use able_work.Documents.Steps.Submit.{run_submit_transaction, first_flow_order}
use able_work.Documents.Flow.Start.{GeneratesDistinct, DistinctOrders}
use able_work.Documents.Soundness.Submit.{run_submit_transaction-HoldsPending}
use able_work.Documents.Support.Authority.{IsAuthorized, resolve_actor-IsAuthorized}
use able_work.Documents.Drafts.{default_line_of, submit, recall}
use able_work.Documents.Soundness.Closed.{NoneLeadsTo, actions-NoneLeadsTo, Recalls, recall-Recalls}
use able_work.Errors.{ok, ok-injective}
use able_work.Documents.Steps.{Choice, resolve_submit_steps, resolve_steps}
use able_work.Documents.Soundness.Submission.{ResolvesApart, submit-HoldsPending}
use able_work.Documents.Tests.Fixtures.{
  step_at, env, user, or_empty, store_with, document_with, pending_store, pending_store-HoldsSound,
  pending_store-HoldsPending, second_turn_line, second_turn_store, second_turn_store-HoldsPending,
  done_store, done_store-HoldsSound, lenient_store, lenient_store-HoldsPending,
}

abbrev approved_store : Store
approved_store =
    or_empty (approve_flow_step env 1 10 1 none (user 21) StepRole.approver pending_store)

approve_flow_step-Advances_example : Advances 1 10 1 approved_store
unfolding approve_flow_step loaded_steps order_steps sort_by insert_sorted
approve_flow_step-Advances_example =
    approve_flow_step-Advances env 1 10 1 none (user 21) StepRole.approver pending_store
      (unfold is_flow in refl) pending_store-HoldsPending refl

abbrev rejected_store : Store
rejected_store = or_empty (reject env 1 10 1 none (user 21) pending_store)

reject-HoldsStopped_example : HoldsStopped 1 10 rejected_store
unfolding reject loaded_steps order_steps sort_by insert_sorted
reject-HoldsStopped_example =
    reject-HoldsStopped env 1 10 1 none (user 21) pending_store pending_store-HoldsPending refl

abbrev pre_approved_store : Store
pre_approved_store = or_empty (pre_approve env 1 10 1 none (user 21) lenient_store)

pre_approve-HoldsSettled_example : HoldsSettled 1 10 pre_approved_store
unfolding pre_approve loaded_steps order_steps sort_by insert_sorted
pre_approve-HoldsSettled_example =
    pre_approve-HoldsSettled env 1 10 1 none (user 21) lenient_store lenient_store-HoldsPending refl

abbrev returned_store : Store
returned_store = or_empty (return_to_previous env 1 10 2 none (user 22) second_turn_store)

return_to_previous-Returns_example : Returns 1 10 2 2 second_turn_store returned_store
unfolding return_to_previous loaded_steps order_steps sort_by insert_sorted
return_to_previous-Returns_example =
    return_to_previous-Returns env 1 10 2 none (user 22) second_turn_store
      second_turn_store-HoldsPending refl

second_turn_store-ApprovesInFlow : ApprovesInFlow 1 10 second_turn_store
unfolding find_document is_flow is_approved
second_turn_store-ApprovesInFlow d e s m a =
    All-get (λ (x : Step). is_approved x.status ≡ true → is_flow x.role ≡ true) second_turn_line
      (ground arith) (subst (λ l. Memᴰ s l) (steps_eq e) m) a
  where
    steps_eq :
        some (document_with DocStatus.pending second_turn_line) ≡ some d
        → steps_of d ≡ second_turn_line
    steps_eq q = cc q

abbrev reopened_store : Store
reopened_store = or_empty (cancel_approval 1 10 1 none (user 21) second_turn_store)

cancel_approval-Reopens_example : Reopens 1 10 1 2 second_turn_store reopened_store
unfolding cancel_approval loaded_steps order_steps sort_by insert_sorted
cancel_approval-Reopens_example =
    cancel_approval-Reopens 1 10 1 none (user 21) second_turn_store second_turn_store-ApprovesInFlow
      second_turn_store-HoldsPending refl

abbrev viewed_store : Store
viewed_store = or_empty (view env 1 10 4 none (user 24) pending_store)

view-HoldsSound_example : HoldsSound 1 10 viewed_store
unfolding view loaded_steps order_steps sort_by insert_sorted
view-HoldsSound_example =
    view-HoldsSound env 1 10 4 none (user 24) pending_store pending_store-HoldsSound refl

abbrev received_store : Store
received_store = or_empty (receive env 1 10 3 none (user 23) done_store)

receive-Marks_example :
    Marks receiver_roles StepStatus.received env 1 10 3 none (user 23) done_store received_store
unfolding receive loaded_steps order_steps sort_by insert_sorted
receive-Marks_example = receive-Marks env 1 10 3 none (user 23) done_store refl

abbrev bounced_store : Store
bounced_store = or_empty (bounce env 1 10 5 none (user 25) done_store)

bounce-Marks_example :
    Marks
      (StepRole.dept_receiver ∷ [])
      StepStatus.bounced
      env
      1
      10
      5
      none
      (user 25)
      done_store
      bounced_store
unfolding bounce loaded_steps order_steps sort_by insert_sorted
bounce-Marks_example = bounce-Marks env 1 10 5 none (user 25) done_store refl

-- A submission of the draft with an approver, an agreement and a receiver.
abbrev given_steps : List ResolvedStep
given_steps =
    record { role = StepRole.agreement; assignee_id = 22; organization_id = none; step_order = 2 }
    ∷ record { role = StepRole.approver; assignee_id = 21; organization_id = none; step_order = 1 }
    ∷ record { role = StepRole.receiver; assignee_id = 23; organization_id = none; step_order = 1 }
    ∷ []

abbrev draft : Document
draft = document_with DocStatus.draft []

abbrev draft_store : Store
draft_store = store_with (draft ∷ [])

abbrev submitted_store : Store
submitted_store =
    or_empty (run_submit_transaction env 1 draft given_steps none (user 20) draft_store)

env-GeneratesDistinct : GeneratesDistinct env
env-GeneratesDistinct a b e = omega arith

given_steps-DistinctOrders : DistinctOrders given_steps
unfolding is_flow
given_steps-DistinctOrders = ground arith

run_submit_transaction-HoldsPending_example : HoldsPending 1 10 1 submitted_store
unfolding run_submit_transaction find_document sort_by insert_sorted
run_submit_transaction-HoldsPending_example =
    run_submit_transaction-HoldsPending env env-GeneratesDistinct 1 draft given_steps
      given_steps-DistinctOrders (unfold first_flow_order in refl) none (user 20) draft_store refl
      refl

-- Two approvers of one order are both pending from the start. When the first approves, nothing
-- waits, and the document is approved with the second step still pending.
abbrev twin_line : List Step
twin_line =
    step_at 1 StepRole.approver 21 1 StepStatus.pending
    ∷ step_at 2 StepRole.approver 22 1 StepStatus.pending
    ∷ []

abbrev twin_approved_store : Store
twin_approved_store = or_empty (
    approve_flow_step env 1 10 1 none (user 21) StepRole.approver
      (store_with (document_with DocStatus.pending twin_line ∷ [])))

unfoldable outcome : Store → Option (DocStatus × List StepStatus)
unfolding find_document
outcome st = elim (find_document 1 10 st.documents) [
  | none ↦ none
  | some d ↦ some (d.status, map (λ (s : Step). s.status) (steps_of d))
]

twin_line_outcome :
    outcome twin_approved_store
    ≡ some (DocStatus.approved, StepStatus.approved ∷ StepStatus.pending ∷ [])
unfolding approve_flow_step loaded_steps order_steps sort_by insert_sorted outcome
twin_line_outcome = refl

-- A proxy who acts under a setting that covers today.
abbrev proxied_store : Store
proxied_store = record pending_store {
  proxy_settings =
      record {
        id = 1;
        principal_id = 21;
        proxy_id = 30;
        start_date = 800;
        end_date = 950;
        is_active = true;
        created_at = 700;
        reason = none;
      }
      ∷ [];
}

resolve_actor-IsAuthorized_example :
    IsAuthorized env proxied_store
      (step_at 1 StepRole.approver 21 1 StepStatus.pending)
      (user 30)
      true
unfolding resolve_actor sort_by insert_sorted
resolve_actor-IsAuthorized_example =
    resolve_actor-IsAuthorized env proxied_store
      (step_at 1 StepRole.approver 21 1 StepStatus.pending) (user 30) refl

actions-NoneLeadsTo_example :
    NoneLeadsTo env 1 10 1 none (user 21) StepRole.approver done_store done_store
unfolding find_document
actions-NoneLeadsTo_example =
    actions-NoneLeadsTo env 1 10 1 none (user 21) StepRole.approver done_store refl (ground arith)
      done_store

abbrev recalled_store : Store
recalled_store = or_empty (recall 1 10 (user 20) pending_store)

recall-Recalls_example : (d : Document) × Recalls 1 10 (user 20) pending_store recalled_store d
unfolding recall
recall-Recalls_example = recall-Recalls 1 10 (user 20) pending_store refl

-- The same submission from the request on.
abbrev person : ℕ → Employee
person id = record {
  id = id;
  company_id = 1;
  is_active = true;
  organization_ids = [];
  position_ids = [];
}

abbrev staffed_store : Store
staffed_store = record draft_store { employees = person 21 ∷ person 22 ∷ person 23 ∷ [] }

abbrev asked : StepRole → ℕ → ℕ → StepInput
asked role assignee order = record {
  role = role;
  assignee_id = some assignee;
  organization_id = none;
  step_order = order;
}

abbrev given_inputs : List StepInput
given_inputs =
    asked StepRole.agreement 22 2 ∷ asked StepRole.approver 21 1 ∷ asked StepRole.receiver 23 1 ∷ []

abbrev request : SubmitDocument
request = record { steps = some given_inputs; shared_line_id = none }

given_inputs-ResolvesApart : ResolvesApart 1 10 request staffed_store
unfolding resolve_submit_steps resolve_steps default_line_of is_flow
given_inputs-ResolvesApart d choice rs found chosen resolved =
    subst DistinctOrders (ok-injective given_steps rs (steps_eq ∙ resolved))
      given_steps-DistinctOrders
  where
    steps_eq : ok given_steps ≡ resolve_steps staffed_store 1 choice.0
    steps_eq =
        ap (λ (c : Choice). resolve_steps staffed_store 1 c.0)
          (ok-injective (given_inputs, none) choice chosen)

abbrev request_store : Store
request_store = or_empty (submit env 1 10 request (user 20) (λ st. st) staffed_store)

submit-HoldsPending_example : (k : ℕ) × HoldsPending 1 10 k request_store
unfolding submit find_document sort_by insert_sorted
submit-HoldsPending_example =
    submit-HoldsPending env env-GeneratesDistinct 1 10 request (user 20) (λ st. st) staffed_store
      given_inputs-ResolvesApart refl refl
