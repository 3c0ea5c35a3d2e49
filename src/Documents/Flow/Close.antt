-- ===== src/Documents/Flow/Close.antt =====
-- The end of the flow (`finalizeApproval`): when every step of the flow is settled and the waiting
-- receivers are activated, the steps are those of an approved document.
use able_work.Base.{◌≡◌, refl, true, false, ◌&&◌, arith, if◌then◌else◌, ◌==◌}
use able_work.Documents.Constants.{StepRole, StepStatus, step_status_eq}
use able_work.Documents.Types.{Step}
use able_work.Documents.Helpers.{is_flow, is_receiver}
use able_work.Documents.Progress.{is_approved, with_status}
use able_work.Documents.Flow.{is_settled, IsSettled}
use able_work.Documents.Flow.Move.{KeepsPlace, if-KeepsPlace}

abbrev pub activates_receiver : Step → Step
activates_receiver s =
    if is_receiver s.role && s.status == StepStatus.waiting
    then with_status StepStatus.pending s
    else s

pub activates_receiver-KeepsPlace : KeepsPlace activates_receiver
activates_receiver-KeepsPlace =
    if-KeepsPlace (λ s. is_receiver s.role && s.status == StepStatus.waiting)
      (with_status StepStatus.pending) (λ s. (refl, refl, refl))

-- A role of the flow is no receiver's.
pub flow_excludes_receiver : (role : StepRole) → is_flow role ≡ true → is_receiver role ≡ false
unfolding is_flow is_receiver
flow_excludes_receiver role h = ground arith

pub is_settled_of_approved :
    (status : StepStatus) → is_approved status ≡ true → is_settled status ≡ true
unfolding is_approved is_settled
is_settled_of_approved status h = ground arith

pub activates_receiver-IsSettled :
    (s : Step)
    → (is_flow s.role ≡ true → is_settled s.status ≡ true)
    → IsSettled (activates_receiver s)
activates_receiver-IsSettled s h =
    (λ f. ground (arith, flow_excludes_receiver s.role), λ r w. ground (arith, r, w))
