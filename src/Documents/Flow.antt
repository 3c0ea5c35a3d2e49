-- ===== src/Documents/Flow.antt =====
-- The invariants of the approval flow (approval-actions.service.ts): what the steps of a document
-- look like while it is pending and once it is approved or rejected.
pub mod Move
pub mod Advance
pub mod Close
pub mod Distinct
pub mod Back
pub mod Reopen
pub mod Aside
pub mod Start
use able_work.Base.{
  ℕ, ◌<◌, ◌≡◌, ◌≢◌, ◌⊎◌, Bool, true, false, not, ◌&&◌, ◌||◌, some, List, [], ◌∷◌, Memᴰ, includes,
}
use able_work.Documents.Constants.{DocStatus, StepRole, StepStatus, step_status_eq}
use able_work.Documents.Types.{Step, Document, Store, steps_of}
use able_work.Documents.Store.{find_document}
use able_work.Documents.Helpers.{is_flow, is_receiver}
use able_work.Documents.Progress.{awaits, is_approved}

-- No two steps have one id.
abbrev pub HasUniqueIds : List Step → Type 0
HasUniqueIds steps = (s t : Step) → Memᴰ s steps → Memᴰ t steps → s.id ≡ t.id → s ≡ t

-- No two steps of the flow have one order.
abbrev pub HasUniqueOrders : List Step → Type 0
HasUniqueOrders steps =
    (s t : Step)
    → Memᴰ s steps
    → Memᴰ t steps
    → is_flow s.role ≡ true
    → is_flow t.role ≡ true
    → s.step_order ≡ t.step_order
    → s.id ≡ t.id

-- A step of the flow below the order `k` is approved, at `k` it is pending, above `k` it waits or
-- was returned.
abbrev pub AtFrontier : ℕ → Step → Type 0
AtFrontier k s =
    is_flow s.role ≡ true
    → (s.step_order < k → is_approved s.status ≡ true)
      × (s.step_order ≡ k → s.status ≡ StepStatus.pending)
      × (k < s.step_order → awaits s.status ≡ true)

-- The flow of a pending document: exactly one step is its turn, and it has the order `k`.
pub record PendingFlow (k : ℕ) (steps : List Step) : Type 0 where
  pub unique_ids : HasUniqueIds steps
  pub unique_orders : HasUniqueOrders steps
  pub frontier : (s : Step) → Memᴰ s steps → AtFrontier k s
  pub current : (c : Step) × Memᴰ c steps × (is_flow c.role ≡ true) × (c.step_order ≡ k)

-- `[APPROVED, PROXY_APPROVED, PRE_APPROVED, SKIPPED]`: what a flow step of an approved document is.
abbrev pub settled_statuses : List StepStatus
settled_statuses =
    StepStatus.approved ∷ StepStatus.proxy_approved ∷ StepStatus.pre_approved ∷ StepStatus.skipped
    ∷ []

unfoldable pub is_settled : StepStatus → Bool
unfolding includes
is_settled status = includes settled_statuses status

-- A step of an approved document: the flow is settled, and no receiver is kept waiting.
abbrev pub IsSettled : Step → Type 0
IsSettled s =
    (is_flow s.role ≡ true → is_settled s.status ≡ true)
    × (is_receiver s.role ≡ true → s.status ≢ StepStatus.waiting)

-- A step of a rejected document: nothing in the flow or among the receivers is still to be done.
abbrev pub IsStopped : Step → Type 0
IsStopped s =
    is_flow s.role || is_receiver s.role ≡ true
    → (s.status ≢ StepStatus.waiting) × (s.status ≢ StepStatus.pending)

-- The invariant of a document, by its status.
abbrev pub SoundSteps : DocStatus → List Step → Type 0
SoundSteps DocStatus.pending steps = (k : ℕ) × PendingFlow k steps
SoundSteps DocStatus.approved steps = HasUniqueIds steps × ((s : Step) → Memᴰ s steps → IsSettled s)
SoundSteps DocStatus.rejected steps = HasUniqueIds steps × ((s : Step) → Memᴰ s steps → IsStopped s)
SoundSteps _ steps = HasUniqueIds steps

abbrev pub IsSound : Document → Type 0
IsSound d = SoundSteps d.status (steps_of d)

-- The store has the document in the given status, and its steps are as `P` says.
abbrev pub HoldsWith : ℕ → ℕ → DocStatus → (List Step → Type 0) → Store → Type 0
HoldsWith company_id document_id status P st =
    (d : Document) × (find_document company_id document_id st.documents ≡ some d)
    × (d.status ≡ status)
    × P (steps_of d)

-- The document is pending and its flow is at the order `k`.
abbrev pub HoldsPending : ℕ → ℕ → ℕ → Store → Type 0
HoldsPending company_id document_id k =
    HoldsWith company_id document_id DocStatus.pending (PendingFlow k)

-- The document is approved and its steps are settled.
abbrev pub HoldsSettled : ℕ → ℕ → Store → Type 0
HoldsSettled company_id document_id =
    HoldsWith company_id document_id DocStatus.approved (SoundSteps DocStatus.approved)

-- The document is rejected and its steps are stopped.
abbrev pub HoldsStopped : ℕ → ℕ → Store → Type 0
HoldsStopped company_id document_id =
    HoldsWith company_id document_id DocStatus.rejected (SoundSteps DocStatus.rejected)

-- From the order `k` the flow has moved on to a later one, or has come to its end.
abbrev pub Advances : ℕ → ℕ → ℕ → Store → Type 0
Advances company_id document_id k st =
    ((n : ℕ) × k < n × HoldsPending company_id document_id n st)
    ⊎ HoldsSettled company_id document_id st

-- The store has the document, and it is sound.
abbrev pub HoldsSound : ℕ → ℕ → Store → Type 0
HoldsSound company_id document_id st =
    (d : Document) × (find_document company_id document_id st.documents ≡ some d) × IsSound d
