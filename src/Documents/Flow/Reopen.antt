-- ===== src/Documents/Flow/Reopen.antt =====
-- The flow of a pending document when an approval is cancelled (`cancelApproval`): the step that was
-- approved is pending again, and the one behind it waits.
use able_work.Base.{
  ℕ, ◌<◌, ◌≡◌, ◌≢◌, refl, sym, ap, ◌∙◌, subst, Bool, true, false, not, ◌&&◌, inl, inr, none, some,
  List, map, Memᴰ, arith, mem-of_filter, mem-filter_of, ◌==◌, nat_eq, ltb, first_ascending,
  nil_of_head-sort_by, filter, Bool-cases, nat_beq_iff, any_of_mem, [],
}
use able_work.Documents.Constants.{StepStatus, step_status_eq, step_status_beq_iff}
use able_work.Documents.Types.{Step}
use able_work.Documents.Helpers.{is_flow}
use able_work.Documents.Progress.{awaits, is_approved, is_open}
use able_work.Documents.Actions.Return.{later_flow_steps, has_acted_later, current_pending_next}
use able_work.Documents.Flow.{AtFrontier, PendingFlow}
use able_work.Documents.Flow.Move.{KeepsPlace, map-PendingFlow}
use able_work.Documents.Flow.Advance.{awaits_excludes, turn_order}
use able_work.Documents.Flow.Back.{approved_excludes}

-- What is known of the steps behind an approved one, when none of them has been acted on.
pub later_open :
    (steps : List Step) (a : Step)
    → has_acted_later steps a ≡ false
    → (s : Step) → Memᴰ s steps
    → is_flow s.role ≡ true
    → a.step_order < s.step_order
    → is_open s.status ≡ true
unfolding has_acted_later later_flow_steps
later_open steps a none_acted s m f l = elim (Bool-cases (is_open s.status)) [
  | inl o ↦ o
  | inr c ↦ absurd (
      cc (
        none_acted,
        any_of_mem (λ (x : Step). not (is_open x.status)) (later_flow_steps steps a)
            (mem-filter_of (λ (x : Step). is_flow x.role && ltb a.step_order x.step_order) steps m
              (ground arith))
            (rw c),
      ))
]

-- What is known of the pending step behind an approved one, and when there is none.
pub record IsHeld (steps : List Step) (a held : Step) : Type 0 where
  pub member : Memᴰ held steps
  pub in_flow : is_flow held.role ≡ true
  pub behind : a.step_order < held.step_order
  pub step_pending : held.status ≡ StepStatus.pending

abbrev behind : Step → Step → Bool
behind a s = is_flow s.role && ltb a.step_order s.step_order

abbrev pending_now : Step → Bool
pending_now s = s.status == StepStatus.pending

pub current_pending_next-IsHeld :
    (steps : List Step) (a : Step) {held : Step}
    → current_pending_next steps a ≡ some held
    → IsHeld steps a held
unfolding current_pending_next later_flow_steps
current_pending_next-IsHeld steps a {held} e =
    let (m, least) =
      first_ascending (λ (s : Step). s.step_order) (filter pending_now (filter (behind a) steps))
        e in
    let (later, now) = mem-of_filter pending_now (filter (behind a) steps) m in
    let (member, passes) = mem-of_filter (behind a) steps later in
    record {
      member = member;
      in_flow = ground (arith, passes);
      behind = ground (arith, passes);
      step_pending = (step_status_beq_iff _ _).0 now;
    }

pub current_pending_next-none :
    (steps : List Step) (a : Step)
    → current_pending_next steps a ≡ none
    → (s : Step) → Memᴰ s steps
    → is_flow s.role ≡ true
    → a.step_order < s.step_order
    → s.status ≢ StepStatus.pending
unfolding current_pending_next later_flow_steps
current_pending_next-none steps a e s m f l p = not_in_nil (
    subst (λ l. Memᴰ s l) (nil_of_head-sort_by _ (filter pending_now (filter (behind a) steps)) e)
      (mem-filter_of pending_now (filter (behind a) steps)
        (mem-filter_of (behind a) steps m (ground arith)) ((step_status_beq_iff _ _).1 p)))
  where
    not_in_nil : Memᴰ s [] → ⊥
    not_in_nil k = elim k [ ]

module _ (steps : List Step) {k : ℕ} (h : PendingFlow k steps) (a : Step) (ma : Memᴰ a steps)
    (fa : is_flow a.role ≡ true) (approved : is_approved a.status ≡ true)
    (opens : (s : Step)
      → Memᴰ s steps
      → is_flow s.role ≡ true
      → a.step_order < s.step_order
      → is_open s.status ≡ true) where
  -- The approved step lies below the frontier, where the step is whose turn it was.
  pub approved_below_turn : a.step_order < k
  approved_below_turn =
      ground
        (arith, h.frontier a ma fa, approved_excludes a.status approved, awaits_excludes a.status)

  open_excludes : (status : StepStatus) → is_approved status ≡ true → is_open status ≡ false
  unfolding is_approved is_open
  open_excludes status e = ground arith

  -- The approved step is pending again and the one behind it waits.
  pub cancel-PendingFlow :
      (held : Step)
      → IsHeld steps a held
      → (g : Step → Step) → KeepsPlace g
      → ((s : Step) → s.id ≡ a.id → s.id ≢ held.id → (g s).status ≡ StepStatus.pending)
      → ((s : Step) → s.id ≡ held.id → awaits (g s).status ≡ true)
      → ((s : Step) → s.id ≢ a.id → s.id ≢ held.id → (g s).status ≡ s.status)
      → PendingFlow a.step_order (map g steps)
  cancel-PendingFlow held is_held g keeps reopens holds leaves =
      map-PendingFlow g keeps steps a.step_order a h lies ma fa refl
    where
      order_eq : held.step_order ≡ k
      order_eq = turn_order steps h held is_held.member is_held.in_flow is_held.step_pending

      at_held : (s : Step) → Memᴰ s steps → s.id ≡ held.id → AtFrontier a.step_order (g s)
      at_held s ms e f = ground (
        arith,
        keeps s,
        holds s e,
        is_held.behind,
        ap (λ (x : Step). x.step_order) (h.unique_ids s held ms is_held.member e),
      )

      at_reopened :
          (s : Step) → Memᴰ s steps → s.id ≡ a.id → s.id ≢ held.id → AtFrontier a.step_order (g s)
      at_reopened s ms e n f = ground (
        arith,
        keeps s,
        reopens s e n,
        ap (λ (x : Step). x.step_order) (h.unique_ids s a ms ma e),
      )

      distinct :
          (x s : Step)
          → Memᴰ x steps
          → is_flow x.role ≡ true
          → Memᴰ s steps
          → is_flow s.role ≡ true
          → s.id ≢ x.id
          → s.step_order ≢ x.step_order
      distinct x s mx fx ms fs n e = n (h.unique_orders s x ms mx fs fx e)

      at_other :
          (s : Step) → Memᴰ s steps → s.id ≢ a.id → s.id ≢ held.id → AtFrontier a.step_order (g s)
      at_other s ms na nh f =
          let fs : is_flow s.role ≡ true = sym (ap is_flow (keeps s).1) ∙ f in
          ground (
            arith,
            order_eq,
            approved_below_turn,
            keeps s,
            leaves s na nh,
            h.frontier s ms fs,
            opens s ms fs,
            open_excludes s.status,
            distinct a s ma fa ms fs na,
            distinct held s is_held.member is_held.in_flow ms fs nh,
          )

      lies : (s : Step) → Memᴰ s steps → AtFrontier a.step_order (g s)
      lies s ms = elim (Bool-cases (s.id == held.id)) [
        | inl e ↦ at_held s ms ((nat_beq_iff _ _).0 e)
        | inr nh ↦ elim (Bool-cases (s.id == a.id)) [
          | inl e ↦ at_reopened s ms ((nat_beq_iff _ _).0 e) (ground arith)
          | inr na ↦ at_other s ms (ground arith) (ground arith)
        ]
      ]
