-- ===== src/Documents/Flow/Advance.antt =====
-- The flow of a pending document when its current step is approved (`progressFlow`): the first
-- waiting step becomes the current one, or, where none waits, the whole flow is approved.
use able_work.Base.{
  ℕ, ◌<◌, ◌≤◌, ◌≡◌, ◌≢◌, refl, sym, ap, ◌∙◌, subst, Bool, true, false, not, ◌&&◌, ◌⊎◌, inl, inr,
  none, some, List, [], map, Memᴰ, arith, mem-of_filter, mem-filter_of, ◌==◌, nat_eq,
  first_ascending, nil_of_head-sort_by, All-get, filter, Bool-cases, nat_beq_iff,
}
use able_work.Documents.Constants.{StepStatus}
use able_work.Documents.Types.{Step}
use able_work.Documents.Helpers.{is_flow}
use able_work.Documents.Progress.{awaits, is_approved, next_step}
use able_work.Documents.Flow.{AtFrontier, PendingFlow}
use able_work.Documents.Flow.Move.{KeepsPlace, map-PendingFlow}

-- What is known of the step that `next_step` finds, and of the flow when it finds none.
pub record IsNext (steps : List Step) (current next : Step) : Type 0 where
  pub member : Memᴰ next steps
  pub other : next.id ≢ current.id
  pub in_flow : is_flow next.role ≡ true
  pub waits : awaits next.status ≡ true
  pub first :
      (s : Step)
      → Memᴰ s steps
      → s.id ≢ current.id
      → is_flow s.role ≡ true
      → awaits s.status ≡ true
      → next.step_order ≤ s.step_order

abbrev candidate : Step → Step → Bool
candidate current s = not (s.id == current.id) && is_flow s.role && awaits s.status

candidate_parts :
    (current s : Step)
    → candidate current s ≡ true
    → (s.id ≢ current.id) × (is_flow s.role ≡ true) × (awaits s.status ≡ true)
candidate_parts current s h = ground arith

candidate_of :
    (current s : Step)
    → s.id ≢ current.id
    → is_flow s.role ≡ true
    → awaits s.status ≡ true
    → candidate current s ≡ true
candidate_of current s n f w = ground arith

pub next_step-IsNext :
    (steps : List Step) (current : Step) {next : Step}
    → next_step steps current ≡ some next
    → IsNext steps current next
unfolding next_step
next_step-IsNext steps current {next} e =
    let (m, least) =
      first_ascending (λ (s : Step). s.step_order) (filter (candidate current) steps) e in
    let (member, passes) = mem-of_filter (candidate current) steps m in
    let (other, in_flow, waits) = candidate_parts current next passes in
    record {
      member = member;
      other = other;
      in_flow = in_flow;
      waits = waits;
      first = λ s ms n f w.
          All-get (λ (x : Step). next.step_order ≤ x.step_order) (filter (candidate current) steps)
            least (mem-filter_of (candidate current) steps ms (candidate_of current s n f w));
    }

-- With no next step, no other step of the flow waits.
pub next_step-none :
    (steps : List Step) (current : Step)
    → next_step steps current ≡ none
    → (s : Step) → Memᴰ s steps
    → s.id ≢ current.id
    → is_flow s.role ≡ true
    → awaits s.status ≡ false
unfolding next_step
next_step-none steps current e s m n f = elim (Bool-cases (awaits s.status)) [
  | inr w ↦ w
  | inl w ↦ absurd (
      not_in_nil (
        subst (λ l. Memᴰ s l) (nil_of_head-sort_by _ (filter (candidate current) steps) e)
          (mem-filter_of (candidate current) steps m (candidate_of current s n f w))))
]
  where
    not_in_nil : Memᴰ s [] → ⊥
    not_in_nil k = elim k [ ]

-- What holds of the next step among some steps holds among the same steps in another order.
pub IsNext-of_same :
    (steps others : List Step) {current next : Step}
    → ((s : Step) → Memᴰ s steps → Memᴰ s others)
    → ((s : Step) → Memᴰ s others → Memᴰ s steps)
    → IsNext steps current next
    → IsNext others current next
IsNext-of_same steps others {next = next} into from h = record {
  member = into next h.member;
  other = h.other;
  in_flow = h.in_flow;
  waits = h.waits;
  first = λ s m. h.first s (from s m);
}

-- A step that waits is neither approved nor pending.
pub awaits_excludes :
    (status : StepStatus)
    → awaits status ≡ true
    → (is_approved status ≡ false) × (status ≢ StepStatus.pending)
unfolding awaits is_approved
awaits_excludes status h = ground arith

module _ (steps : List Step) {k : ℕ} (h : PendingFlow k steps) (c : Step) (mc : Memᴰ c steps)
    (fc : is_flow c.role ≡ true) (pc : c.status ≡ StepStatus.pending) where
  -- The flow step that is pending is the one at the frontier.
  pub turn_order : c.step_order ≡ k
  unfolding awaits is_approved
  turn_order = ground (arith, h.frontier c mc fc)

  -- Another step of the flow does not have the frontier's order.
  pub other_order :
      (s : Step) → Memᴰ s steps → is_flow s.role ≡ true → s.id ≢ c.id → s.step_order ≢ k
  other_order s ms fs n e = n (h.unique_orders s c ms mc fs fc (e ∙ sym turn_order))

  -- What a step of the flow other than the current one was.
  pub other_AtFrontier :
      (s : Step)
      → Memᴰ s steps
      → is_flow s.role ≡ true
      → s.id ≢ c.id
      → (s.step_order < k × (is_approved s.status ≡ true))
        ⊎ (k < s.step_order × (awaits s.status ≡ true))
  other_AtFrontier s ms fs n = ground (arith, h.frontier s ms fs, other_order s ms fs n)

  -- The next step lies behind the frontier.
  pub next_later : (n : Step) → IsNext steps c n → k < n.step_order
  next_later n next = ground (
    arith,
    other_AtFrontier n next.member next.in_flow next.other,
    awaits_excludes n.status next.waits,
  )

  -- The current step is approved, and the next one becomes pending: the frontier moves to it.
  pub advance-PendingFlow :
      (n : Step)
      → IsNext steps c n
      → (g : Step → Step) → KeepsPlace g
      → ((s : Step) → s.id ≡ c.id → s.id ≢ n.id → is_approved (g s).status ≡ true)
      → ((s : Step) → s.id ≡ n.id → (g s).status ≡ StepStatus.pending)
      → ((s : Step) → s.id ≢ c.id → s.id ≢ n.id → (g s).status ≡ s.status)
      → PendingFlow n.step_order (map g steps)
  advance-PendingFlow n next g keeps marks opens leaves =
      map-PendingFlow g keeps steps n.step_order n h lies next.member next.in_flow refl
    where
      later : k < n.step_order
      later = next_later n next

      distinct :
          (s : Step)
          → Memᴰ s steps
          → is_flow s.role ≡ true
          → s.id ≢ n.id
          → s.step_order ≢ n.step_order
      distinct s ms fs nn e = nn (h.unique_orders s n ms next.member fs next.in_flow e)

      at_next : (s : Step) → Memᴰ s steps → s.id ≡ n.id → AtFrontier n.step_order (g s)
      at_next s ms e f = ground (
        arith,
        keeps s,
        opens s e,
        ap (λ (x : Step). x.step_order) (h.unique_ids s n ms next.member e),
      )

      at_current :
          (s : Step) → Memᴰ s steps → s.id ≡ c.id → s.id ≢ n.id → AtFrontier n.step_order (g s)
      at_current s ms e nn f = ground (
        arith,
        later,
        turn_order,
        keeps s,
        marks s e nn,
        ap (λ (x : Step). x.step_order) (h.unique_ids s c ms mc e),
      )

      at_other :
          (s : Step) → Memᴰ s steps → s.id ≢ c.id → s.id ≢ n.id → AtFrontier n.step_order (g s)
      at_other s ms nc nn f =
          let fs : is_flow s.role ≡ true = sym (ap is_flow (keeps s).1) ∙ f in
          ground (
            arith,
            later,
            keeps s,
            leaves s nc nn,
            other_AtFrontier s ms fs nc,
            next.first s ms nc fs,
            distinct s ms fs nn,
          )

      lies : (s : Step) → Memᴰ s steps → AtFrontier n.step_order (g s)
      lies s ms = elim (Bool-cases (s.id == n.id)) [
        | inl e ↦ at_next s ms ((nat_beq_iff _ _).0 e)
        | inr nn ↦ elim (Bool-cases (s.id == c.id)) [
          | inl e ↦ at_current s ms ((nat_beq_iff _ _).0 e) (ground arith)
          | inr nc ↦ at_other s ms (ground arith) (ground arith)
        ]
      ]
