-- ===== src/Documents/Flow/Back.antt =====
-- The flow of a pending document when it goes back by one step: `returnToPrevious` reopens the
-- approved step below the current one, `cancelApproval` the step that the actor had approved.
use able_work.Base.{
  ℕ, ◌<◌, ◌≤◌, ◌≡◌, ◌≢◌, refl, sym, ap, ◌∙◌, Bool, true, false, ◌&&◌, inl, inr, some, List, map,
  Memᴰ, arith, mem-of_filter, mem-filter_of, ◌==◌, nat_eq, ltb, first_descending, All-get, filter,
  Bool-cases, nat_beq_iff,
}
use able_work.Documents.Constants.{StepStatus, step_status_eq}
use able_work.Documents.Types.{Step}
use able_work.Documents.Helpers.{is_flow}
use able_work.Documents.Progress.{awaits, is_approved}
use able_work.Documents.Actions.Return.{previous_step}
use able_work.Documents.Flow.{AtFrontier, PendingFlow}
use able_work.Documents.Flow.Move.{KeepsPlace, map-PendingFlow}
use able_work.Documents.Flow.Advance.{turn_order, other_AtFrontier}

-- What is known of the step that `previous_step` finds.
pub record IsPrevious (steps : List Step) (current previous : Step) : Type 0 where
  pub member : Memᴰ previous steps
  pub in_flow : is_flow previous.role ≡ true
  pub below : previous.step_order < current.step_order
  pub approved : is_approved previous.status ≡ true
  pub last :
      (s : Step)
      → Memᴰ s steps
      → is_flow s.role ≡ true
      → s.step_order < current.step_order
      → is_approved s.status ≡ true
      → s.step_order ≤ previous.step_order

abbrev approved_below : Step → Step → Bool
approved_below current s =
    is_flow s.role && ltb s.step_order current.step_order && is_approved s.status

pub previous_step-IsPrevious :
    (steps : List Step) (current : Step) {previous : Step}
    → previous_step steps current ≡ some previous
    → IsPrevious steps current previous
unfolding previous_step
previous_step-IsPrevious steps current {previous} e =
    let (m, greatest) =
      first_descending (λ (s : Step). s.step_order) (filter (approved_below current) steps) e in
    let (member, passes) = mem-of_filter (approved_below current) steps m in
    record {
      member = member;
      in_flow = ground (arith, passes);
      below = ground (arith, passes);
      approved = ground (arith, passes);
      last = λ s ms f l a.
          All-get (λ (x : Step). x.step_order ≤ previous.step_order)
            (filter (approved_below current) steps) greatest
            (mem-filter_of (approved_below current) steps ms (ground arith));
    }

pub IsPrevious-of_same :
    (steps others : List Step) {current previous : Step}
    → ((s : Step) → Memᴰ s steps → Memᴰ s others)
    → ((s : Step) → Memᴰ s others → Memᴰ s steps)
    → IsPrevious steps current previous
    → IsPrevious others current previous
IsPrevious-of_same steps others {previous = previous} into from h = record {
  member = into previous h.member;
  in_flow = h.in_flow;
  below = h.below;
  approved = h.approved;
  last = λ s m. h.last s (from s m);
}

-- A step that was approved is neither pending nor waiting.
pub approved_excludes :
    (status : StepStatus)
    → is_approved status ≡ true
    → (awaits status ≡ false) × (status ≢ StepStatus.pending)
unfolding awaits is_approved
approved_excludes status h = ground arith

module _ (steps : List Step) {k : ℕ} (h : PendingFlow k steps) (c : Step) (mc : Memᴰ c steps)
    (fc : is_flow c.role ≡ true) (pc : c.status ≡ StepStatus.pending) where
  -- The current step is returned and the one below it is pending again.
  pub return-PendingFlow :
      (v : Step)
      → IsPrevious steps c v
      → (g : Step → Step) → KeepsPlace g
      → ((s : Step) → s.id ≡ c.id → s.id ≢ v.id → awaits (g s).status ≡ true)
      → ((s : Step) → s.id ≡ v.id → (g s).status ≡ StepStatus.pending)
      → ((s : Step) → s.id ≢ c.id → s.id ≢ v.id → (g s).status ≡ s.status)
      → PendingFlow v.step_order (map g steps)
  return-PendingFlow v previous g keeps marks opens leaves =
      map-PendingFlow g keeps steps v.step_order v h lies previous.member previous.in_flow refl
    where
      order_eq : c.step_order ≡ k
      order_eq = turn_order steps h c mc fc pc

      at_previous : (s : Step) → Memᴰ s steps → s.id ≡ v.id → AtFrontier v.step_order (g s)
      at_previous s ms e f = ground (
        arith,
        keeps s,
        opens s e,
        ap (λ (x : Step). x.step_order) (h.unique_ids s v ms previous.member e),
      )

      at_current :
          (s : Step) → Memᴰ s steps → s.id ≡ c.id → s.id ≢ v.id → AtFrontier v.step_order (g s)
      at_current s ms e n f = ground (
        arith,
        previous.below,
        keeps s,
        marks s e n,
        ap (λ (x : Step). x.step_order) (h.unique_ids s c ms mc e),
      )

      distinct :
          (s : Step)
          → Memᴰ s steps
          → is_flow s.role ≡ true
          → s.id ≢ v.id
          → s.step_order ≢ v.step_order
      distinct s ms fs n e = n (h.unique_orders s v ms previous.member fs previous.in_flow e)

      at_other :
          (s : Step) → Memᴰ s steps → s.id ≢ c.id → s.id ≢ v.id → AtFrontier v.step_order (g s)
      at_other s ms nc nv f =
          let fs : is_flow s.role ≡ true = sym (ap is_flow (keeps s).1) ∙ f in
          ground (
            arith,
            order_eq,
            previous.below,
            keeps s,
            leaves s nc nv,
            other_AtFrontier steps h c mc fc pc s ms fs nc,
            previous.last s ms fs,
            distinct s ms fs nv,
          )

      lies : (s : Step) → Memᴰ s steps → AtFrontier v.step_order (g s)
      lies s ms = elim (Bool-cases (s.id == v.id)) [
        | inl e ↦ at_previous s ms ((nat_beq_iff _ _).0 e)
        | inr nv ↦ elim (Bool-cases (s.id == c.id)) [
          | inl e ↦ at_current s ms ((nat_beq_iff _ _).0 e) (ground arith)
          | inr nc ↦ at_other s ms (ground arith) (ground arith)
        ]
      ]
