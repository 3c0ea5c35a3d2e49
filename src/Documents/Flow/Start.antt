-- ===== src/Documents/Flow/Start.antt =====
-- The flow that a submission starts (`initialStepStatus`): the steps that are created with the
-- initial statuses are a pending flow at the first order.
use able_work.Base.{
  ℕ, suc, ◌<◌, ◌≤◌, ◌≡◌, ◌≢◌, refl, sym, ap, ◌∙◌, subst, true, Option, none, some, List, [], ◌∷◌,
  Memᴰ, All, All-get, arith, filter, head?, mem-of_filter, mem-filter_of, first_ascending, nat_eq,
}
use able_work.Documents.Constants.{StepStatus}
use able_work.Documents.Types.{Step, ResolvedStep, Env}
use able_work.Documents.Helpers.{is_flow, initial_step_status}
use able_work.Documents.Progress.{awaits}
use able_work.Documents.Steps.Submit.{new_step, create_steps, flow_steps, first_flow_order}
use able_work.Documents.Flow.{AtFrontier, PendingFlow}
use able_work.Documents.Flow.Distinct.{
  Differ, AllDiffer, AllDiffer-HasUniqueIds, AllDiffer-HasUniqueOrders,
}

-- Two steps of the flow have different orders.
abbrev pub Apart : ResolvedStep → ResolvedStep → Type 0
Apart s t = is_flow s.role ≡ true → is_flow t.role ≡ true → s.step_order ≢ t.step_order

abbrev pub DistinctOrders : List ResolvedStep → Type 0
DistinctOrders [] = Unit
DistinctOrders (s ∷ r) = All (Apart s) r × DistinctOrders r

-- The database generates no id twice.
abbrev pub GeneratesDistinct : Env → Type 0
GeneratesDistinct env = (a b : ℕ) → env.uuid a ≡ env.uuid b → a ≡ b

-- The row is created from the resolved step.
abbrev IsRowOf : (ResolvedStep → StepStatus) → Step → ResolvedStep → Type 0
IsRowOf status s r = (s.role ≡ r.role) × (s.step_order ≡ r.step_order) × (s.status ≡ status r)

module _ (env : Env) (distinct : GeneratesDistinct env) (status : ResolvedStep → StepStatus) where
  created_Differ :
      (s : ResolvedStep) (n drawn : ℕ) (r : List ResolvedStep)
      → n < drawn
      → All (Apart s) r
      → All (Differ (new_step (env.uuid n) (status s) s)) (create_steps env drawn status r)
  unfolding create_steps new_step
  created_Differ s n drawn [] l h = tt
  created_Differ s n drawn (t ∷ r) l (apart, rest) = (
    (λ e. ground (arith, distinct n drawn e, l), apart),
    created_Differ s n (suc drawn) r (omega arith) rest,
  )

  create_steps-AllDiffer :
      (drawn : ℕ) (steps : List ResolvedStep)
      → DistinctOrders steps
      → AllDiffer (create_steps env drawn status steps)
  unfolding create_steps
  create_steps-AllDiffer drawn [] h = tt
  create_steps-AllDiffer drawn (s ∷ r) (apart, rest) = (
    created_Differ s drawn (suc drawn) r (omega arith) apart,
    create_steps-AllDiffer (suc drawn) r rest,
  )

  -- Each row is created from a step, and each step gives a row.
  mem-of_create_steps :
      (drawn : ℕ) (steps : List ResolvedStep) {s : Step}
      → Memᴰ s (create_steps env drawn status steps)
      → (r : ResolvedStep) × Memᴰ r steps × IsRowOf status s r
  unfolding create_steps new_step
  mem-of_create_steps drawn [] m = elim m [ ]
  mem-of_create_steps drawn (r ∷ rs) (Memᴰ.head e) = (
    r,
    Memᴰ.head refl,
    (ap (λ (x : Step). x.role) e, ap (λ (x : Step). x.step_order) e, ap (λ (x : Step). x.status) e),
  )
  mem-of_create_steps drawn (r ∷ rs) (Memᴰ.tail m) =
      let (x, k, row) = mem-of_create_steps (suc drawn) rs m in (x, Memᴰ.tail k, row)

  mem-create_steps :
      (drawn : ℕ) (steps : List ResolvedStep) {r : ResolvedStep}
      → Memᴰ r steps
      → (s : Step) × Memᴰ s (create_steps env drawn status steps) × IsRowOf status s r
  unfolding create_steps new_step
  mem-create_steps drawn [] m = elim m [ ]
  mem-create_steps drawn (x ∷ xs) (Memᴰ.head e) = (
    new_step (env.uuid drawn) (status x) x,
    Memᴰ.head refl,
    (
      ap (λ (y : ResolvedStep). y.role) (sym e),
      ap (λ (y : ResolvedStep). y.step_order) (sym e),
      ap status (sym e),
    ),
  )
  mem-create_steps drawn (x ∷ xs) (Memᴰ.tail m) =
      let (s, k, row) = mem-create_steps (suc drawn) xs m in (s, Memᴰ.tail k, row)

-- The first order is that of a flow step, and no flow step has a lower one.
pub record IsFirst (steps : List ResolvedStep) (k : ℕ) : Type 0 where
  pub starts : (c : ResolvedStep) × Memᴰ c steps × (is_flow c.role ≡ true) × (c.step_order ≡ k)
  pub least : (s : ResolvedStep) → Memᴰ s steps → is_flow s.role ≡ true → k ≤ s.step_order

order_of_some :
    (o : Option ResolvedStep) {k : ℕ}
    → (elim o [ none ↦ none | some s ↦ some s.step_order ]) ≡ some k
    → (c : ResolvedStep) × (o ≡ some c) × (c.step_order ≡ k)
order_of_some none h = absurd (cc h)
order_of_some (some c) h = (c, refl, cc h)

pub first_flow_order-IsFirst :
    (steps : List ResolvedStep) {k : ℕ} → first_flow_order steps ≡ some k → IsFirst steps k
unfolding first_flow_order flow_steps
first_flow_order-IsFirst steps {k} h =
    let (c, e, order) = order_of_some (head? (flow_steps steps)) h in
    let (m, least) =
      first_ascending (λ (s : ResolvedStep). s.step_order)
        (filter (λ (s : ResolvedStep). is_flow s.role) steps) e in
    let (member, in_flow) = mem-of_filter (λ (s : ResolvedStep). is_flow s.role) steps m in
    record {
      starts = (c, member, in_flow, order);
      least = λ s ms f.
          subst (λ n. n ≤ s.step_order) order
            (All-get (λ (x : ResolvedStep). c.step_order ≤ x.step_order)
              (filter (λ (x : ResolvedStep). is_flow x.role) steps) least
              (mem-filter_of (λ (x : ResolvedStep). is_flow x.role) steps ms f));
    }

initial_pending :
    (r : ResolvedStep) (k : ℕ)
    → is_flow r.role ≡ true
    → r.step_order ≡ k
    → initial_step_status r (some k) ≡ StepStatus.pending
unfolding initial_step_status
initial_pending r k f e = ground (arith, f, e)

initial_waiting :
    (r : ResolvedStep) (k : ℕ)
    → is_flow r.role ≡ true
    → k < r.step_order
    → initial_step_status r (some k) ≡ StepStatus.waiting
unfolding initial_step_status
initial_waiting r k f l = ground (arith, f, l)

waiting_awaits : awaits StepStatus.waiting ≡ true
unfolding awaits
waiting_awaits = refl

-- What is created from steps of distinct orders is a pending flow at the first order.
pub create_steps-PendingFlow :
    (env : Env) (drawn : ℕ) (steps : List ResolvedStep) {k : ℕ}
    → GeneratesDistinct env
    → DistinctOrders steps
    → first_flow_order steps ≡ some k
    → PendingFlow k (create_steps env drawn (λ s. initial_step_status s (some k)) steps)
create_steps-PendingFlow env drawn steps {k} distinct apart h = record {
  unique_ids =
      AllDiffer-HasUniqueIds _ (create_steps-AllDiffer env distinct status drawn steps apart);
  unique_orders =
      AllDiffer-HasUniqueOrders _ (create_steps-AllDiffer env distinct status drawn steps apart);
  frontier = λ s m. lies s m;
  current =
      let (c, m, f, order) = first.starts in
      let (s, ms, row) = mem-create_steps env distinct status drawn steps m in
      (s, ms, ap is_flow row.0 ∙ f, row.1 ∙ order);
}
  where
    status : ResolvedStep → StepStatus
    status s = initial_step_status s (some k)

    first : IsFirst steps k
    first = first_flow_order-IsFirst steps h

    lies :
        (s : Step)
        → Memᴰ s (create_steps env drawn (λ x. initial_step_status x (some k)) steps)
        → AtFrontier k s
    lies s m f =
        let (r, mr, row) = mem-of_create_steps env distinct status drawn steps m in
        let fr = sym (ap is_flow row.0) ∙ f in
        (
          λ l. absurd (omega (arith, l, row.1, first.least r mr fr)),
          λ e. row.2 ∙ initial_pending r k fr (sym row.1 ∙ e),
          λ l.
              ap awaits (row.2 ∙ initial_waiting r k fr (subst (λ n. k < n) row.1 l))
              ∙ waiting_awaits,
        )
