-- ===== src/Documents/Steps/Resolve.antt =====
-- The resolution of a submission's steps keeps their roles and orders.
use able_work.Base.{
  ℕ, ◌≡◌, refl, subst, filter, head?, nil_of_head-sort_by, length, ◌==◌, nat_eq, sym, ap, ◌∙◌, true,
  inl, inr, Option, some, List, [], ◌∷◌, any, map, arith, Option-cases, Bool-cases,
}
use able_work.Errors.{Error, ok, >>=-eq_ok, guard-eq_ok, ok-injective}
use able_work.Documents.Constants.{StepRole}
use able_work.Documents.Types.{Organization, StepInput, ResolvedStep, SubmitDocument, Store}
use able_work.Documents.Helpers.{is_flow}
use able_work.Documents.Steps.Submit.{first_flow_order, flow_steps}
use able_work.Documents.Steps.{
  Choice, choose_given, choose_existing, choose_default, count_employees, personal_ids, find_orgs,
  dept_org_ids, is_dept, step_org, dept_assignee, resolve_step, resolve_each, resolve_steps,
  resolve_submit_steps,
}

-- A role and its place in the order.
abbrev pub Place : Type 0
Place = StepRole × ℕ

abbrev pub input_place : StepInput → Place
input_place s = (s.role, s.step_order)

abbrev pub resolved_place : ResolvedStep → Place
resolved_place s = (s.role, s.step_order)

resolve_step-place :
    (st : Store) (orgs : List Organization) (s : StepInput) {r : ResolvedStep}
    → resolve_step st orgs s ≡ ok r
    → resolved_place r ≡ input_place s
unfolding resolve_step
resolve_step-place st orgs s h = elim (Bool-cases (is_dept s.role)) [
  | inl dept ↦ elim (Option-cases (step_org orgs s)) [
    | inl e ↦ absurd (ground (arith, dept, e))
    | inr (org, e) ↦ elim (Option-cases (dept_assignee st org)) [
      | inl e2 ↦ absurd (ground (arith, dept, e, e2))
      | inr (a, e2) ↦ ground (arith, dept, e, e2)
    ]
  ]
  | inr person ↦ elim (Option-cases s.assignee_id) [
    | inl e ↦ absurd (ground (arith, person, e))
    | inr (a, e) ↦ ground (arith, person, e)
  ]
]

resolve_each-places :
    (st : Store) (orgs : List Organization) (inputs : List StepInput) {rs : List ResolvedStep}
    → resolve_each st orgs inputs ≡ ok rs
    → map resolved_place rs ≡ map input_place inputs
unfolding resolve_each
resolve_each-places st orgs [] h = ap (map resolved_place) (sym (ok-injective _ _ h))
resolve_each-places st orgs (s ∷ inputs) h =
    let (r, e1, h1) = >>=-eq_ok (resolve_step st orgs s) _ h in
    let (rest, e2, h2) = >>=-eq_ok (resolve_each st orgs inputs) _ h1 in
    ap (map resolved_place) (sym (ok-injective _ _ h2))
    ∙ rw (resolve_step-place st orgs s e1, resolve_each-places st orgs inputs e2)

-- Where the steps of a submission can be resolved, the resolved steps have the inputs' roles and
-- orders, one for one.
pub resolve_steps-places :
    (st : Store) (company_id : ℕ) (inputs : List StepInput) {rs : List ResolvedStep}
    → resolve_steps st company_id inputs ≡ ok rs
    → map resolved_place rs ≡ map input_place inputs
unfolding resolve_steps
resolve_steps-places st company_id inputs h =
    let (c1, h1) =
      guard-eq_ok
        (count_employees st company_id (personal_ids inputs) == length (personal_ids inputs))
        Error.employee_not_found _ h in
    let (c2, h2) =
      guard-eq_ok
        (length (find_orgs st company_id (dept_org_ids inputs)) == length (dept_org_ids inputs))
        Error.org_not_found _ h1 in
    resolve_each-places st (find_orgs st company_id (dept_org_ids inputs)) inputs h2

-- The steps that a submission chooses have a step of the flow.
pub resolve_submit_steps-flow :
    (st : Store) (company_id : ℕ) (dto : SubmitDocument) (existing : List StepInput)
    (form_default : Option ℕ) {inputs : List StepInput} {line_id : Option ℕ}
    → resolve_submit_steps st company_id dto existing form_default ≡ ok (inputs, line_id)
    → any (λ s. is_flow s.role) inputs ≡ true
unfolding resolve_submit_steps
resolve_submit_steps-flow st company_id dto existing form_default h =
    let (given, e1, h1) = >>=-eq_ok (choose_given st company_id dto) _ h in
    let (chosen, e2, h2) =
      >>=-eq_ok (choose_default st company_id form_default (choose_existing existing given)) _ h1 in
    let (c, h3) =
      guard-eq_ok (any (λ s. is_flow s.role) (choose_existing existing chosen).0)
        Error.approval_line_empty _ h2 in
    subst (λ (l : Choice). any (λ s. is_flow s.role) l.0 ≡ true) (ok-injective _ _ h3) c

any-place :
    {A : Type 0} (place : A → Place) (xs : List A)
    → any (λ (p : Place). is_flow p.0) (map place xs) ≡ any (λ x. is_flow (place x).0) xs
any-place place [] = refl
any-place place (x ∷ xs) = rw (any-place place xs)

-- The resolved steps have one of the flow if the inputs have.
pub resolve_steps-flow :
    (st : Store) (company_id : ℕ) (inputs : List StepInput) {rs : List ResolvedStep}
    → resolve_steps st company_id inputs ≡ ok rs
    → any (λ s. is_flow s.role) inputs ≡ true
    → any (λ s. is_flow s.role) rs ≡ true
resolve_steps-flow st company_id inputs {rs} h f =
    sym (any-place resolved_place rs)
    ∙ ap (any (λ (p : Place). is_flow p.0)) (resolve_steps-places st company_id inputs h)
    ∙ any-place input_place inputs
    ∙ f

-- With a step of the flow there is a first order.
pub first_flow_order-exists :
    (rs : List ResolvedStep)
    → any (λ s. is_flow s.role) rs ≡ true
    → (k : ℕ) × (first_flow_order rs ≡ some k)
unfolding first_flow_order flow_steps
first_flow_order-exists rs f = elim (Option-cases (head? (flow_steps rs))) [
  | inr (s, e) ↦ (s.step_order, ground (arith, e))
  | inl e ↦ absurd (
      no_flow (filter (λ (s : ResolvedStep). is_flow s.role) rs)
        (nil_of_head-sort_by _ (filter (λ (s : ResolvedStep). is_flow s.role) rs) e) rs f refl)
]
  where
    no_flow :
        (l : List ResolvedStep)
        → l ≡ []
        → (xs : List ResolvedStep) → any (λ s. is_flow s.role) xs ≡ true
        → filter (λ (s : ResolvedStep). is_flow s.role) xs ≡ l
        → ⊥
    no_flow l n [] g e = absurd (cc g)
    no_flow l n (x ∷ xs) g e = elim (Bool-cases (is_flow x.role)) [
      | inl t ↦ absurd (ground (arith, t, e, n))
      | inr o ↦ no_flow l n xs (ground (arith, o, g)) (ground (arith, o, e))
    ]
