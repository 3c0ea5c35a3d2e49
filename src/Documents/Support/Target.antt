-- ===== src/Documents/Support/Target.antt =====
-- What `loadActionTarget` gives when it succeeds, and what the shared checks have tested.
use able_work.Base.{
  ℕ, ◌≡◌, refl, subst, Bool, true, inl, inr, none, some, List, [], ◌∷◌, map, Memᴰ, arith, find,
  find-mem, ◌==◌, nat_eq, nat_beq_iff, sort_by, ascending, mem-sort_by, mem-of_sort_by,
  mem-append_left, mem-append_right, mem-append_cases, Option-cases, includes,
}
use able_work.Errors.{ok}
use able_work.Documents.Constants.{StepRole, step_role_eq, step_role_beq_iff}
use able_work.Documents.Types.{Step, ApprovalLine, Document, Store, flat_steps, steps_of}
use able_work.Documents.Store.{find_document}
use able_work.Documents.Support.{
  ActionTarget, order_steps, loaded_steps, find_step, load_action_target,
}

abbrev by_order : Step → Step → Bool
by_order = ascending (λ s. s.step_order)

-- The loaded steps are the document's, in another order.
mem-flat_sorted :
    (ls : List ApprovalLine) {s : Step}
    → Memᴰ s (flat_steps ls)
    → Memᴰ s (flat_steps (map order_steps ls))
unfolding order_steps
mem-flat_sorted [] m = m
mem-flat_sorted (l ∷ ls) m = elim (mem-append_cases l.steps (flat_steps ls) m) [
  | inl k ↦ mem-append_left _ _ (mem-sort_by by_order l.steps k)
  | inr k ↦ mem-append_right (sort_by by_order l.steps) _ (mem-flat_sorted ls k)
]

mem-of_flat_sorted :
    (ls : List ApprovalLine) {s : Step}
    → Memᴰ s (flat_steps (map order_steps ls))
    → Memᴰ s (flat_steps ls)
unfolding order_steps
mem-of_flat_sorted [] m = m
mem-of_flat_sorted (l ∷ ls) m =
    elim (mem-append_cases (sort_by by_order l.steps) (flat_steps (map order_steps ls)) m) [
      | inl k ↦ mem-append_left _ _ (mem-of_sort_by by_order l.steps k)
      | inr k ↦ mem-append_right l.steps _ (mem-of_flat_sorted ls k)
    ]

pub mem-loaded_steps : (d : Document) {s : Step} → Memᴰ s (steps_of d) → Memᴰ s (loaded_steps d)
unfolding loaded_steps
mem-loaded_steps d = mem-flat_sorted d.approval_lines

pub mem-of_loaded_steps : (d : Document) {s : Step} → Memᴰ s (loaded_steps d) → Memᴰ s (steps_of d)
unfolding loaded_steps
mem-of_loaded_steps d = mem-of_flat_sorted d.approval_lines

pub record IsTarget (company_id document_id step_id : ℕ) (st : Store) (t : ActionTarget)
    : Type 0 where
  pub found : find_document company_id document_id st.documents ≡ some t.document
  pub unmanaged : t.document.request_id ≡ none
  pub loaded : t.steps ≡ loaded_steps t.document
  pub member : Memᴰ t.step (steps_of t.document)
  pub step_id_eq : t.step.id ≡ step_id

module _ (company_id document_id step_id : ℕ) (st : Store) {t : ActionTarget} where
  target_eq :
      (d : Document) {s : Step}
      → find (λ (x : Step). x.id == step_id) (loaded_steps d) ≡ some s
      → find_step d step_id ≡ ok t
      → record { document = d; step = s; steps = loaded_steps d } ≡ t
  unfolding find_step
  target_eq d e h = ground arith

  find_step-IsTarget :
      (d : Document)
      → find_document company_id document_id st.documents ≡ some d
      → d.request_id ≡ none
      → find_step d step_id ≡ ok t
      → IsTarget company_id document_id step_id st t
  unfolding find_step
  find_step-IsTarget d found unmanaged h =
      elim (Option-cases (find (λ (s : Step). s.id == step_id) (loaded_steps d))) [
        | inl e ↦ absurd (cc (e, h))
        | inr (s, e) ↦
            let (m, i) = find-mem (λ (x : Step). x.id == step_id) (loaded_steps d) e in
            subst (IsTarget company_id document_id step_id st) (target_eq d e h) (record {
              found = found;
              unmanaged = unmanaged;
              loaded = refl;
              member = mem-of_loaded_steps d m;
              step_id_eq = (nat_beq_iff _ _).0 i;
            })
      ]

  pub load_action_target-IsTarget :
      load_action_target st company_id document_id step_id ≡ ok t
      → IsTarget company_id document_id step_id st t
  unfolding load_action_target
  load_action_target-IsTarget h =
      elim (Option-cases (find_document company_id document_id st.documents)) [
        | inl e ↦ absurd (ground (arith, e))
        | inr (d, e) ↦ elim (Option-cases d.request_id) [
          | inl unmanaged ↦ find_step-IsTarget d e unmanaged (ground (arith, e))
          | inr (r, managed) ↦ absurd (ground (arith, e))
        ]
      ]

-- The role checks, read back.
pub role_of_includes : (role r : StepRole) → includes (role ∷ []) r ≡ true → r ≡ role
unfolding includes
role_of_includes role r h = (step_role_beq_iff r role).0 (ground arith)
