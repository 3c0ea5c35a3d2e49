-- ===== src/Documents/Drafts/Notes.antt =====
-- documents.service.ts: `addCcSteps` and `addOpinion`.
use able_work.Base.{
  ℕ, suc, ◌+◌, Bool, not, ◌&&◌, ◌||◌, none, some, List, [], ◌∷◌, ◌++◌, any, filter, length, leb,
  if◌then◌else◌, ◌==◌, nat_eq,
}
use able_work.Access.{JwtPayload}
use able_work.Errors.{Error, Result, ok, guard, ◌>>=◌, ◌>>◌}
use able_work.Documents.Constants.{
  DocStatus, StepStatus, HistoryAction, doc_status_eq, step_role_eq,
}
use able_work.Documents.Types.{
  Text, Step, ApprovalLine, Document, Event, CcStep, Store, Env, steps_of,
}
use able_work.Documents.Store.{set_document, add_history, emit}
use able_work.Documents.Helpers.{is_flow, assert_not_request_managed, assert_can_read}
use able_work.Documents.Steps.{is_empty}
use able_work.Documents.Steps.Submit.{new_step}
use able_work.Documents.Drafts.{load_document}

-- `${role}:${assigneeId}` is in the set of the existing keys.
unfoldable pub is_assigned : List Step → CcStep → Bool
is_assigned steps c = any (λ s. s.role == c.role && s.assignee_id == c.assignee_id) steps

-- `Math.max` over the orders, from 0.
unfoldable pub max_order : ℕ → List Step → ℕ
max_order so_far [] = so_far
max_order so_far (s ∷ r) = max_order (if leb so_far s.step_order then s.step_order else so_far) r

-- The rows of `createMany`: the orders go on behind the largest.
unfoldable pub cc_steps : Env → ℕ → ℕ → List CcStep → List Step
unfolding new_step
cc_steps env drawn order [] = []
cc_steps env drawn order (c ∷ r) =
    new_step (env.uuid drawn) StepStatus.pending (record {
      role = c.role;
      assignee_id = c.assignee_id;
      organization_id = none;
      step_order = order + 1;
    })
    ∷ cc_steps env (suc drawn) (order + 1) r

-- The rows belong to the document's first line.
add_to_first_line : List Step → List ApprovalLine → List ApprovalLine
add_to_first_line steps [] = []
add_to_first_line steps (l ∷ ls) = record l { steps = l.steps ++ steps } ∷ ls

unfoldable pub with_cc_steps : List Step → Document → Document
unfolding add_to_first_line
with_cc_steps steps d = record d { approval_lines = add_to_first_line steps d.approval_lines }

emit_cc : ℕ → List CcStep → Store → Store
unfolding emit
emit_cc document_id [] st = st
emit_cc document_id (c ∷ r) st =
    emit_cc document_id r (emit (Event.document_step_pending document_id c.assignee_id) st)

unfoldable pub is_cc_allowed : Document → JwtPayload → Bool
unfolding is_flow
is_cc_allowed d user =
    d.drafter_id == user.employee_id
    || any (λ s. is_flow s.role && s.assignee_id == user.employee_id) (steps_of d)

unfoldable pub add_cc_steps : Env → ℕ → ℕ → List CcStep → JwtPayload → Store → Result Store
unfolding load_document assert_not_request_managed is_cc_allowed is_assigned cc_steps max_order
    with_cc_steps set_document emit_cc
add_cc_steps env company_id document_id given user st = do
  document ← load_document st company_id document_id
  assert_not_request_managed document
  guard (document.status == DocStatus.pending || document.status == DocStatus.approved)
      Error.document_cc_not_allowed
  guard (is_cc_allowed document user) Error.document_cc_forbidden
  guard (not (is_empty document.approval_lines)) Error.document_no_approval_line
  let fresh = filter (λ (c : CcStep). not (is_assigned (steps_of document) c)) given
  guard (not (is_empty fresh)) Error.document_cc_duplicate
  let rows = cc_steps env st.drawn (max_order 0 (steps_of document)) fresh
  let st' = set_document document.id (with_cc_steps rows) st
  ok (emit_cc document.id fresh (record st' { drawn = st.drawn + length fresh }))

-- The white space of `String.trim`.
is_space : ℕ → Bool
is_space c =
    (leb 9 c && leb c 13)
    || c == 32
    || c == 160
    || c == 0x1680
    || (leb 0x2000 c && leb c 0x200a)
    || c == 0x2028
    || c == 0x2029
    || c == 0x202f
    || c == 0x205f
    || c == 0x3000
    || c == 0xfeff

trim_start : Text → Text
unfolding is_space
trim_start [] = []
trim_start (c ∷ t) = if is_space c then trim_start t else c ∷ t

trim_end : Text → Text
unfolding is_space
trim_end [] = []
trim_end (c ∷ t) = let rest = trim_end t in if is_empty rest && is_space c then [] else c ∷ rest

unfoldable pub trim : Text → Text
unfolding trim_start trim_end
trim t = trim_end (trim_start t)

unfoldable pub add_opinion : ℕ → ℕ → Text → JwtPayload → Store → Result Store
unfolding load_document assert_can_read trim add_history
add_opinion company_id document_id comment user st = do
  document ← load_document st company_id document_id
  guard (not (document.status == DocStatus.draft)) Error.document_opinion_not_allowed
  assert_can_read document user
  ok (
      add_history
        (record {
          document_id = document_id;
          step_id = none;
          actor_id = user.employee_id;
          action = HistoryAction.opinion;
          comment = some (trim comment);
        })
        st)
