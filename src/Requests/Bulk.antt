-- ===== src/Requests/Bulk.antt =====
-- request-approval.service.ts, `bulkApprove`: single approvals in the order of the ids.
use able_work.Base.{ℕ, Bool, true, false, List, [], ◌∷◌, ◌≡◌, inl, inr}
use able_work.Access.{JwtPayload}
use able_work.Errors.{Error, ok, err, Result-cases}
use able_work.Requests.Types.{Store, Env}
use able_work.Requests.Approval.{approve, bulk_approve}

-- An approver goes through requests one by one: each is approved, or refused and passed over, and the
-- outcome is reported.
pub data ApprovesEach (env : Env) (company_id : ℕ) (who : JwtPayload)
    : List ℕ → Store → List (ℕ × Bool) → Store → Type 0 where
  done : (st : Store) → ApprovesEach env company_id who [] st [] st
  approved :
      (id : ℕ) (ids : List ℕ) (st st' st'' : Store) (results : List (ℕ × Bool))
      → approve env company_id id who st ≡ ok st'
      → ApprovesEach env company_id who ids st' results st''
      → ApprovesEach env company_id who (id ∷ ids) st ((id, true) ∷ results) st''
  refused :
      (id : ℕ) (ids : List ℕ) (st st'' : Store) (results : List (ℕ × Bool)) (code : Error)
      → approve env company_id id who st ≡ err code
      → ApprovesEach env company_id who ids st results st''
      → ApprovesEach env company_id who (id ∷ ids) st ((id, false) ∷ results) st''

-- A bulk approval does the single approvals of its ids by the same approver, in their order, each on the
-- store that the one before has left; it passes over those that fail, and reports of each id whether
-- its approval has succeeded.
pub bulk_approve-ApprovesEach :
    (env : Env) (company_id : ℕ) (ids : List ℕ) (who : JwtPayload) (st : Store)
    → ApprovesEach env company_id who ids st
        (bulk_approve env company_id ids who st).0
        (bulk_approve env company_id ids who st).1
unfolding bulk_approve
bulk_approve-ApprovesEach env c [] who st = ApprovesEach.done st
bulk_approve-ApprovesEach env c (id ∷ ids) who st = elim (Result-cases (approve env c id who st)) [
  | inl (s, e) ↦
      rw (bulk_approve, e)
        (ApprovesEach.approved id ids st s _ _ e (bulk_approve-ApprovesEach env c ids who s))
  | inr (code, e) ↦
      rw (bulk_approve, e)
        (ApprovesEach.refused id ids st _ _ code e (bulk_approve-ApprovesEach env c ids who st))
]
