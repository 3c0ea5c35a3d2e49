-- ===== src/Errors.antt =====
-- The error codes that the modelled services throw, and results that may be such an error.
-- `unique_violation` is Prisma's P2002, which the database raises; `missing_assignee` its refusal of
-- a step row with no assignee. `approval_forbidden`, `force_forbidden` and `attendance_forbidden`
-- stand for the exceptions that carry a message and no code, and `invalid_query` for what the database
-- client refuses when a value that the call takes for granted is missing.
use able_work.Base.{
  ◌⊎◌, inl, inr, ◌≡◌, refl, subst, Bool, true, false, if◌then◌else◌, Option, none, some,
}

pub data Error : Type 0 where
  document_not_found document_managed_by_request document_not_drafter : Error
  document_access_forbidden document_not_pending document_not_approved : Error
  document_already_submitted document_not_draft document_cannot_recall : Error
  document_cannot_cancel document_pre_approval_not_allowed : Error
  document_force_delete_forbidden document_linked_to_request : Error
  document_cc_not_allowed document_cc_forbidden document_cc_duplicate : Error
  document_no_approval_line document_opinion_not_allowed : Error
  approval_step_not_found approval_step_not_assignee approval_proxy_expired : Error
  approval_step_not_current approval_step_role_mismatch approval_prev_reject_disabled : Error
  approval_step_no_previous approval_line_empty approval_self_not_allowed : Error
  shared_line_not_found shared_line_invalid employee_not_found org_not_found : Error
  dept_no_manager form_not_found form_access_denied : Error
  proxy_self_not_allowed proxy_period_invalid proxy_setting_not_found : Error
  unique_violation missing_assignee : Error
  accrual_rule_not_found leave_group_not_found leave_type_not_found leave_group_in_use : Error
  leave_type_in_use leave_balance_forbidden leave_balance_not_found : Error
  leave_balance_insufficient leave_balance_expired leave_type_inactive leave_not_found : Error
  leave_time_same_day_only leave_time_invalid leave_time_exceeds_limit : Error
  request_not_found request_not_pending request_self_approval request_already_approved : Error
  request_payload_invalid request_cancel_forbidden request_edit_forbidden : Error
  request_no_approver approval_forbidden force_forbidden : Error
  shift_not_found shift_template_not_found shift_type_not_found : Error
  employee_organization_not_found attendance_not_found attendance_already_confirmed : Error
  approval_rule_not_found approval_rule_in_use invalid_query : Error
  attendance_already_clocked_in attendance_org_not_member attendance_unscheduled_not_allowed : Error
  attendance_forbidden attendance_wifi_app_only attendance_location_required
        attendance_out_of_range :
      Error
  timeclock_area_not_found timeclock_area_org_mismatch position_not_found break_not_found : Error

-- What a service call gives: its value, or the error that it throws.
pub data Result {ℓ} (V : Type ℓ) : Type ℓ where
  ok : V → Result V
  err : Error → Result V

infixl 5 ◌>>=◌
abbrev pub ◌>>=◌ {ℓ κ} : {V : Type ℓ} {W : Type κ} → Result V → (V → Result W) → Result W
◌>>=◌ (ok v) next = next v
◌>>=◌ (err thrown) next = err thrown

infixl 5 ◌>>◌
abbrev pub ◌>>◌ {ℓ} : {W : Type ℓ} → Result (Unit {0}) → Result W → Result W
◌>>◌ (ok done) after = after
◌>>◌ (err thrown) after = err thrown

-- `if (!passes) throw new …Exception({ code })`
abbrev pub guard : Bool → Error → Result (Unit {0})
guard passes code = if passes then ok tt else err code

-- A call that succeeded has passed its first step.
pub >>=-eq_ok {ℓ κ} :
    {V : Type ℓ} {W : Type κ} (first : Result V) (next : V → Result W) {w : W}
    → (first >>= next) ≡ ok w
    → (v : V) × (first ≡ ok v) × (next v ≡ ok w)
>>=-eq_ok (err thrown) next h = cc
>>=-eq_ok (ok v) next h = (v, refl, h)

pub guard-eq_ok {ℓ} :
    {W : Type ℓ} (passes : Bool) (code : Error) (after : Result W) {w : W}
    → (guard passes code >> after) ≡ ok w
    → (passes ≡ true) × (after ≡ ok w)
guard-eq_ok false code after h = cc
guard-eq_ok true code after h = (refl, h)

pub ok-injective {ℓ} : {V : Type ℓ} (v w : V) → ok v ≡ ok w → v ≡ w
ok-injective v w h = cc

-- What holds of a call's value if the call gives one.
unfoldable pub Holds {ℓ κ} : {V : Type ℓ} → (V → Type κ) → Result V → Type κ
Holds P (ok v) = P v
Holds P (err thrown) = Unit

module _ {ℓ κ} {W : Type ℓ} (P : W → Type κ) where
  pub Holds-ok : (w : W) → P w → Holds P (ok w)
  unfolding Holds
  Holds-ok w h = h

  pub Holds-err : (thrown : Error) → Holds P (err thrown)
  unfolding Holds
  Holds-err thrown = tt

  pub Holds-bind {μ} :
      {V : Type μ} (first : Result V) (next : V → Result W)
      → ((v : V) → first ≡ ok v → Holds P (next v))
      → Holds P (first >>= next)
  unfolding Holds
  Holds-bind (ok v) next h = h v refl
  Holds-bind (err thrown) next h = tt

  pub Holds-then :
      (first : Result (Unit {0})) (after : Result W)
      → (first ≡ ok tt → Holds P after)
      → Holds P (first >> after)
  unfolding Holds
  Holds-then (ok done) after h = h refl
  Holds-then (err thrown) after h = tt

  pub Holds-guard :
      (passes : Bool) (code : Error) (after : Result W)
      → (passes ≡ true → Holds P after)
      → Holds P (guard passes code >> after)
  unfolding Holds
  Holds-guard true code after h = h refl
  Holds-guard false code after h = tt

  pub Holds-if :
      (b : Bool) (first second : Result W)
      → (b ≡ true → Holds P first)
      → (b ≡ false → Holds P second)
      → Holds P (if b then first else second)
  unfolding Holds
  Holds-if true first second h k = h refl
  Holds-if false first second h k = k refl

  pub Holds-option {μ} :
      {A : Type μ} (o : Option A) (missing : Result W) (given : A → Result W)
      → (o ≡ none → Holds P missing)
      → ((a : A) → o ≡ some a → Holds P (given a))
      → Holds P (elim o [ none ↦ missing | some a ↦ given a ])
  unfolding Holds
  Holds-option none missing given h k = h refl
  Holds-option (some a) missing given h k = k a refl

  pub Holds-eq_ok : (call : Result W) {w : W} → call ≡ ok w → Holds P call → P w
  unfolding Holds
  Holds-eq_ok call e h = subst (Holds P) e h

pub Holds-imp {ℓ κ μ} :
    {W : Type ℓ} (P : W → Type κ) (Q : W → Type μ) (call : Result W)
    → ((w : W) → P w → Q w)
    → Holds P call
    → Holds Q call
unfolding Holds
Holds-imp P Q (ok w) f h = f w h
Holds-imp P Q (err thrown) f h = tt

pub Result-cases {ℓ} :
    {V : Type ℓ} (call : Result V)
    → ((v : V) × (call ≡ ok v)) ⊎ ((thrown : Error) × (call ≡ err thrown))
Result-cases (ok v) = inl (v, refl)
Result-cases (err thrown) = inr (thrown, refl)
