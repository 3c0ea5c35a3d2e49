-- ===== src/Documents/Support/Authority.antt =====
-- `resolveActor`: who may act on a step.
use able_work.Base.{
  ℕ, ◌≤◌, ◌≡◌, Bool, true, false, ◌&&◌, ◌||◌, inl, inr, ◌⊎◌, some, Memᴰ, arith, filter,
  first_descending, mem-of_filter, Option-cases, Bool-cases, ltb, ◌==◌, nat_eq,
}
use able_work.Access.{JwtPayload}
use able_work.Errors.{ok}
use able_work.Documents.Types.{Step, ProxySetting, Store, Env}
use able_work.Documents.Support.{is_dept_manager, latest_proxy_setting, resolve_actor}

-- The setting lets the actor act for the principal today.
pub record Covers (env : Env) (principal_id proxy_id : ℕ) (setting : ProxySetting) : Type 0 where
  pub principal : setting.principal_id ≡ principal_id
  pub proxy : setting.proxy_id ≡ proxy_id
  pub active : setting.is_active ≡ true
  pub started : setting.start_date ≤ env.today
  pub not_ended : env.today ≤ setting.end_date

-- The assignee and a document manager of the step's department act for themselves; anyone else acts
-- as a proxy under a setting that covers today.
abbrev pub IsAuthorized : Env → Store → Step → JwtPayload → Bool → Type 0
IsAuthorized env st step actor is_proxy =
    ((is_proxy ≡ false)
      × ((step.assignee_id ≡ actor.employee_id)
          ⊎ (is_dept_manager st step actor.employee_id ≡ true)))
    ⊎ ((is_proxy ≡ true)
        × ((setting : ProxySetting) × Memᴰ setting st.proxy_settings
            × Covers env step.assignee_id actor.employee_id setting))

abbrev is_for : ℕ → ℕ → ProxySetting → Bool
is_for principal_id proxy_id p =
    p.principal_id == principal_id && p.proxy_id == proxy_id && p.is_active

-- The newest setting is an active one of the two.
latest_proxy_setting_mem :
    (st : Store) (principal_id proxy_id : ℕ) {setting : ProxySetting}
    → latest_proxy_setting st principal_id proxy_id ≡ some setting
    → Memᴰ setting st.proxy_settings × (is_for principal_id proxy_id setting ≡ true)
unfolding latest_proxy_setting
latest_proxy_setting_mem st principal_id proxy_id e =
    let (m, newest) =
      first_descending (λ (p : ProxySetting). p.created_at)
        (filter (is_for principal_id proxy_id) st.proxy_settings) e in
    mem-of_filter (is_for principal_id proxy_id) st.proxy_settings m

Covers-of :
    (env : Env) (principal_id proxy_id : ℕ) (setting : ProxySetting)
    → is_for principal_id proxy_id setting ≡ true
    → ltb env.today setting.start_date || ltb setting.end_date env.today ≡ false
    → Covers env principal_id proxy_id setting
Covers-of env principal_id proxy_id setting h r = record {
  principal = ground arith;
  proxy = ground arith;
  active = ground arith;
  started = ground arith;
  not_ended = ground arith;
}

-- Where `resolveActor` lets the actor act, the actor is the step's assignee or a document manager of
-- the step's department and not marked as a proxy, or is marked as a proxy and an active setting
-- of the assignee for the actor covers today.
pub resolve_actor-IsAuthorized :
    (env : Env) (st : Store) (step : Step) (actor : JwtPayload) {is_proxy : Bool}
    → resolve_actor env st step actor ≡ ok is_proxy
    → IsAuthorized env st step actor is_proxy
unfolding resolve_actor
resolve_actor-IsAuthorized env st step actor h =
    elim (Bool-cases (step.assignee_id == actor.employee_id)) [
      | inl own ↦ inl (ground (arith, own), inl (ground (arith, own)))
      | inr other ↦ elim (Bool-cases (is_dept_manager st step actor.employee_id)) [
        | inl manager ↦ inl (ground (arith, other, manager), inr manager)
        | inr not_manager ↦
            elim (Option-cases (latest_proxy_setting st step.assignee_id actor.employee_id)) [
              | inl e ↦ absurd (ground (arith, other, not_manager, e))
              | inr (setting, e) ↦
                  let (m, p) = latest_proxy_setting_mem st step.assignee_id actor.employee_id e in
                  elim (Bool-cases
                    (ltb env.today setting.start_date || ltb setting.end_date env.today)) [
                      | inl expired ↦ absurd (ground (arith, other, not_manager, e, expired))
                      | inr covered ↦ inr (
                        ground (arith, other, not_manager, e, covered),
                        (
                          setting,
                          m,
                          Covers-of env step.assignee_id actor.employee_id setting p covered,
                        ),
                      )
                    ]
            ]
      ]
    ]
