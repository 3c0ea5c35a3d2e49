-- ===== src/Requests/ShiftTimes.antt =====
-- request-effects.service.ts, `applyShiftCreate`: the times of a shift that an approved request adds.
use able_work.Base.{
  ℕ, ◌+◌, ◌≤◌, ◌<◌, ◌≡◌, refl, ◌∷◌, ◌*◌, All, All-get, find-mem, or_else, arith, true,
}
use able_work.Calendar.{ms_per_day}
use able_work.Errors.{ok, Error, Holds, Holds-ok, Holds-err, Holds-bind, Holds-option, Holds-eq_ok}
use able_work.Leaves.Groups.{found_or}
use able_work.Requests.Types.{Payload, Shift, ShiftTemplate, Store, Env}
use able_work.Requests.LeaveEffects.{required}
use able_work.Requests.ShiftEffects.{
  end_after, primary_membership, plan_shift, ShiftPlan, find_template, default_shift_type,
  apply_shift_create,
}

-- A time zone without daylight saving: two times of one date lie apart by their minutes.
abbrev pub IsUniform : Env → Type 0
IsUniform env = (d m n : ℕ) → env.local_time d m + n * 60_000 ≡ env.local_time d n + m * 60_000

-- From `00:00` to `23:59`.
abbrev pub IsTime : ℕ → Type 0
IsTime m = m < 1440

-- The times that a request gives, and those of the templates, are times of a day.
pub record HasTimes (payload : Payload) (st : Store) : Type 0 where
  pub start : IsTime (or_else payload.start_time 540)
  pub end : IsTime (or_else payload.end_time 1080)
  pub templates :
      All (λ (t : ShiftTemplate). IsTime t.start_time × IsTime t.end_time) st.shift_templates

within_day :
    (env : Env) (d m n : ℕ)
    → IsUniform env
    → IsTime m
    → env.local_time d m < env.local_time d n + ms_per_day
within_day env d m n uniform time = omega (arith, uniform d m n)

-- A shift ends after it starts, and a day later at most.
abbrev pub IsDaily : Shift → Type 0
IsDaily s = (s.start_at < s.end_at) × (s.end_at ≤ s.start_at + ms_per_day)

end_after_range :
    (start end : ℕ)
    → start < end + ms_per_day
    → end < start + ms_per_day
    → (start < end_after start end) × (end_after start end ≤ start + ms_per_day)
unfolding end_after
end_after_range start end h k = (ground arith, ground arith)

abbrev IsPlanned : ShiftPlan → Type 0
IsPlanned p = (p.start_at < p.end_at + ms_per_day) × (p.end_at < p.start_at + ms_per_day)

plan_shift-IsPlanned :
    (env : Env) (c e : ℕ) (payload : Payload) (date : ℕ) (st : Store)
    → IsUniform env
    → HasTimes payload st
    → Holds IsPlanned (plan_shift env c e payload date st)
unfolding plan_shift find_template
plan_shift-IsPlanned env c e payload date st uniform times =
    Holds-option IsPlanned payload.template_id _ _
      (λ _.
        Holds-option IsPlanned (default_shift_type c st) _ _
          (λ _. Holds-err IsPlanned Error.shift_type_not_found)
          (λ _ _. Holds-ok IsPlanned _ (
            within_day env date _ _ uniform times.start,
            within_day env date _ _ uniform times.end,
          )))
      (λ id _.
        Holds-option IsPlanned (find_template c id st) _ _
          (λ _. Holds-err IsPlanned Error.shift_template_not_found)
          (λ t found.
            let (member, _) = find-mem _ st.shift_templates found in
            let (start, end) =
              All-get (λ (t : ShiftTemplate). IsTime t.start_time × IsTime t.end_time)
                st.shift_templates times.templates member in
            Holds-ok IsPlanned _
              (within_day env date _ _ uniform start, within_day env date _ _ uniform end)))

-- In a time zone without daylight saving, where the request and the templates give times from 00:00 to
-- 23:59, an approved request for a shift that is applied adds a shift of the requester that ends after
-- it starts and a day later at most.
pub apply_shift_create-IsDaily :
    (env : Env) (c e : ℕ) (payload : Payload) (st st' : Store)
    → IsUniform env
    → HasTimes payload st
    → apply_shift_create env c e payload st ≡ ok st'
    → (s : Shift) × (st'.shifts ≡ (s ∷ st.shifts)) × (s.employee_id ≡ e) × IsDaily s
unfolding apply_shift_create
apply_shift_create-IsDaily env c e payload st st' uniform times h =
    let P : Store → Type 0 =
      λ s'. (s : Shift) × (s'.shifts ≡ (s ∷ st.shifts)) × (s.employee_id ≡ e) × IsDaily s in
    Holds-eq_ok P _ h (
      Holds-bind P (required payload.date) _ (λ date _.
        Holds-bind P (found_or (primary_membership c e st) Error.employee_organization_not_found) _
          (λ org _. Holds-bind P (plan_shift env c e payload date st) _ (λ plan planned.
            let (lo, hi) =
              Holds-eq_ok IsPlanned _ planned
                (plan_shift-IsPlanned env c e payload date st uniform times) in
            Holds-ok P _ (
              record {
                id = st.drawn;
                employee_id = e;
                organization_id = org.organization_id;
                shift_type_id = plan.shift_type_id;
                template_id = plan.template_id;
                start_at = plan.start_at;
                end_at = end_after plan.start_at plan.end_at;
                is_confirmed = true;
              },
              refl,
              refl,
              end_after_range plan.start_at plan.end_at lo hi,
            )))))
