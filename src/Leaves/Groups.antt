-- ===== src/Leaves/Groups.antt =====
-- leaves.service.ts: groups, types and accrual rules, with the checks of the company that the other
-- operations begin with. Names and the options that no modelled code reads are left out; an update
-- writes the fields that its request gives.
use able_work.Base.{
  ℕ, ◌+◌, Bool, false, ◌&&◌, Option, none, some, List, ◌∷◌, ltb, if◌then◌else◌, ◌==◌, nat_eq, not,
  or_else, find, filter, any, count, map,
}
use able_work.Base.Int.{pos, ltb_ℤ}
use able_work.Errors.{Error, Result, ok, err, ◌>>=◌, ◌>>◌, guard}
use able_work.Leaves.Types.{
  TimeOption, LeaveGroup, LeaveType, AccrualItem, AccrualRule, Employee, LeaveStore,
}

-- `findFirst({ where }) ?? throw`
abbrev pub found_or {ℓ} : {A : Type ℓ} → Option A → Error → Result A
found_or none code = err code
found_or (some a) code = ok a

unfoldable pub assert_group_belongs_to_company : ℕ → ℕ → LeaveStore → Result LeaveGroup
assert_group_belongs_to_company company_id group_id st =
    found_or (find (λ g. g.id == group_id && g.company_id == company_id) st.groups)
      Error.leave_group_not_found

unfoldable pub assert_type_belongs_to_company : ℕ → ℕ → LeaveStore → Result LeaveType
assert_type_belongs_to_company company_id type_id st =
    found_or
      (find
        (λ t.
          t.id == type_id && any (λ g. g.id == t.group_id && g.company_id == company_id) st.groups)
        st.types)
      Error.leave_type_not_found

unfoldable pub assert_accrual_rule_belongs_to_company : ℕ → ℕ → LeaveStore → Result AccrualRule
assert_accrual_rule_belongs_to_company company_id rule_id st =
    found_or (find (λ r. r.id == rule_id && r.company_id == company_id) st.rules)
      Error.accrual_rule_not_found

unfoldable pub assert_employee_belongs_to_company : ℕ → ℕ → LeaveStore → Result Employee
assert_employee_belongs_to_company company_id employee_id st =
    found_or (find (λ e. e.id == employee_id && e.company_id == company_id) st.employees)
      Error.employee_not_found

unfoldable pub create_group : ℕ → Bool → LeaveStore → LeaveStore
create_group company_id is_active st = record st {
  groups = record { id = st.drawn; company_id = company_id; is_active = is_active } ∷ st.groups;
  drawn = st.drawn + 1;
}

unfoldable pub update_group : ℕ → ℕ → Option Bool → LeaveStore → Result LeaveStore
unfolding assert_group_belongs_to_company
update_group company_id id is_active st = do
  _ ← assert_group_belongs_to_company company_id id st
  ok (record st {
    groups =
        map (λ g. if g.id == id then record g { is_active = or_else is_active g.is_active } else g)
          st.groups;
  })

-- The balances with days left of the types of a group.
unfoldable pub group_in_use : ℕ → LeaveStore → ℕ
group_in_use id st =
    count
      (λ b.
        any (λ t. t.id == b.leave_type_id && t.group_id == id) st.types
        && ltb_ℤ (pos 0) b.remaining_days)
      st.balances

unfoldable pub delete_group : ℕ → ℕ → LeaveStore → Result LeaveStore
unfolding assert_group_belongs_to_company group_in_use
delete_group company_id id st = do
  _ ← assert_group_belongs_to_company company_id id st
  guard (not (ltb 0 (group_in_use id st))) Error.leave_group_in_use
  ok (record st {
    types = map (λ t. if t.group_id == id then record t { is_active = false } else t) st.types;
    groups = map (λ g. if g.id == id then record g { is_active = false } else g) st.groups;
  })

pub record CreateLeaveType : Type 0 where
  pub group_id : ℕ
  pub time_option : TimeOption
  pub paid_hours : Option ℕ
  pub deduction_days : ℕ
  pub is_active : Bool

unfoldable pub create_type : ℕ → CreateLeaveType → LeaveStore → Result LeaveStore
unfolding assert_group_belongs_to_company
create_type company_id dto st = do
  _ ← assert_group_belongs_to_company company_id dto.group_id st
  ok (record st {
    types =
        record {
          id = st.drawn;
          group_id = dto.group_id;
          time_option = dto.time_option;
          paid_hours = dto.paid_hours;
          deduction_days = dto.deduction_days;
          is_active = dto.is_active;
        }
        ∷ st.types;
    drawn = st.drawn + 1;
  })

-- The group is no field of an update.
pub record UpdateLeaveType : Type 0 where
  pub time_option : Option TimeOption
  pub paid_hours : Option ℕ
  pub deduction_days : Option ℕ
  pub is_active : Option Bool

unfoldable pub update_type : ℕ → ℕ → UpdateLeaveType → LeaveStore → Result LeaveStore
unfolding assert_type_belongs_to_company
update_type company_id id dto st = do
  _ ← assert_type_belongs_to_company company_id id st
  ok (record st {
    types =
        map
          (λ t.
            if t.id == id
            then record t {
              time_option = or_else dto.time_option t.time_option;
              paid_hours = elim dto.paid_hours [ none ↦ t.paid_hours | some h ↦ some h ];
              deduction_days = or_else dto.deduction_days t.deduction_days;
              is_active = or_else dto.is_active t.is_active;
            }
            else t)
          st.types;
  })

unfoldable pub type_in_use : ℕ → LeaveStore → ℕ
type_in_use id st = count (λ b. b.leave_type_id == id && ltb_ℤ (pos 0) b.remaining_days) st.balances

unfoldable pub delete_type : ℕ → ℕ → LeaveStore → Result LeaveStore
unfolding assert_type_belongs_to_company type_in_use
delete_type company_id id st = do
  _ ← assert_type_belongs_to_company company_id id st
  guard (not (ltb 0 (type_in_use id st))) Error.leave_type_in_use
  ok (record st {
    types = map (λ t. if t.id == id then record t { is_active = false } else t) st.types;
  })

pub record CreateAccrualRule : Type 0 where
  pub leave_group_id : ℕ
  pub is_active : Bool
  pub items : List AccrualItem

unfoldable pub create_accrual_rule : ℕ → CreateAccrualRule → LeaveStore → Result LeaveStore
unfolding assert_group_belongs_to_company
create_accrual_rule company_id dto st = do
  _ ← assert_group_belongs_to_company company_id dto.leave_group_id st
  ok (record st {
    rules =
        record {
          id = st.drawn;
          company_id = company_id;
          leave_group_id = dto.leave_group_id;
          is_active = dto.is_active;
          items = dto.items;
        }
        ∷ st.rules;
    drawn = st.drawn + 1;
  })

pub record UpdateAccrualRule : Type 0 where
  pub leave_group_id : Option ℕ
  pub is_active : Option Bool
  pub items : Option (List AccrualItem)

-- A new group is checked only if the request names one.
unfoldable pub assert_given_group : ℕ → Option ℕ → LeaveStore → Result (Unit {0})
unfolding assert_group_belongs_to_company
assert_given_group company_id none st = ok tt
assert_given_group company_id (some group_id) st = do
  _ ← assert_group_belongs_to_company company_id group_id st
  ok tt

-- Given items take the place of all that the rule had.
unfoldable pub update_accrual_rule : ℕ → ℕ → UpdateAccrualRule → LeaveStore → Result LeaveStore
unfolding assert_accrual_rule_belongs_to_company assert_given_group
update_accrual_rule company_id id dto st = do
  _ ← assert_accrual_rule_belongs_to_company company_id id st
  _ ← assert_given_group company_id dto.leave_group_id st
  ok (record st {
    rules =
        map
          (λ r.
            if r.id == id
            then record r {
              leave_group_id = or_else dto.leave_group_id r.leave_group_id;
              is_active = or_else dto.is_active r.is_active;
              items = or_else dto.items r.items;
            }
            else r)
          st.rules;
  })

unfoldable pub delete_accrual_rule : ℕ → ℕ → LeaveStore → Result LeaveStore
unfolding assert_accrual_rule_belongs_to_company
delete_accrual_rule company_id id st = do
  _ ← assert_accrual_rule_belongs_to_company company_id id st
  ok (record st { rules = filter (λ r. not (r.id == id)) st.rules })
