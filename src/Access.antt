-- ===== src/Access.antt =====
-- Access levels and the token's payload: packages/shared-constants/src/access-level.ts,
-- packages/shared-constants/src/permissions.ts, apps/api/src/common/types/jwt-payload.type.ts.
use able_work.Base.{ℕ, Bool, false, Option, none, some, leb}

pub data AccessLevel : Type 0 where
  super_admin general_admin org_admin employee : AccessLevel

-- `ACCESS_LEVEL_HIERARCHY`
unfoldable pub hierarchy : AccessLevel → ℕ
hierarchy AccessLevel.super_admin = 4
hierarchy AccessLevel.general_admin = 3
hierarchy AccessLevel.org_admin = 2
hierarchy AccessLevel.employee = 1

-- The fields of the token that the modelled services read; ids are numbers.
pub record JwtPayload : Type 0 where
  pub employee_id : ℕ
  pub company_id : ℕ
  pub access_level : AccessLevel

unfoldable pub has_level : Option AccessLevel → AccessLevel → Bool
has_level none min_level = false
has_level (some level) min_level = leb (hierarchy min_level) (hierarchy level)

unfoldable pub is_admin_level : Option AccessLevel → Bool
unfolding has_level
is_admin_level level = has_level level AccessLevel.org_admin
