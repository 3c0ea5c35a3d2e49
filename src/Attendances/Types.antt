-- ===== src/Attendances/Types.antt =====
-- The rows that the attendance services read and write (apps/api/prisma/schema.prisma), the settings
-- of a company and what the server's clock and time zone give. Instants are milliseconds; a place is
-- what coordinates are sent as, and the distance of two places is a parameter (`Env`).
use able_work.Base.{ℕ, Bool, true, Option, List, Equality, nat_beq, ◌≡◌, ◌↔◌, arith}

pub data AttendanceStatus : Type 0 where
  normal late early_leave absent oncall remote deemed_work : AttendanceStatus

abbrev status_code : AttendanceStatus → ℕ
status_code AttendanceStatus.normal = 0
status_code AttendanceStatus.late = 1
status_code AttendanceStatus.early_leave = 2
status_code AttendanceStatus.absent = 3
status_code AttendanceStatus.oncall = 4
status_code AttendanceStatus.remote = 5
status_code AttendanceStatus.deemed_work = 6

abbrev status_beq : AttendanceStatus → AttendanceStatus → Bool
status_beq a b = nat_beq (status_code a) (status_code b)

pub status_beq_iff : (a b : AttendanceStatus) → (status_beq a b ≡ true) ↔ (a ≡ b)
status_beq_iff a b = ground arith

instance abbrev pub attendance_status_eq : Equality AttendanceStatus
attendance_status_eq = record { same = status_beq; same_iff = status_beq_iff }

pub data TimeclockAuthMethod : Type 0 where
  gps wifi gps_or_wifi gps_and_wifi no_check : TimeclockAuthMethod

pub data Channel : Type 0 where
  web app : Channel

pub data UnscheduledPolicy : Type 0 where
  always if_no_shift never : UnscheduledPolicy

pub record Place : Type 0 where
  pub lat : ℕ
  pub lng : ℕ

pub record TimeclockArea : Type 0 where
  pub id : ℕ
  pub company_id : ℕ
  pub is_active : Bool
  pub auth_method : TimeclockAuthMethod
  pub location : Option Place
  pub radius_meters : Option ℕ
  pub organization_ids : List ℕ

pub record Shift : Type 0 where
  pub id : ℕ
  pub employee_id : ℕ
  pub start_at : ℕ
  pub end_at : ℕ
  pub is_deemed_work : Bool

pub record Attendance : Type 0 where
  pub id : ℕ
  pub employee_id : ℕ
  pub shift_id : Option ℕ
  pub clock_in_at : ℕ
  pub clock_out_at : Option ℕ
  pub status : AttendanceStatus
  pub is_oncall : Bool
  pub is_confirmed : Bool

pub record AttendanceBreak : Type 0 where
  pub id : ℕ
  pub attendance_id : ℕ
  pub start_at : ℕ
  pub end_at : Option ℕ

pub record Employee : Type 0 where
  pub id : ℕ
  pub company_id : ℕ
  pub is_active : Bool
  pub organization_ids : List ℕ

pub record Position : Type 0 where
  pub id : ℕ
  pub company_id : ℕ
  pub is_active : Bool

pub record Settings : Type 0 where
  pub late_grace_minutes : ℕ
  pub clockin_before_shift_minutes : ℕ
  pub allow_unscheduled : UnscheduledPolicy

pub record Store : Type 0 where
  pub attendances : List Attendance
  pub breaks : List AttendanceBreak
  pub shifts : List Shift
  pub employees : List Employee
  pub positions : List Position
  pub areas : List TimeclockArea
  pub drawn : ℕ

-- The settings of the company, the first and the last instant of the local day of an instant, and
-- whether two places lie farther apart than a number of metres.
pub record Env : Type 0 where
  pub settings : Settings
  pub day_start : ℕ → ℕ
  pub day_end : ℕ → ℕ
  pub is_beyond : Place → Place → ℕ → Bool
