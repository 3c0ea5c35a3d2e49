-- ===== src/Requests/Effects.antt =====
-- request-effects.service.ts, `applyApprovedRequest`: an approved request on the rows that it is
-- about, by its type.
use able_work.Base.{ℕ, Option, if◌then◌else◌, ◌==◌, nat_eq, map}
use able_work.Errors.{Result, ok, ◌>>=◌}
use able_work.Leaves.Types.{Employee, LeaveStore}
use able_work.Requests.Types.{RequestType, Payload, Request, Store, Env}
use able_work.Requests.LeaveEffects.{apply_leave_create, apply_leave_modify, apply_leave_delete}
use able_work.Requests.ShiftEffects.{
  apply_shift_create, apply_shift_modify, apply_shift_delete, apply_attendance_upsert,
  apply_attendance_delete,
}

-- An effect on the leave tables.
abbrev pub on_leave : (LeaveStore → Result LeaveStore) → Store → Result Store
on_leave f st = f st.leave >>= λ leave. ok (record st { leave = leave })

-- The new device is bound, or the old one released.
unfoldable pub change_device : ℕ → Option ℕ → LeaveStore → LeaveStore
change_device employee_id device_id st = record st {
  employees =
      map (λ (e : Employee). if e.id == employee_id then record e { device_id = device_id } else e)
        st.employees;
}

-- The effect of a request type with its payload on the requester's rows.
unfoldable pub apply_effect : Env → ℕ → ℕ → RequestType → Payload → Store → Result Store
unfolding apply_leave_create apply_leave_modify apply_leave_delete apply_shift_create
    apply_shift_modify apply_shift_delete apply_attendance_upsert apply_attendance_delete
    change_device
apply_effect env company_id e RequestType.leave_create payload =
    on_leave (apply_leave_create env company_id e payload)
apply_effect env company_id e RequestType.leave_modify payload =
    on_leave (apply_leave_modify env company_id e payload)
apply_effect env company_id e RequestType.leave_delete payload =
    on_leave (apply_leave_delete env company_id e payload)
apply_effect env company_id e RequestType.shift_create payload =
    apply_shift_create env company_id e payload
apply_effect env company_id e RequestType.shift_modify payload =
    apply_shift_modify env company_id e payload
apply_effect env company_id e RequestType.shift_delete payload =
    apply_shift_delete env company_id e payload
apply_effect env company_id e RequestType.attendance_edit payload =
    apply_attendance_upsert env company_id e payload
apply_effect env company_id e RequestType.attendance_create payload =
    apply_attendance_upsert env company_id e payload
apply_effect env company_id e RequestType.attendance_delete payload =
    apply_attendance_delete env company_id e payload
apply_effect env company_id e RequestType.device_change payload =
    λ st. ok (record st { leave = change_device e payload.new_device_id st.leave })
apply_effect env company_id e RequestType.offsite_work payload = λ st. ok st
apply_effect env company_id e RequestType.custom payload = λ st. ok st

unfoldable pub apply_approved_request : Env → ℕ → Request → Store → Result Store
unfolding apply_effect
apply_approved_request env company_id request =
    apply_effect env company_id request.requester_id request.request_type request.payload
