-- ===== src/Operation/Reports.antt =====
-- reporter.go: what a provider may report of the operations it carries out.
use nervud.Base.{ℕ, Bool, true, false, not, ◌&&◌, Option, none, some, [], ◌==◌, if◌then◌else◌}
use nervud.Base.Int.{ℤ}
use nervud.Operation.State.{
  State, running, cancel_requested, succeeded, failed, cancelled, same_state, terminal,
  can_transition,
}
use nervud.Operation.Types.{
  Bytes, StatusCode, unspecified_code, ok_code, cancelled_code, internal, invalid_argument,
  failed_precondition, deadline_code, unavailable, resource_exhausted, not_found, Error,
  err_not_found, illegal_transition, already_terminal, stale_epoch, superseded, deadline_exceeded,
  provider_contract, not_running, provider_failed, Action, accepts, succeeds, fails, cancels,
  illegal, safety_superseded, deadline_passed, Operation, Event, event_progress, Manager, find_op,
}
use nervud.Operation.Locked.{record_op, emit_locked, transition_locked, terminate_locked}
use nervud.Operation.Surface.{is_past, is_stale}

-- `supersededOrExpiredLocked`: the code and the reason, where the system takes the operation over.
unfoldable pub superseded_or_expired : Manager → ℤ → Operation → Option (StatusCode × Error)
superseded_or_expired m now op =
    if not (m.supersede_epoch == 0) && is_stale m.supersede_epoch op
    then some (failed_precondition, superseded)
    else if is_past now op
    then some (deadline_code, deadline_exceeded)
    else none

unfoldable pub action_for : StatusCode → Action
action_for deadline_code = deadline_passed
action_for _ = safety_superseded

unfoldable pub terminal_cause_for : State → Option Error → Option Error
terminal_cause_for to (some cause) = some cause
terminal_cause_for to none = if same_state to failed then some provider_failed else none

-- `none` is success.
unfoldable pub accept : ℕ → ℕ → ℤ → Manager → Manager × Option Error
unfolding record_op transition_locked superseded_or_expired action_for
accept id epoch now m = elim (find_op id m.ops) [
  | none ↦ (m, some err_not_found)
  | some op ↦
      (if terminal op.state
        then (m, some already_terminal)
        else if not (epoch == op.motion_epoch)
        then (
          (terminate_locked op failed failed_precondition [] fails (some stale_epoch) now m).0,
          some stale_epoch,
        )
        else elim (superseded_or_expired m now op) [
          | some (code, cause) ↦ (
            (terminate_locked op failed code [] (action_for code) (some cause) now m).0,
            some cause,
          )
          | none ↦
              (let op' = record op { state = running; updated_at = now } in
                if not (can_transition op.state running)
                then (record_op illegal op (some illegal_transition) m, some illegal_transition)
                else (record_op accepts op' none (transition_locked op running now m), none))
        ])
]

abbrev pub progress_event : Operation → Bytes → Event
progress_event op payload = record {
  operation_id = op.id;
  kind = event_progress;
  state = op.state;
  origin = op.origin;
  payload = payload;
  terminal_status = unspecified_code;
  terminal_result = [];
  terminal_error = [];
}

unfoldable pub progress : ℕ → Bytes → Manager → Manager × Option Error
unfolding emit_locked
progress id payload m = elim (find_op id m.ops) [
  | none ↦ (m, some err_not_found)
  | some op ↦
      (if not (same_state op.state running) && not (same_state op.state cancel_requested)
        then (m, some not_running)
        else (emit_locked op (progress_event op payload) m, none))
]

unfoldable pub report_terminal :
    ℕ → State → StatusCode → Bytes → Action → Option Error → ℤ → Manager → Manager × Option Error
unfolding record_op superseded_or_expired action_for terminal_cause_for
report_terminal id to status detail action cause now m = elim (find_op id m.ops) [
  | none ↦ (m, some err_not_found)
  | some op ↦
      (if same_state op.state to
        then (m, none)
        else if terminal op.state
        then (record_op illegal op (some already_terminal) m, some already_terminal)
        else elim (superseded_or_expired m now op) [
          | some (code, why) ↦
              ((terminate_locked op failed code [] (action_for code) (some why) now m).0, some why)
          | none ↦
              (if not (can_transition op.state to)
                then (record_op illegal op (some illegal_transition) m, some illegal_transition)
                else (
                  (terminate_locked op to status detail action (terminal_cause_for to cause) now
                      m).0,
                  none,
                ))
        ])
]

unfoldable pub succeed : ℕ → Bytes → ℤ → Manager → Manager × Option Error
unfolding report_terminal
succeed id result now m = report_terminal id succeeded ok_code result succeeds none now m

-- `providerFailCode`: the codes that a provider may give.
unfoldable pub provider_fail_code : StatusCode → Bool
provider_fail_code internal = true
provider_fail_code invalid_argument = true
provider_fail_code failed_precondition = true
provider_fail_code deadline_code = true
provider_fail_code unavailable = true
provider_fail_code resource_exhausted = true
provider_fail_code not_found = true
provider_fail_code _ = false

unfoldable pub fail : ℕ → StatusCode → Bytes → ℤ → Manager → Manager × Option Error
unfolding report_terminal provider_fail_code
fail id code detail now m =
    if provider_fail_code code
    then report_terminal id failed code detail fails none now m
    else report_terminal id failed internal detail fails (some provider_contract) now m

unfoldable pub cancelled_by : ℕ → ℤ → Manager → Manager × Option Error
unfolding report_terminal
cancelled_by id now m = report_terminal id cancelled cancelled_code [] cancels none now m
