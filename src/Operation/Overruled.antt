-- ===== src/Operation/Overruled.antt =====
-- manager.go, reporter.go: Safety and the deadline against the reports of a provider.
use nervud.Base.{
  ℕ, ◌<◌, ◌≡◌, refl, ap, ◌∙◌, true, false, not, ◌&&◌, inl, inr, Option, some, [], ◌==◌, arith,
  Bool-cases, ◌≢◌,
}
use nervud.Base.Int.{ℤ}
use nervud.Operation.State.{State, failed, terminal, can_transition, same_state}
use nervud.Operation.Types.{
  Bytes, StatusCode, failed_precondition, deadline_code, safety_superseded, deadline_passed,
  superseded, deadline_exceeded, Error, Action, Operation, Manager, find_op,
}
use nervud.Operation.Locked.{terminated}
use nervud.Operation.Surface.{is_past, is_stale, scan_deadlines, converge_supersede}
use nervud.Operation.Reports.{report_terminal, superseded_or_expired, action_for}
use nervud.Operation.Store.{find_op-put_op, find_op-id, terminate_locked_ops, terminal_stays}
use nervud.Operation.Sweep.{sweep_picked}

-- Convergence fails every operation that holds a lease from before the boundary and is in progress.
pub converge_supersede_fails :
    (now : ℤ) (m : Manager) (id : ℕ) (op : Operation)
    → find_op id m.ops ≡ some op
    → can_transition op.state failed ≡ true
    → op.lease_id ≢ 0
    → op.motion_epoch < m.supersede_epoch
    → find_op id (converge_supersede now m).ops
      ≡ some (terminated op failed failed_precondition [] now)
unfolding converge_supersede
converge_supersede_fails now m id op found live motion stale =
    elim (Bool-cases (m.supersede_epoch == 0)) [
      | inl e ↦ absurd (ground arith)
      | inr e ↦ rw e (
          sweep_picked (λ o. not (terminal o.state) && is_stale m.supersede_epoch o)
            failed_precondition safety_superseded superseded now m.ops id op op m found found
            (ground (arith, terminal_stays op.state failed)) live)
    ]

-- The scan fails every operation in progress whose deadline is past.
pub scan_deadlines_fails :
    (now : ℤ) (m : Manager) (id : ℕ) (op : Operation)
    → find_op id m.ops ≡ some op
    → can_transition op.state failed ≡ true
    → is_past now op ≡ true
    → find_op id (scan_deadlines now m).ops ≡ some (terminated op failed deadline_code [] now)
unfolding scan_deadlines
scan_deadlines_fails now m id op found live past =
    sweep_picked (λ o. not (terminal o.state) && is_past now o) deadline_code deadline_passed
      deadline_exceeded now m.ops id op op m found found
      (ground (arith, terminal_stays op.state failed)) live

same_state_eq : (s t : State) → same_state s t ≡ true → s ≡ t
same_state_eq s t h = ground arith

overruled :
    (id : ℕ) (to : State) (code why : StatusCode) (cause : Error) (detail : Bytes) (a : Action)
    (c : Option Error) (now : ℤ) (m : Manager) (op : Operation)
    → find_op id m.ops ≡ some op
    → can_transition op.state failed ≡ true
    → op.state ≢ to
    → superseded_or_expired m now op ≡ some (why, cause)
    → (find_op id (report_terminal id to code detail a c now m).0.ops
        ≡ some (terminated op failed why [] now))
      × ((report_terminal id to code detail a c now m).1 ≡ some cause)
unfolding report_terminal
overruled id to code why cause detail a c now m op found live other over =
    let end : terminal op.state ≡ false = ground (arith, terminal_stays op.state failed) in
    let new : same_state op.state to ≡ false = ground (arith, same_state_eq op.state to) in
    rw (found, new, end, over, report_terminal)
      (
        ap (find_op id)
              (terminate_locked_ops op failed why [] (action_for why) (some cause) now m live)
            ∙ find_op-put_op id (terminated op failed why [] now) m.ops
            ∙ ground (arith, find_op-id id m.ops op found),
        refl,
      )

-- A report of any end, on an operation in progress that holds a lease from before the boundary,
-- fails the operation instead, and the provider is told that it was superseded.
pub report_terminal_stale :
    (id : ℕ) (to : State) (code : StatusCode) (detail : Bytes) (a : Action) (c : Option Error)
    (now : ℤ) (m : Manager) (op : Operation)
    → find_op id m.ops ≡ some op
    → can_transition op.state failed ≡ true
    → op.state ≢ to
    → op.lease_id ≢ 0
    → op.motion_epoch < m.supersede_epoch
    → (find_op id (report_terminal id to code detail a c now m).0.ops
        ≡ some (terminated op failed failed_precondition [] now))
      × ((report_terminal id to code detail a c now m).1 ≡ some superseded)
unfolding superseded_or_expired
report_terminal_stale id to code detail a c now m op found live other motion stale =
    overruled id to code failed_precondition superseded detail a c now m op found live other
      (ground arith)

-- A report of any end, on an operation in progress whose deadline is past and whose lease, where it
-- has one, is not from before the boundary, fails the operation with the deadline's code.
pub report_terminal_late :
    (id : ℕ) (to : State) (code : StatusCode) (detail : Bytes) (a : Action) (c : Option Error)
    (now : ℤ) (m : Manager) (op : Operation)
    → find_op id m.ops ≡ some op
    → can_transition op.state failed ≡ true
    → op.state ≢ to
    → is_stale m.supersede_epoch op ≡ false
    → is_past now op ≡ true
    → (find_op id (report_terminal id to code detail a c now m).0.ops
        ≡ some (terminated op failed deadline_code [] now))
      × ((report_terminal id to code detail a c now m).1 ≡ some deadline_exceeded)
unfolding superseded_or_expired
report_terminal_late id to code detail a c now m op found live other fresh past =
    overruled id to code deadline_code deadline_exceeded detail a c now m op found live other
      (ground arith)
