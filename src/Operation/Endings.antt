-- ===== src/Operation/Endings.antt =====
-- manager.go, reporter.go: how an operation ends, over any sequence of calls.
use nervud.Base.{
  ℕ, suc, ◌+◌, ◌≤◌, ◌<◌, String, ◌≡◌, ap, ◌∙◌, true, false, not, ◌&&◌, ◌⊎◌, inl, inr, none, some,
  List, [], ◌∷◌, ◌==◌, arith, Bool-cases, length,
}
use nervud.Operation.State.{succeeded, cancelled, terminal}
use nervud.Operation.Types.{
  Bytes, ok_code, cancelled_code, unavailable, failed_precondition, deadline_code, conn_gone,
  safety_superseded, deadline_passed, shutdown, succeeds, cancels, superseded, deadline_exceeded,
  shutting_down, conn_closed, Operation, Manager, find_op,
}
use nervud.Operation.Locked.{remove_sub_locked, sweep, ids, terminated, terminate_locked, record_op}
use nervud.Operation.Surface.{
  word, is_past, is_stale, subscribe, scan_deadlines, safety_supersede, reap_terminal, on_wake,
  converge_supersede, release_by_conn, stop, set_lease_validator, set_event_observer,
}
use nervud.Operation.Reports.{succeed, cancelled_by, progress}
use nervud.Operation.Store.{Next_terminal}
use nervud.Operation.Moves.{
  Call, creates, asks_cancel, subscribes, unsubscribes, releases, supersedes, converges, scans,
  reaps, accepts_at, progresses, succeeds_at, fails_at, cancels_at, stops, validates_by, observes,
  step, run,
}
use nervud.Operation.Frame.{step-Grown}
use nervud.Operation.Absent.{
  sweep_absent, create_absent, cancel_absent, accept_absent, report_terminal_absent, fail_absent,
}
use nervud.Operation.History.{step-Followed, reap_all_absent}

same_ops_absent :
    (id : ℕ) (m m' : Manager) → m'.ops ≡ m.ops → find_op id m.ops ≡ none → find_op id m'.ops ≡ none
same_ops_absent id m m' e gone = ap (find_op id) e ∙ gone

subscribe_ops : (caller : String) (k : ℕ) (m : Manager) → (subscribe caller k m).0.ops ≡ m.ops
unfolding subscribe
subscribe_ops caller k m = ground arith

progress_ops : (k : ℕ) (payload : Bytes) (m : Manager) → (progress k payload m).0.ops ≡ m.ops
unfolding progress nervud.Operation.Locked.emit_locked
progress_ops k payload m = ground arith

step_absent :
    (m : Manager) (c : Call) (id : ℕ)
    → id ≤ m.next_id
    → suc m.next_id < word
    → find_op id m.ops ≡ none
    → find_op id (step m c).ops ≡ none
unfolding step safety_supersede reap_terminal succeed cancelled_by set_lease_validator
    set_event_observer remove_sub_locked on_wake scan_deadlines stop release_by_conn
    converge_supersede
step_absent m (creates conn provider caller origin resources lease epoch deadline now) id old small
      gone =
    create_absent conn provider caller origin resources lease epoch deadline now id m old small gone
step_absent m (asks_cancel caller k now) id old small gone = cancel_absent caller k now id m gone
step_absent m (subscribes caller k) id old small gone =
    same_ops_absent id m (subscribe caller k m).0 (subscribe_ops caller k m) gone
step_absent m (unsubscribes handle) id old small gone = gone
step_absent m (releases conn now) id old small gone = elim (Bool-cases (conn == 0)) [
  | inl e ↦ rw e gone
  | inr e ↦ rw e (
      sweep_absent (λ op. op.conn == conn && not (terminal op.state)) unavailable conn_gone
        conn_closed now (ids m) id m gone)
]
step_absent m (supersedes epoch) id old small gone = gone
step_absent m (converges now) id old small gone = elim (Bool-cases (m.supersede_epoch == 0)) [
  | inl e ↦ rw e gone
  | inr e ↦ rw e (
      sweep_absent (λ op. not (terminal op.state) && is_stale m.supersede_epoch op)
        failed_precondition safety_superseded superseded now (ids m) id (record m { wake = false })
        gone)
]
step_absent m (scans now) id old small gone =
    sweep_absent (λ op. not (terminal op.state) && is_past now op) deadline_code deadline_passed
      deadline_exceeded now (ids m) id m gone
step_absent m (reaps now) id old small gone = reap_all_absent now (ids m) id m gone
step_absent m (accepts_at k epoch now) id old small gone = accept_absent k epoch now id m gone
step_absent m (progresses k payload) id old small gone =
    same_ops_absent id m (progress k payload m).0 (progress_ops k payload m) gone
step_absent m (succeeds_at k result now) id old small gone =
    report_terminal_absent k succeeded ok_code result succeeds none now id m gone
step_absent m (fails_at k code detail now) id old small gone =
    fail_absent k code detail now id m gone
step_absent m (cancels_at k now) id old small gone =
    report_terminal_absent k cancelled cancelled_code [] cancels none now id m gone
step_absent m (stops now) id old small gone =
    sweep_absent (λ op. not (terminal op.state)) unavailable shutdown shutting_down now (ids m) id
      (record m { stopping = true }) gone
step_absent m (validates_by v) id old small gone = gone
step_absent m (observes b) id old small gone = gone

run_absent :
    (cs : List Call) (m : Manager) (id : ℕ)
    → id ≤ m.next_id
    → m.next_id + length cs < word
    → find_op id m.ops ≡ none
    → find_op id (run cs m).ops ≡ none
unfolding run
run_absent [] m id old small gone = gone
run_absent (c ∷ cs) m id old small gone =
    let g = step-Grown m c (omega (arith, small)) in
    run_absent cs (step m c) id (omega (arith, g.later)) (omega (arith, g.by_one))
      (step_absent m c id old (omega (arith, small)) gone)

-- Each call issues one id at most.
run_later :
    (cs : List Call) (m : Manager)
    → m.next_id + length cs < word
    → (m.next_id ≤ (run cs m).next_id) × ((run cs m).next_id ≤ m.next_id + length cs)
unfolding run
run_later [] m small = (omega arith, omega arith)
run_later (c ∷ cs) m small =
    let g = step-Grown m c (omega (arith, small)) in
    let later = run_later cs (step m c) (omega (arith, small, g.by_one)) in
    (omega (arith, g.later, later.0), omega (arith, g.by_one, later.1))

-- An operation that has ended keeps its record, its final status and payload included, over any
-- sequence of calls, until it is removed; and once removed its id is not found again, whatever calls
-- follow. (The id was issued, and the counter does not come round to it.)
pub run_terminal :
    (cs ds : List Call) (m : Manager) (id : ℕ) (op : Operation)
    → id ≤ m.next_id
    → m.next_id + length cs + length ds < word
    → find_op id m.ops ≡ some op
    → terminal op.state ≡ true
    → (find_op id (run cs m).ops ≡ some op)
      ⊎ (find_op id (run cs m).ops ≡ none) × (find_op id (run ds (run cs m)).ops ≡ none)
unfolding run
run_terminal [] ds m id op old small found end = inl found
run_terminal (c ∷ cs) ds m id op old small found end =
    let g = step-Grown m c (omega (arith, small)) in
    let old' : id ≤ (step m c).next_id = omega (arith, g.later) in
    let small' : (step m c).next_id + length cs + length ds < word = omega (arith, g.by_one) in
    elim (step-Followed m c id op old (omega (arith, small)) found) [
      | inl (gone, _) ↦
          let later = run_later cs (step m c) (omega (arith, small')) in
          let absent = run_absent cs (step m c) id old' (omega (arith, small')) gone in
          inr (
            absent,
            run_absent ds (run cs (step m c)) id (omega (arith, old', later.0))
                (omega (arith, small', later.1)) absent,
          )
      | inr (op', here, next) ↦
          run_terminal cs ds (step m c) id op old' small'
            (here ∙ ap some (Next_terminal op op' end next)) end
    ]
