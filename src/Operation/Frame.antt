-- ===== src/Operation/Frame.antt =====
-- manager.go, reporter.go: the id counter and the boundary through the calls of the manager.
use nervud.Base.{
  ℕ, suc, ◌≤◌, ◌<◌, String, ◌≡◌, refl, ◌∙◌, Bool, true, false, not, ◌&&◌, inl, inr, Option, none,
  some, List, [], ◌∷◌, ◌==◌, arith, Bool-cases,
}
use nervud.Base.Int.{ℤ}
use nervud.Operation.State.{State, succeeded, failed, cancelled, terminal}
use nervud.Operation.Types.{
  Bytes, StatusCode, ok_code, cancelled_code, internal, unavailable, failed_precondition,
  deadline_code, conn_gone, safety_superseded, deadline_passed, shutdown, succeeds, fails, cancels,
  conn_closed, superseded, deadline_exceeded, shutting_down, provider_contract, Error, Action,
  Operation, Manager, OriginBinding,
}
use nervud.Operation.Locked.{
  record_op, emit_locked, remove_sub_locked, close_all_subs_locked, transition_locked,
  terminate_locked, visit, sweep, ids,
}
use nervud.Operation.Surface.{
  word, create, cancel, subscribe, record_rejected, release_by_conn, safety_supersede,
  converge_supersede, scan_deadlines, reap, reap_all, reap_terminal, on_wake, stop,
  set_lease_validator, set_event_observer, validate_create, is_stale, is_past,
}
use nervud.Operation.Reports.{
  accept, progress, report_terminal, succeed, fail, cancelled_by, provider_fail_code,
}
use nervud.Operation.Moves.{
  Call, creates, asks_cancel, subscribes, unsubscribes, releases, supersedes, converges, scans,
  reaps, accepts_at, progresses, succeeds_at, fails_at, cancels_at, stops, validates_by, observes,
  step,
}

abbrev pub Frame : Manager → Manager → Type 0
Frame m m' = (m'.next_id ≡ m.next_id) × (m'.supersede_epoch ≡ m.supersede_epoch)

terminate_locked-Frame :
    (op : Operation) (to : State) (code : StatusCode) (detail : Bytes) (a : Action)
    (c : Option Error) (now : ℤ) (m : Manager)
    → Frame m (terminate_locked op to code detail a c now m).0
unfolding terminate_locked record_op close_all_subs_locked emit_locked
terminate_locked-Frame op to code detail a c now m = ground arith

transition_locked-Frame :
    (op : Operation) (to : State) (now : ℤ) (m : Manager) → Frame m (transition_locked op to now m)
unfolding transition_locked emit_locked
transition_locked-Frame op to now m = (refl, refl)

visit-Frame :
    (pick : Operation → Bool) (code : StatusCode) (a : Action) (c : Error) (now : ℤ) (k : ℕ)
    (m : Manager)
    → Frame m (visit pick code a c now k m)
unfolding visit terminate_locked record_op close_all_subs_locked emit_locked
visit-Frame pick code a c now k m = ground arith

sweep-Frame :
    (pick : Operation → Bool) (code : StatusCode) (a : Action) (c : Error) (now : ℤ) (ks : List ℕ)
    (m : Manager)
    → Frame m (sweep pick code a c now ks m)
unfolding sweep
sweep-Frame pick code a c now [] m = (refl, refl)
sweep-Frame pick code a c now (k ∷ ks) m =
    let r = sweep-Frame pick code a c now ks (visit pick code a c now k m) in
    let v = visit-Frame pick code a c now k m in (r.0 ∙ v.0, r.1 ∙ v.1)

reap-Frame : (now : ℤ) (k : ℕ) (m : Manager) → Frame m (reap now k m)
unfolding reap
reap-Frame now k m = ground arith

reap_all-Frame : (now : ℤ) (ks : List ℕ) (m : Manager) → Frame m (reap_all now ks m)
unfolding reap_all
reap_all-Frame now [] m = (refl, refl)
reap_all-Frame now (k ∷ ks) m =
    let r = reap_all-Frame now ks (reap now k m) in
    let v = reap-Frame now k m in (r.0 ∙ v.0, r.1 ∙ v.1)

create_next_id :
    (conn provider : ℕ) (caller : String) (origin : OriginBinding) (resources : List String)
    (lease epoch : ℕ) (deadline now : ℤ) (m : Manager)
    → suc m.next_id < word
    → (m.next_id
        ≤ (create conn provider caller origin resources lease epoch deadline now m).0.next_id)
      × ((create conn provider caller origin resources lease epoch deadline now m).0.next_id
          ≤ suc m.next_id)
      × ((create conn provider caller origin resources lease epoch deadline now m).0.supersede_epoch
          ≡ m.supersede_epoch)
unfolding create record_rejected record_op
create_next_id conn provider caller origin resources lease epoch deadline now m small =
    let code = validate_create m conn resources lease epoch deadline now in ground arith

cancel-Frame : (caller : String) (k : ℕ) (now : ℤ) (m : Manager) → Frame m (cancel caller k now m).0
unfolding cancel record_op transition_locked emit_locked
cancel-Frame caller k now m = ground arith

subscribe-Frame : (caller : String) (k : ℕ) (m : Manager) → Frame m (subscribe caller k m).0
unfolding subscribe
subscribe-Frame caller k m = ground arith

accept-Frame : (k epoch : ℕ) (now : ℤ) (m : Manager) → Frame m (accept k epoch now m).0
unfolding accept record_op transition_locked emit_locked terminate_locked close_all_subs_locked
accept-Frame k epoch now m = ground arith

report_terminal-Frame :
    (k : ℕ) (to : State) (code : StatusCode) (detail : Bytes) (a : Action) (c : Option Error)
    (now : ℤ) (m : Manager)
    → Frame m (report_terminal k to code detail a c now m).0
unfolding report_terminal record_op emit_locked terminate_locked close_all_subs_locked
report_terminal-Frame k to code detail a c now m = ground arith

-- What a call does to the counter and the boundary.
pub record Grown (m m' : Manager) : Type 0 where
  pub later : m.next_id ≤ m'.next_id
  pub by_one : m'.next_id ≤ suc m.next_id
  pub raised : m.supersede_epoch ≤ m'.supersede_epoch

framed : (m m' : Manager) → Frame m m' → Grown m m'
framed m m' (i, e) = record {
  later = omega (arith, i);
  by_one = omega (arith, i);
  raised = omega (arith, e);
}

release_by_conn-Frame : (conn : ℕ) (now : ℤ) (m : Manager) → Frame m (release_by_conn conn now m)
unfolding release_by_conn
release_by_conn-Frame conn now m = elim (Bool-cases (conn == 0)) [
  | inl e ↦ rw e (refl, refl)
  | inr e ↦ rw e (
      sweep-Frame (λ op. op.conn == conn && not (terminal op.state)) unavailable conn_gone
        conn_closed now (ids m) m)
]

on_wake-Frame : (now : ℤ) (m : Manager) → Frame m (on_wake now m)
unfolding on_wake converge_supersede
on_wake-Frame now m = elim (Bool-cases (m.supersede_epoch == 0)) [
  | inl e ↦ rw e (refl, refl)
  | inr e ↦ rw e (
      sweep-Frame (λ op. not (terminal op.state) && is_stale m.supersede_epoch op)
        failed_precondition safety_superseded superseded now (ids m) (record m { wake = false }))
]

scan_deadlines-Frame : (now : ℤ) (m : Manager) → Frame m (scan_deadlines now m)
unfolding scan_deadlines
scan_deadlines-Frame now m =
    sweep-Frame (λ op. not (terminal op.state) && is_past now op) deadline_code deadline_passed
      deadline_exceeded now (ids m) m

stop-Frame : (now : ℤ) (m : Manager) → Frame m (stop now m)
unfolding stop
stop-Frame now m =
    sweep-Frame (λ op. not (terminal op.state)) unavailable shutdown shutting_down now (ids m)
      (record m { stopping = true })

progress-Frame : (k : ℕ) (payload : Bytes) (m : Manager) → Frame m (progress k payload m).0
unfolding progress emit_locked
progress-Frame k payload m = ground arith

fail-Frame :
    (k : ℕ) (code : StatusCode) (detail : Bytes) (now : ℤ) (m : Manager)
    → Frame m (fail k code detail now m).0
unfolding fail
fail-Frame k code detail now m = elim (Bool-cases (provider_fail_code code)) [
  | inl e ↦ rw e (report_terminal-Frame k failed code detail fails none now m)
  | inr e ↦
      rw e (report_terminal-Frame k failed internal detail fails (some provider_contract) now m)
]

pub step-Grown : (m : Manager) (c : Call) → suc m.next_id < word → Grown m (step m c)
unfolding step safety_supersede reap_terminal succeed cancelled_by set_lease_validator
    set_event_observer remove_sub_locked
step-Grown m (creates conn provider caller origin resources lease epoch deadline now) small =
    let k = create_next_id conn provider caller origin resources lease epoch deadline now m small in
    record { later = k.0; by_one = k.1; raised = omega (arith, k.2) }
step-Grown m (asks_cancel caller id now) small =
    framed m (cancel caller id now m).0 (cancel-Frame caller id now m)
step-Grown m (subscribes caller id) small =
    framed m (subscribe caller id m).0 (subscribe-Frame caller id m)
step-Grown m (unsubscribes handle) small = framed m (remove_sub_locked handle m) (refl, refl)
step-Grown m (releases conn now) small =
    framed m (release_by_conn conn now m) (release_by_conn-Frame conn now m)
step-Grown m (supersedes epoch) small = record {
  later = omega arith;
  by_one = omega arith;
  raised = ground arith;
}
step-Grown m (converges now) small = framed m (on_wake now m) (on_wake-Frame now m)
step-Grown m (scans now) small = framed m (scan_deadlines now m) (scan_deadlines-Frame now m)
step-Grown m (reaps now) small = framed m (reap_terminal now m) (reap_all-Frame now (ids m) m)
step-Grown m (accepts_at id epoch now) small =
    framed m (accept id epoch now m).0 (accept-Frame id epoch now m)
step-Grown m (progresses id payload) small =
    framed m (progress id payload m).0 (progress-Frame id payload m)
step-Grown m (succeeds_at id result now) small =
    framed m (succeed id result now m).0
      (report_terminal-Frame id succeeded ok_code result succeeds none now m)
step-Grown m (fails_at id code detail now) small =
    framed m (fail id code detail now m).0 (fail-Frame id code detail now m)
step-Grown m (cancels_at id now) small =
    framed m (cancelled_by id now m).0
      (report_terminal-Frame id cancelled cancelled_code [] cancels none now m)
step-Grown m (stops now) small = framed m (stop now m) (stop-Frame now m)
step-Grown m (validates_by v) small = framed m (set_lease_validator v m) (refl, refl)
step-Grown m (observes b) small = framed m (set_event_observer b m) (refl, refl)
