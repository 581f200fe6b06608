-- ===== src/Operation/History.antt =====
-- manager.go, reporter.go: what any sequence of calls does to one operation.
use nervud.Base.{
  ℕ, suc, ◌≤◌, ◌<◌, ◌≡◌, refl, ap, ◌∙◌, true, false, not, ◌&&◌, ◌⊎◌, inl, inr, none, some, List, [],
  ◌∷◌, ◌==◌, arith, Bool-cases, Option-cases,
}
use nervud.Base.Int.{ℤ, ltb_ℤ, ◌-ℤ◌}
use nervud.Operation.State.{succeeded, cancelled, terminal}
use nervud.Operation.Types.{
  ok_code, cancelled_code, unavailable, deadline_code, deadline_passed, shutdown, succeeds, cancels,
  deadline_exceeded, shutting_down, Operation, Manager, find_op,
}
use nervud.Operation.Locked.{remove_sub_locked, ids}
use nervud.Operation.Surface.{
  word, is_past, scan_deadlines, safety_supersede, reap, reap_all, reap_terminal, on_wake, stop,
  set_lease_validator, set_event_observer, terminal_retention,
}
use nervud.Operation.Reports.{succeed, cancelled_by}
use nervud.Operation.Store.{stays, find_op-delete_op}
use nervud.Operation.Sweep.{sweep-Kept}
use nervud.Operation.Moves.{
  Call, creates, asks_cancel, subscribes, unsubscribes, releases, supersedes, converges, scans,
  reaps, accepts_at, progresses, succeeds_at, fails_at, cancels_at, stops, validates_by, observes,
  step, Followed, create-Kept, cancel-Kept,
}
use nervud.Operation.Follow.{
  subscribe-Kept, release_by_conn-Kept, converge_supersede-Kept, accept-Kept, progress-Kept,
  report_terminal-Kept, fail-Kept,
}

-- Reaping leaves an entry alone, or removes it once it has ended.
reap_or_keep :
    (now : ℤ) (k id : ℕ) (op : Operation) (m : Manager)
    → find_op id m.ops ≡ some op
    → ((find_op id (reap now k m).ops ≡ none) × (terminal op.state ≡ true))
      ⊎ (find_op id (reap now k m).ops ≡ some op)
unfolding reap
reap_or_keep now k id op m found = elim (Option-cases (find_op k m.ops)) [
  | inl absent ↦ rw (absent, reap) (inr found)
  | inr (o, at) ↦
      elim (Bool-cases (terminal o.state && ltb_ℤ terminal_retention (now -ℤ o.updated_at))) [
        | inr young ↦ rw (at, young, reap) (inr found)
        | inl old ↦ elim (Bool-cases (k == id)) [
          | inl here ↦
              rw (at, old, reap)
                (inl (
                  find_op-delete_op id k m.ops ∙ ground arith,
                  ground (arith, ap (λ (n : ℕ). find_op n m.ops)),
                ))
          | inr there ↦ rw (at, old, reap) (inr (find_op-delete_op id k m.ops ∙ ground arith))
        ]
      ]
]

reap_absent :
    (now : ℤ) (k id : ℕ) (m : Manager)
    → find_op id m.ops ≡ none
    → find_op id (reap now k m).ops ≡ none
unfolding reap
reap_absent now k id m gone = ground (arith, find_op-delete_op id k m.ops)

pub reap_all_absent :
    (now : ℤ) (ks : List ℕ) (id : ℕ) (m : Manager)
    → find_op id m.ops ≡ none
    → find_op id (reap_all now ks m).ops ≡ none
unfolding reap_all
reap_all_absent now [] id m gone = gone
reap_all_absent now (k ∷ ks) id m gone =
    reap_all_absent now ks id (reap now k m) (reap_absent now k id m gone)

reap_all-Followed :
    (now : ℤ) (ks : List ℕ) (id : ℕ) (op : Operation) (m : Manager)
    → find_op id m.ops ≡ some op
    → Followed id op (reap_all now ks m)
unfolding reap_all
reap_all-Followed now [] id op m found = inr (op, found, stays refl)
reap_all-Followed now (k ∷ ks) id op m found = elim (reap_or_keep now k id op m found) [
  | inl (gone, end) ↦ inl (reap_all_absent now ks id (reap now k m) gone, end)
  | inr here ↦ reap_all-Followed now ks id op (reap now k m) here
]

-- One call, whichever it is, leaves an operation's record as it was, or moves it along one allowed
-- transition with its identity, owner, resources, lease, epoch and deadline kept, or removes it
-- after it has ended. (The id counter has not come round to the operation's id.)
pub step-Followed :
    (m : Manager) (c : Call) (id : ℕ) (op : Operation)
    → id ≤ m.next_id
    → suc m.next_id < word
    → find_op id m.ops ≡ some op
    → Followed id op (step m c)
unfolding step safety_supersede reap_terminal succeed cancelled_by set_lease_validator
    set_event_observer remove_sub_locked on_wake scan_deadlines stop
step-Followed m (creates conn provider caller origin resources lease epoch deadline now) id op old
      small found =
    inr (
      create-Kept conn provider caller origin resources lease epoch deadline now id op m old small
        found)
step-Followed m (asks_cancel caller k now) id op old small found =
    inr (cancel-Kept caller k now id op m found)
step-Followed m (subscribes caller k) id op old small found =
    inr (subscribe-Kept caller k id op m found)
step-Followed m (unsubscribes handle) id op old small found = inr (op, found, stays refl)
step-Followed m (releases conn now) id op old small found =
    inr (release_by_conn-Kept conn now id op m found)
step-Followed m (supersedes epoch) id op old small found = inr (op, found, stays refl)
step-Followed m (converges now) id op old small found =
    inr (converge_supersede-Kept now id op (record m { wake = false }) found)
step-Followed m (scans now) id op old small found = inr (
    sweep-Kept (λ o. not (terminal o.state) && is_past now o) deadline_code deadline_passed
      deadline_exceeded now (ids m) id op m found)
step-Followed m (reaps now) id op old small found = reap_all-Followed now (ids m) id op m found
step-Followed m (accepts_at k epoch now) id op old small found =
    inr (accept-Kept k epoch now id op m found)
step-Followed m (progresses k payload) id op old small found =
    inr (progress-Kept k payload id op m found)
step-Followed m (succeeds_at k result now) id op old small found =
    inr (report_terminal-Kept k succeeded ok_code result succeeds none now id op m refl found)
step-Followed m (fails_at k code detail now) id op old small found =
    inr (fail-Kept k code detail now id op m found)
step-Followed m (cancels_at k now) id op old small found =
    inr (report_terminal-Kept k cancelled cancelled_code [] cancels none now id op m refl found)
step-Followed m (stops now) id op old small found = inr (
    sweep-Kept (λ o. not (terminal o.state)) unavailable shutdown shutting_down now (ids m) id op
      (record m { stopping = true }) found)
step-Followed m (validates_by v) id op old small found = inr (op, found, stays refl)
step-Followed m (observes b) id op old small found = inr (op, found, stays refl)
