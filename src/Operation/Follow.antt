-- ===== src/Operation/Follow.antt =====
-- manager.go, reporter.go: an operation's record through the calls of the provider, the loop and
-- the caller.
use nervud.Base.{
  ℕ, String, ◌≡◌, refl, true, not, ◌&&◌, inl, inr, Option, none, some, [], ◌==◌, Bool-cases,
  Option-cases,
}
use nervud.Base.Int.{ℤ}
use nervud.Operation.State.{
  State, running, cancel_requested, failed, same_state, terminal, can_transition,
}
use nervud.Operation.Types.{
  Bytes, StatusCode, internal, failed_precondition, fails, stale_epoch, provider_contract, Error,
  Action, Operation, Manager, find_op,
}
use nervud.Operation.Locked.{record_op, emit_locked, ids}
use nervud.Operation.Surface.{get, subscribe, release_by_conn, converge_supersede}
use nervud.Operation.Reports.{
  superseded_or_expired, action_for, terminal_cause_for, accept, progress, report_terminal, fail,
  provider_fail_code,
}
use nervud.Operation.Store.{stays, Kept, transition_locked-Kept}
use nervud.Operation.Sweep.{sweep-Kept, terminate_locked-Kept}
use nervud.Operation.Moves.{at_own_id}

pub subscribe-Kept :
    (caller : String) (k id : ℕ) (op : Operation) (m : Manager)
    → find_op id m.ops ≡ some op
    → Kept id op (subscribe caller k m).0
unfolding subscribe
subscribe-Kept caller k id op m found = elim (Option-cases (get caller k m)) [
  | inl hidden ↦ rw (hidden, subscribe) (op, found, stays refl)
  | inr (o, seen) ↦ elim (Bool-cases (terminal o.state)) [
    | inl end ↦ rw (seen, end, subscribe) (op, found, stays refl)
    | inr live ↦ rw (seen, live, subscribe) (op, found, stays refl)
  ]
]

pub release_by_conn-Kept :
    (conn : ℕ) (now : ℤ) (id : ℕ) (op : Operation) (m : Manager)
    → find_op id m.ops ≡ some op
    → Kept id op (release_by_conn conn now m)
unfolding release_by_conn
release_by_conn-Kept conn now id op m found = elim (Bool-cases (conn == 0)) [
  | inl nil ↦ rw nil (op, found, stays refl)
  | inr known ↦ rw known (sweep-Kept _ _ _ _ now (ids m) id op m found)
]

pub converge_supersede-Kept :
    (now : ℤ) (id : ℕ) (op : Operation) (m : Manager)
    → find_op id m.ops ≡ some op
    → Kept id op (converge_supersede now m)
unfolding converge_supersede
converge_supersede-Kept now id op m found = elim (Bool-cases (m.supersede_epoch == 0)) [
  | inl none_yet ↦ rw none_yet (op, found, stays refl)
  | inr some_yet ↦ rw some_yet (sweep-Kept _ _ _ _ now (ids m) id op m found)
]

pub accept-Kept :
    (k epoch : ℕ) (now : ℤ) (id : ℕ) (op : Operation) (m : Manager)
    → find_op id m.ops ≡ some op
    → Kept id op (accept k epoch now m).0
unfolding accept record_op
accept-Kept k epoch now id op m found = elim (Option-cases (find_op k m.ops)) [
  | inl absent ↦ rw (absent, accept) (op, found, stays refl)
  | inr (o, at) ↦
      let own = at_own_id k o m at in
      elim (Bool-cases (terminal o.state)) [
        | inl end ↦ rw (at, end, accept) (op, found, stays refl)
        | inr live ↦ elim (Bool-cases (not (epoch == o.motion_epoch))) [
          | inl stale ↦
              rw (at, live, stale, accept)
                (terminate_locked-Kept id op o failed failed_precondition [] fails
                  (some stale_epoch) now m refl found own)
          | inr current ↦ elim (Option-cases (superseded_or_expired m now o)) [
            | inr ((code, cause), over) ↦
                rw (at, live, current, over, accept)
                  (terminate_locked-Kept id op o failed code [] (action_for code) (some cause) now m
                    refl found own)
            | inl free ↦ elim (Bool-cases (can_transition o.state running)) [
              | inl allowed ↦
                  rw (at, live, current, free, allowed, accept)
                    (transition_locked-Kept id op o running now m allowed found own)
              | inr refused ↦ rw (at, live, current, free, refused, accept) (op, found, stays refl)
            ]
          ]
        ]
      ]
]

pub progress-Kept :
    (k : ℕ) (payload : Bytes) (id : ℕ) (op : Operation) (m : Manager)
    → find_op id m.ops ≡ some op
    → Kept id op (progress k payload m).0
unfolding progress emit_locked
progress-Kept k payload id op m found = elim (Option-cases (find_op k m.ops)) [
  | inl absent ↦ rw (absent, progress) (op, found, stays refl)
  | inr (o, at) ↦
      elim (Bool-cases
        (not (same_state o.state running) && not (same_state o.state cancel_requested))) [
          | inl idle ↦ rw (at, idle, progress) (op, found, stays refl)
          | inr busy ↦ rw (at, busy, progress) (op, found, stays refl)
        ]
]

pub report_terminal-Kept :
    (k : ℕ) (to : State) (code : StatusCode) (detail : Bytes) (a : Action) (c : Option Error)
    (now : ℤ) (id : ℕ) (op : Operation) (m : Manager)
    → terminal to ≡ true
    → find_op id m.ops ≡ some op
    → Kept id op (report_terminal k to code detail a c now m).0
unfolding report_terminal record_op
report_terminal-Kept k to code detail a c now id op m end found =
    elim (Option-cases (find_op k m.ops)) [
      | inl absent ↦ rw (absent, report_terminal) (op, found, stays refl)
      | inr (o, at) ↦
          let own = at_own_id k o m at in
          elim (Bool-cases (same_state o.state to)) [
            | inl again ↦ rw (at, again, report_terminal) (op, found, stays refl)
            | inr new ↦ elim (Bool-cases (terminal o.state)) [
              | inl over ↦ rw (at, new, over, report_terminal) (op, found, stays refl)
              | inr live ↦ elim (Option-cases (superseded_or_expired m now o)) [
                | inr ((why, cause), lost) ↦
                    rw (at, new, live, lost, report_terminal)
                      (terminate_locked-Kept id op o failed why [] (action_for why) (some cause) now
                        m refl found own)
                | inl free ↦ elim (Bool-cases (not (can_transition o.state to))) [
                  | inl refused ↦
                      rw (at, new, live, free, refused, report_terminal) (op, found, stays refl)
                  | inr allowed ↦
                      rw (at, new, live, free, allowed, report_terminal)
                        (terminate_locked-Kept id op o to code detail a (terminal_cause_for to c)
                          now m end found own)
                ]
              ]
            ]
          ]
    ]

pub fail-Kept :
    (k : ℕ) (code : StatusCode) (detail : Bytes) (now : ℤ) (id : ℕ) (op : Operation) (m : Manager)
    → find_op id m.ops ≡ some op
    → Kept id op (fail k code detail now m).0
unfolding fail
fail-Kept k code detail now id op m found = elim (Bool-cases (provider_fail_code code)) [
  | inl listed ↦
      rw listed (report_terminal-Kept k failed code detail fails none now id op m refl found)
  | inr odd ↦ rw odd (
      report_terminal-Kept k failed internal detail fails (some provider_contract) now id op m refl
        found)
]
