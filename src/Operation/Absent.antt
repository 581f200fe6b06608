-- ===== src/Operation/Absent.antt =====
-- manager.go, reporter.go: an id that the map does not hold, through the calls of the manager.
use nervud.Base.{
  ℕ, suc, ◌+◌, ◌%◌, ◌≤◌, ◌<◌, String, ◌≡◌, refl, ap, ◌∙◌, Bool, not, inl, inr, Option, none, some,
  List, [], ◌∷◌, arith, Bool-cases, Option-cases,
}
use nervud.Base.Int.{ℤ}
use nervud.Operation.State.{State, running, cancel_requested, failed}
use nervud.Operation.Types.{
  Bytes, StatusCode, failed_precondition, fails, stale_epoch, internal, provider_contract, Error,
  Action, Operation, Manager, OriginBinding, find_op, put_op,
}
use nervud.Operation.Locked.{
  record_op, emit_locked, transition_locked, terminate_locked, terminated, visit, sweep,
}
use nervud.Operation.Surface.{
  word, is_ok, validate_create, fresh_operation, create, record_rejected, get, cancel,
}
use nervud.Operation.Reports.{
  superseded_or_expired, action_for, terminal_cause_for, accept, report_terminal, fail,
  provider_fail_code,
}
use nervud.Operation.Store.{find_op-put_op, find_op-id, terminate_locked_cases}
use nervud.Operation.Moves.{get_find}

-- A write at a key that the map holds.
put_absent :
    (id k : ℕ) (new o : Operation) (m m' : Manager)
    → find_op id m.ops ≡ none
    → find_op k m.ops ≡ some o
    → new.id ≡ o.id
    → m'.ops ≡ put_op new m.ops
    → find_op id m'.ops ≡ none
put_absent id k new o m m' gone at same e =
    ap (find_op id) e
    ∙ find_op-put_op id new m.ops
    ∙ ground (arith, find_op-id k m.ops o at, ap (λ (n : ℕ). find_op n m.ops))

terminate_locked_absent :
    (id k : ℕ) (o : Operation) (to : State) (code : StatusCode) (detail : Bytes) (a : Action)
    (c : Option Error) (now : ℤ) (m : Manager)
    → find_op id m.ops ≡ none
    → find_op k m.ops ≡ some o
    → find_op id (terminate_locked o to code detail a c now m).0.ops ≡ none
terminate_locked_absent id k o to code detail a c now m gone at =
    elim (terminate_locked_cases o to code detail a c now m) [
      | inl e ↦ rw e gone
      | inr (live, allowed, e) ↦
          put_absent id k (terminated o to code detail now) o m
            (terminate_locked o to code detail a c now m).0 gone at refl e
    ]

transition_locked_absent :
    (id k : ℕ) (o : Operation) (to : State) (now : ℤ) (m : Manager)
    → find_op id m.ops ≡ none
    → find_op k m.ops ≡ some o
    → find_op id (transition_locked o to now m).ops ≡ none
unfolding transition_locked emit_locked
transition_locked_absent id k o to now m gone at =
    put_absent id k (record o { state = to; updated_at = now }) o m (transition_locked o to now m)
      gone at refl refl

visit_absent :
    (pick : Operation → Bool) (code : StatusCode) (a : Action) (c : Error) (now : ℤ) (k id : ℕ)
    (m : Manager)
    → find_op id m.ops ≡ none
    → find_op id (visit pick code a c now k m).ops ≡ none
unfolding visit
visit_absent pick code a c now k id m gone = elim (Option-cases (find_op k m.ops)) [
  | inl absent ↦ rw (absent, visit) gone
  | inr (o, at) ↦ elim (Bool-cases (pick o)) [
    | inl yes' ↦
        rw (at, yes', visit)
          (terminate_locked_absent id k o failed code [] a (some c) now m gone at)
    | inr no' ↦ rw (at, no', visit) gone
  ]
]

pub sweep_absent :
    (pick : Operation → Bool) (code : StatusCode) (a : Action) (c : Error) (now : ℤ) (ks : List ℕ)
    (id : ℕ) (m : Manager)
    → find_op id m.ops ≡ none
    → find_op id (sweep pick code a c now ks m).ops ≡ none
unfolding sweep
sweep_absent pick code a c now [] id m gone = gone
sweep_absent pick code a c now (k ∷ ks) id m gone =
    sweep_absent pick code a c now ks id (visit pick code a c now k m)
      (visit_absent pick code a c now k id m gone)

pub create_absent :
    (conn provider : ℕ) (caller : String) (origin : OriginBinding) (resources : List String)
    (lease epoch : ℕ) (deadline now : ℤ) (id : ℕ) (m : Manager)
    → id ≤ m.next_id
    → suc m.next_id < word
    → find_op id m.ops ≡ none
    → find_op id (create conn provider caller origin resources lease epoch deadline now m).0.ops
      ≡ none
unfolding create record_rejected record_op
create_absent conn provider caller origin resources lease epoch deadline now id m old small gone =
    let code = validate_create m conn resources lease epoch deadline now in
    let new =
      fresh_operation ((m.next_id + 1) % word) conn provider caller origin resources lease epoch
        deadline now in
    elim (Bool-cases (not (is_ok code))) [
      | inl bad ↦ rw (bad, create) gone
      | inr good ↦ elim (Bool-cases (m.stopping)) [
        | inl over ↦ rw (good, over, create) gone
        | inr here ↦ rw (good, here, create) (find_op-put_op id new m.ops ∙ ground arith)
      ]
    ]

pub cancel_absent :
    (caller : String) (k : ℕ) (now : ℤ) (id : ℕ) (m : Manager)
    → find_op id m.ops ≡ none
    → find_op id (cancel caller k now m).0.ops ≡ none
unfolding cancel record_op
cancel_absent caller k now id m gone = elim (Option-cases (get caller k m)) [
  | inl hidden ↦ rw (hidden, cancel) gone
  | inr (o, seen) ↦ ground (
    arith,
    transition_locked_absent id k o cancel_requested now m gone (get_find caller k m o seen),
  )
]

pub accept_absent :
    (k epoch : ℕ) (now : ℤ) (id : ℕ) (m : Manager)
    → find_op id m.ops ≡ none
    → find_op id (accept k epoch now m).0.ops ≡ none
unfolding accept record_op
accept_absent k epoch now id m gone = elim (Option-cases (find_op k m.ops)) [
  | inl absent ↦ rw (absent, accept) gone
  | inr (o, at) ↦ elim (Option-cases (superseded_or_expired m now o)) [
    | inr ((code, cause), over) ↦ ground (
      arith,
      terminate_locked_absent id k o failed failed_precondition [] fails (some stale_epoch) now m
          gone at,
      terminate_locked_absent id k o failed code [] (action_for code) (some cause) now m gone at,
    )
    | inl free ↦ ground (
      arith,
      terminate_locked_absent id k o failed failed_precondition [] fails (some stale_epoch) now m
          gone at,
      transition_locked_absent id k o running now m gone at,
    )
  ]
]

pub report_terminal_absent :
    (k : ℕ) (to : State) (code : StatusCode) (detail : Bytes) (a : Action) (c : Option Error)
    (now : ℤ) (id : ℕ) (m : Manager)
    → find_op id m.ops ≡ none
    → find_op id (report_terminal k to code detail a c now m).0.ops ≡ none
unfolding report_terminal record_op
report_terminal_absent k to code detail a c now id m gone = elim (Option-cases (find_op k m.ops)) [
  | inl absent ↦ rw (absent, report_terminal) gone
  | inr (o, at) ↦ elim (Option-cases (superseded_or_expired m now o)) [
    | inr ((why, cause), lost) ↦ ground (
      arith,
      terminate_locked_absent id k o failed why [] (action_for why) (some cause) now m gone at,
    )
    | inl free ↦ ground (
      arith,
      terminate_locked_absent id k o to code detail a (terminal_cause_for to c) now m gone at,
    )
  ]
]

pub fail_absent :
    (k : ℕ) (code : StatusCode) (detail : Bytes) (now : ℤ) (id : ℕ) (m : Manager)
    → find_op id m.ops ≡ none
    → find_op id (fail k code detail now m).0.ops ≡ none
unfolding fail
fail_absent k code detail now id m gone = elim (Bool-cases (provider_fail_code code)) [
  | inl e ↦ rw e (report_terminal_absent k failed code detail fails none now id m gone)
  | inr e ↦
      rw e (
        report_terminal_absent k failed internal detail fails (some provider_contract) now id m
          gone)
]
