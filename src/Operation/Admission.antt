-- ===== src/Operation/Admission.antt =====
-- manager.go, reporter.go: what lets an operation in, who may see it, and what a failure may be.
use nervud.Base.{
  ℕ, ◌+◌, ◌%◌, String, ◌≡◌, refl, ap, ◌∙◌, Bool, true, false, inl, inr, Option, none, some, List,
  [], ◌∷◌, arith, Bool-cases, Option-cases, ◌≢◌, length, eq_iff,
}
use nervud.Base.Int.{ℤ, ltb_ℤ, ◌+ℤ◌}
use nervud.Operation.State.{State, failed, terminal, can_transition, same_state}
use nervud.Operation.Types.{
  Bytes, StatusCode, ok_code, accepted, not_found, internal, fails, provider_contract,
  OriginBinding, Error, Action, Operation, Manager, find_op,
}
use nervud.Operation.Locked.{terminated, terminate_locked, record_op}
use nervud.Operation.Surface.{
  word, max_deadline_horizon, is_ok, check_resources, check_lease, validate_create, fresh_operation,
  create, record_rejected, can_see, get, cancel, subscribe,
}
use nervud.Operation.Reports.{
  report_terminal, fail, provider_fail_code, superseded_or_expired, action_for, terminal_cause_for,
}
use nervud.Operation.Store.{find_op-put_op, find_op-id, terminate_locked_ops, terminal_stays}

is_ok_eq : (c : StatusCode) → is_ok c ≡ true → c ≡ ok_code
is_ok_eq c h = ground arith

-- What a validation that passes has seen of a motion operation.
validate_create_motion :
    (m : Manager) (conn : ℕ) (h : String) (rest : List String) (lease epoch : ℕ) (deadline now : ℤ)
    (valid : ℕ → ℕ → ℕ → String → Bool)
    → is_ok (validate_create m conn (h ∷ rest) lease epoch deadline now) ≡ true
    → lease ≢ 0
    → m.lease ≡ some valid
    → (length rest ≡ 0)
      × (valid conn lease epoch h ≡ true)
      × (ltb_ℤ now deadline ≡ true)
      × (ltb_ℤ (now +ℤ max_deadline_horizon) deadline ≡ false)
unfolding validate_create check_lease
validate_create_motion m conn h rest lease epoch deadline now valid ok motion there = ground arith

check_resources-NotAccepted :
    (res : Option (String → Bool)) (hs : List String) → check_resources res hs ≢ accepted
unfolding check_resources
check_resources-NotAccepted res [] e = ground arith
check_resources-NotAccepted res (h ∷ hs) e = ground (arith, check_resources-NotAccepted res hs)

validate_create-NotAccepted :
    (m : Manager) (conn : ℕ) (hs : List String) (lease epoch : ℕ) (deadline now : ℤ)
    → validate_create m conn hs lease epoch deadline now ≢ accepted
unfolding validate_create check_lease
validate_create-NotAccepted m conn hs lease epoch deadline now e =
    ground (arith, check_resources-NotAccepted m.res hs)

-- Without a lease validator no motion operation is admitted.
validate_create_lease :
    (m : Manager) (conn : ℕ) (h : String) (rest : List String) (lease epoch : ℕ) (deadline now : ℤ)
    → is_ok (validate_create m conn (h ∷ rest) lease epoch deadline now) ≡ true
    → lease ≢ 0
    → (valid : ℕ → ℕ → ℕ → String → Bool) × (m.lease ≡ some valid)
unfolding validate_create check_lease
validate_create_lease m conn h rest lease epoch deadline now ok motion =
    elim (Option-cases m.lease) [ inr there ↦ there | inl gone ↦ absurd (ground (arith, gone)) ]

-- A motion operation that is created is stored as pending under the id that is returned; it has
-- exactly one resource, there is a lease validator and it has approved the lease for that resource at
-- its epoch, and its deadline lies ahead, by thirty minutes at most.
pub create_motion :
    (conn provider : ℕ) (caller : String) (origin : OriginBinding) (h : String) (rest : List String)
    (lease epoch : ℕ) (deadline now : ℤ) (m : Manager) {m' : Manager} {id : ℕ}
    → lease ≢ 0
    → create conn provider caller origin (h ∷ rest) lease epoch deadline now m ≡ (m', id, accepted)
    → (find_op id m'.ops
        ≡ some (fresh_operation id conn provider caller origin (h ∷ rest) lease epoch deadline now))
      × (length rest ≡ 0)
      × ((valid : ℕ → ℕ → ℕ → String → Bool) × (m.lease ≡ some valid)
          × (valid conn lease epoch h ≡ true))
      × (ltb_ℤ now deadline ≡ true)
      × (ltb_ℤ (now +ℤ max_deadline_horizon) deadline ≡ false)
unfolding create record_rejected record_op
create_motion conn provider caller origin h rest lease epoch deadline now m {m'} {id} motion e =
    let code = validate_create m conn (h ∷ rest) lease epoch deadline now in
    let new =
      fresh_operation ((m.next_id + 1) % word) conn provider caller origin (h ∷ rest) lease epoch
        deadline now in
    elim (Bool-cases (is_ok code)) [
      | inl ok ↦
          let (valid, there) =
            validate_create_lease m conn h rest lease epoch deadline now ok motion in
          let seen =
            validate_create_motion m conn h rest lease epoch deadline now valid ok motion there in
          (
            ground (arith, find_op-put_op ((m.next_id + 1) % word) new m.ops),
            seen.0,
            (valid, there, seen.1),
            seen.2,
            seen.3,
          )
      | inr bad ↦
          absurd
            (ground (arith, validate_create-NotAccepted m conn (h ∷ rest) lease epoch deadline now))
    ]

-- To a caller of another package an operation looks as one that does not exist: it is not found,
-- its cancellation is answered NOT_FOUND and changes nothing, and its subscription is closed.
pub hidden_from_others :
    (caller : String) (id : ℕ) (now : ℤ) (m : Manager) (op : Operation)
    → find_op id m.ops ≡ some op
    → caller ≢ ""
    → caller ≢ op.caller
    → (get caller id m ≡ none)
      × (cancel caller id now m ≡ (m, not_found))
      × (subscribe caller id m ≡ (m, none))
unfolding get can_see cancel subscribe
hidden_from_others caller id now m op found named other =
    let blind : can_see caller op ≡ false =
      ground (arith, eq_iff caller "", eq_iff caller op.caller) in
    ground (arith, blind)

report_failed :
    (id : ℕ) (code : StatusCode) (detail : Bytes) (c : Option Error) (now : ℤ) (m : Manager)
    (op : Operation)
    → find_op id m.ops ≡ some op
    → can_transition op.state failed ≡ true
    → provider_fail_code code ≡ true
    → (op' : Operation) × (find_op id (report_terminal id failed code detail fails c now m).0.ops
        ≡ some op')
      × (op'.state ≡ failed)
      × (provider_fail_code op'.terminal_status ≡ true)
unfolding report_terminal superseded_or_expired provider_fail_code
report_failed id code detail c now m op found live listed =
    let stop' : terminal op.state ≡ false = ground (arith, terminal_stays op.state failed) in
    let new : same_state op.state failed ≡ false = ground arith in
    elim (Option-cases (superseded_or_expired m now op)) [
      | inr ((why, cause), over) ↦ (
        terminated op failed why [] now,
        rw (found, stop', new, over, report_terminal)
            (written failed why [] (action_for why) (some cause) live),
        refl,
        ground arith,
      )
      | inl free ↦ (
        terminated op failed code detail now,
        rw (found, stop', new, free, live, report_terminal)
            (written failed code detail fails (terminal_cause_for failed c) live),
        refl,
        listed,
      )
    ]
  where
    written :
        (to : State) (s : StatusCode) (d : Bytes) (a : Action) (e : Option Error)
        → can_transition op.state to ≡ true
        → find_op id (terminate_locked op to s d a e now m).0.ops ≡ some (terminated op to s d now)
    written to s d a e allowed =
        ap (find_op id) (terminate_locked_ops op to s d a e now m allowed)
        ∙ find_op-put_op id (terminated op to s d now) m.ops
        ∙ ground (arith, find_op-id id m.ops op found)

-- A provider's `Fail` on an operation in progress always fails it, and the code that is stored is
-- one that a provider may give, whatever code was reported.
pub fail_ends :
    (id : ℕ) (code : StatusCode) (detail : Bytes) (now : ℤ) (m : Manager) (op : Operation)
    → find_op id m.ops ≡ some op
    → can_transition op.state failed ≡ true
    → (op' : Operation) × (find_op id (fail id code detail now m).0.ops ≡ some op')
      × (op'.state ≡ failed)
      × (provider_fail_code op'.terminal_status ≡ true)
unfolding fail provider_fail_code
fail_ends id code detail now m op found live = elim (Bool-cases (provider_fail_code code)) [
  | inl listed ↦ rw listed (report_failed id code detail none now m op found live listed)
  | inr odd ↦
      rw odd (report_failed id internal detail (some provider_contract) now m op found live refl)
]
