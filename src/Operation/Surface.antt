-- ===== src/Operation/Surface.antt =====
-- manager.go: what the dispatcher, Safety and the background loop call.
use nervud.Base.{
  ℕ, ◌+◌, ◌%◌, ◌^◌, String, Bool, true, false, not, ◌&&◌, ◌||◌, Option, none, some, List, [], ◌∷◌,
  ◌++◌, ◌==◌, ltb, length, if◌then◌else◌, str_eq, map,
}
use nervud.Base.Int.{ℤ, pos, negsuc, ◌+ℤ◌, ◌-ℤ◌, ltb_ℤ}
use nervud.Operation.State.{pending, cancel_requested, same_state, terminal, can_transition}
use nervud.Operation.Types.{
  StatusCode, unspecified_code, ok_code, accepted, invalid_argument, failed_precondition,
  deadline_code, unavailable, not_found, superseded, deadline_exceeded, shutting_down, conn_closed,
  created, cancel_asked, safety_superseded, deadline_passed, conn_gone, shutdown, rejected,
  OriginBinding, Operation, Subscription, Manager, find_op, delete_op,
}
use nervud.Operation.Locked.{record_op, store_op, transition_locked, sweep, ids}

abbrev pub word : ℕ
word = 2 ^ 64

abbrev pub max_deadline_horizon : ℤ
max_deadline_horizon = pos 1800000000000

abbrev pub terminal_retention : ℤ
terminal_retention = pos 300000000000

unfoldable pub check_resources : Option (String → Bool) → List String → StatusCode
check_resources res [] = ok_code
check_resources res (h ∷ hs) =
    let rest = check_resources res hs in
    if str_eq h ""
    then invalid_argument
    else if elim res [ none ↦ false | some valid ↦ valid h ]
    then rest
    else failed_precondition

abbrev pub is_ok : StatusCode → Bool
is_ok ok_code = true
is_ok _ = false

-- The lease test of a motion operation, on the first resource.
unfoldable pub check_lease : Manager → ℕ → ℕ → ℕ → List String → StatusCode
check_lease m conn lease epoch resources = elim (m.lease) [
  | none ↦ failed_precondition
  | some valid ↦ elim resources [
    | [] ↦ failed_precondition
    | h ∷ hs ↦ (if valid conn lease epoch h then ok_code else failed_precondition)
  ]
]

unfoldable pub validate_create : Manager → ℕ → List String → ℕ → ℕ → ℤ → ℤ → StatusCode
unfolding check_lease
validate_create m conn resources lease epoch deadline now =
    let code = check_resources m.res resources in
    if length resources == 0
    then invalid_argument
    else if not (is_ok code)
    then code
    else if not (lease == 0) && not (length resources == 1)
    then invalid_argument
    else if not (ltb_ℤ now deadline) || ltb_ℤ (now +ℤ max_deadline_horizon) deadline
    then invalid_argument
    else if lease == 0
    then ok_code
    else check_lease m conn lease epoch resources

unfoldable pub record_rejected : String → List String → ℕ → StatusCode → Manager → Manager
record_rejected caller resources lease code m = record m {
  audit = m.audit ++ rejected caller resources lease code ∷ [];
}

abbrev pub fresh_operation :
    ℕ → ℕ → ℕ → String → OriginBinding → List String → ℕ → ℕ → ℤ → ℤ → Operation
fresh_operation id conn provider caller origin resources lease epoch deadline now = record {
  id = id;
  origin = origin;
  caller = caller;
  resources = resources;
  lease_id = lease;
  motion_epoch = epoch;
  deadline = deadline;
  state = pending;
  terminal_status = unspecified_code;
  terminal_result = [];
  terminal_error = [];
  created_at = now;
  updated_at = now;
  conn = conn;
  provider_conn = provider;
}

-- The id is drawn before the test of a stop.
unfoldable pub create :
    ℕ
    → ℕ
    → String
    → OriginBinding
    → List String
    → ℕ
    → ℕ
    → ℤ
    → ℤ
    → Manager
    → Manager × ℕ × StatusCode
unfolding record_rejected record_op
create conn provider caller origin resources lease epoch deadline now m =
    let code = validate_create m conn resources lease epoch deadline now in
    let id = (m.next_id + 1) % word in
    let m' = record m { next_id = id } in
    let op = fresh_operation id conn provider caller origin resources lease epoch deadline now in
    if not (is_ok code)
    then (record_rejected caller resources lease code m, 0, code)
    else if m.stopping
    then (record_rejected caller resources lease unavailable m', 0, unavailable)
    else (record_op created op none (store_op op m'), id, accepted)

unfoldable pub can_see : String → Operation → Bool
can_see caller op = str_eq caller "" || str_eq caller op.caller

unfoldable pub get : String → ℕ → Manager → Option Operation
unfolding can_see
get caller id m = elim (find_op id m.ops) [
  | none ↦ none
  | some op ↦ if can_see caller op then some op else none
]

unfoldable pub provider_operation : ℕ → ℕ → Manager → Option Operation
provider_operation provider id m = if provider == 0 then none else elim (find_op id m.ops) [
  | none ↦ none
  | some op ↦ if op.provider_conn == provider then some op else none
]

unfoldable pub cancel : String → ℕ → ℤ → Manager → Manager × StatusCode
unfolding record_op transition_locked
cancel caller id now m = elim (get caller id m) [
  | none ↦ (m, not_found)
  | some op ↦
      (let op' = record op { state = cancel_requested; updated_at = now } in
        if terminal op.state
        then (m, accepted)
        else if same_state op.state cancel_requested
        then (m, accepted)
        else if can_transition op.state cancel_requested
        then (
          record_op cancel_asked op' none (transition_locked op cancel_requested now m),
          accepted,
        )
        else (m, accepted))
]

-- The handle of the new subscription, `none` for the closed channel of an operation that is hidden
-- or has ended.
unfoldable pub subscribe : String → ℕ → Manager → Manager × Option ℕ
subscribe caller id m = elim (get caller id m) [
  | none ↦ (m, none)
  | some op ↦
      (let s : Subscription = record {
        handle = m.next_handle;
        operation = id;
        queue = [];
        listed = true;
        closed = false;
      } in
        if terminal op.state then (m, none) else (
          record m { next_handle = m.next_handle + 1; subs = m.subs ++ s ∷ [] },
          some m.next_handle,
        ))
]

unfoldable pub release_by_conn : ℕ → ℤ → Manager → Manager
release_by_conn conn now m =
    if conn == 0
    then m
    else sweep (λ op. op.conn == conn && not (terminal op.state)) unavailable conn_gone conn_closed
        now (ids m) m

-- `SafetySupersede`: an atomic maximum, and a wake that does not block.
unfoldable pub safety_supersede : ℕ → Manager → Manager
safety_supersede epoch m = record m {
  supersede_epoch = if ltb m.supersede_epoch epoch then epoch else m.supersede_epoch;
  wake = true;
}

-- A motion operation from before the boundary.
abbrev pub is_stale : ℕ → Operation → Bool
is_stale boundary op = not (op.lease_id == 0) && ltb op.motion_epoch boundary

unfoldable pub converge_supersede : ℤ → Manager → Manager
converge_supersede now m =
    let boundary = m.supersede_epoch in
    if boundary == 0
    then m
    else sweep (λ op. not (terminal op.state) && is_stale boundary op) failed_precondition
        safety_superseded superseded now (ids m) m

-- `Time.IsZero`.
abbrev pub is_zero_time : ℤ → Bool
is_zero_time (pos n) = n == 0
is_zero_time (negsuc n) = false

abbrev pub is_past : ℤ → Operation → Bool
is_past now op = not (is_zero_time op.deadline) && ltb_ℤ op.deadline now

unfoldable pub scan_deadlines : ℤ → Manager → Manager
scan_deadlines now m =
    sweep (λ op. not (terminal op.state) && is_past now op) deadline_code deadline_passed
      deadline_exceeded now (ids m) m

abbrev pub unlist : ℕ → Subscription → Subscription
unlist id s = if s.operation == id then record s { listed = false } else s

unfoldable pub reap : ℤ → ℕ → Manager → Manager
reap now id m = elim (find_op id m.ops) [
  | none ↦ m
  | some op ↦
      (if terminal op.state && ltb_ℤ terminal_retention (now -ℤ op.updated_at)
        then record m { ops = delete_op id m.ops; subs = map (unlist id) m.subs }
        else m)
]

unfoldable pub reap_all : ℤ → List ℕ → Manager → Manager
reap_all now [] m = m
reap_all now (id ∷ is) m = reap_all now is (reap now id m)

unfoldable pub reap_terminal : ℤ → Manager → Manager
unfolding reap_all
reap_terminal now m = reap_all now (ids m) m

unfoldable pub set_lease_validator : Option (ℕ → ℕ → ℕ → String → Bool) → Manager → Manager
set_lease_validator v m = record m { lease = v }

unfoldable pub set_event_observer : Bool → Manager → Manager
set_event_observer b m = record m { observer = b }

-- The two cases of `loop` that do work.
unfoldable pub on_wake : ℤ → Manager → Manager
unfolding converge_supersede
on_wake now m = converge_supersede now (record m { wake = false })

unfoldable pub on_tick : ℤ → Manager → Manager
unfolding converge_supersede scan_deadlines reap_terminal
on_tick now m = reap_terminal now (scan_deadlines now (converge_supersede now m))

-- The loop has left before `Stop` takes the lock.
unfoldable pub stop : ℤ → Manager → Manager
stop now m =
    sweep (λ op. not (terminal op.state)) unavailable shutdown shutting_down now (ids m)
      (record m { stopping = true })
