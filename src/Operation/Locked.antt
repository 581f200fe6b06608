-- ===== src/Operation/Locked.antt =====
-- manager.go: what runs under the manager's lock.
use nervud.Base.{
  ℕ, Bool, true, false, not, ◌&&◌, ◌||◌, Option, none, some, List, [], ◌∷◌, ◌++◌, ◌==◌, map, length,
  ltb, if◌then◌else◌,
}
use nervud.Base.Int.{ℤ}
use nervud.Operation.State.{State, succeeded, failed, same_state, terminal, can_transition}
use nervud.Operation.Types.{
  Bytes, StatusCode, unspecified_code, Error, Action, Operation, Event, event_state, Subscription,
  of_operation, Manager, find_op, put_op,
}

abbrev pub sub_buffer : ℕ
sub_buffer = 16

-- `record`: `Denied` is set wherever there is a cause.
unfoldable pub record_op : Action → Operation → Option Error → Manager → Manager
record_op action op cause m = record m { audit = m.audit ++ of_operation action op cause ∷ [] }

-- The send to one subscription does not block: an event that finds a full buffer is dropped.
abbrev pub send : ℕ → Event → Subscription → Subscription
send id ev s =
    if (s.operation == id && s.listed) && (not s.closed && ltb (length s.queue) sub_buffer)
    then record s { queue = s.queue ++ ev ∷ [] }
    else s

-- `emitLocked`: without subscriptions and observer it changes nothing.
unfoldable pub emit_locked : Operation → Event → Manager → Manager
emit_locked op ev m = record m {
  observed = if m.observer then m.observed ++ ev ∷ [] else m.observed;
  subs = map (send op.id ev) m.subs;
}

abbrev pub shut : ℕ → Subscription → Subscription
shut id s = if s.operation == id && s.listed then record s { closed = true; listed = false } else s

unfoldable pub close_all_subs_locked : ℕ → Manager → Manager
close_all_subs_locked id m = record m { subs = map (shut id) m.subs }

abbrev pub shut_one : ℕ → Subscription → Subscription
shut_one handle s =
    if s.handle == handle && s.listed then record s { closed = true; listed = false } else s

-- `removeSubLocked`, called by the function that `Subscribe` returns.
unfoldable pub remove_sub_locked : ℕ → Manager → Manager
remove_sub_locked handle m = record m { subs = map (shut_one handle) m.subs }

-- The event of a state that the operation has entered.
abbrev pub state_event : Operation → Event
state_event op = record {
  operation_id = op.id;
  kind = event_state;
  state = op.state;
  origin = op.origin;
  payload = [];
  terminal_status = if terminal op.state then op.terminal_status else unspecified_code;
  terminal_result = if terminal op.state then op.terminal_result else [];
  terminal_error = if terminal op.state then op.terminal_error else [];
}

abbrev pub store_op : Operation → Manager → Manager
store_op op m = record m { ops = put_op op m.ops }

unfoldable pub transition_locked : Operation → State → ℤ → Manager → Manager
unfolding emit_locked
transition_locked op to now m =
    let op' = record op { state = to; updated_at = now } in
    emit_locked op' (state_event op') (store_op op' m)

-- The record that `terminateLocked` writes.
abbrev pub terminated : Operation → State → StatusCode → Bytes → ℤ → Operation
terminated op to status detail now = record op {
  state = to;
  updated_at = now;
  terminal_status = status;
  terminal_result = if same_state to succeeded then detail else op.terminal_result;
  terminal_error = if same_state to failed then detail else op.terminal_error;
}

unfoldable pub terminate_locked :
    Operation → State → StatusCode → Bytes → Action → Option Error → ℤ → Manager → Manager × Bool
unfolding record_op close_all_subs_locked emit_locked
terminate_locked op to status detail action cause now m =
    let op' = terminated op to status detail now in
    let emitted = emit_locked op' (state_event op') (store_op op' m) in
    if terminal op.state || not (can_transition op.state to)
    then (m, false)
    else (record_op action op' cause (close_all_subs_locked op.id emitted), true)

-- The body of a loop over the operations that fails those that it picks.
unfoldable pub visit : (Operation → Bool) → StatusCode → Action → Error → ℤ → ℕ → Manager → Manager
visit pick code action cause now id m = elim (find_op id m.ops) [
  | none ↦ m
  | some op ↦
      (if pick op then (terminate_locked op failed code [] action (some cause) now m).0 else m)
]

unfoldable pub sweep :
    (Operation → Bool) → StatusCode → Action → Error → ℤ → List ℕ → Manager → Manager
sweep pick code action cause now [] m = m
sweep pick code action cause now (id ∷ ids) m =
    sweep pick code action cause now ids (visit pick code action cause now id m)

abbrev pub ids : Manager → List ℕ
ids m = map (λ o. o.id) m.ops
