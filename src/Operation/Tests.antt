-- ===== src/Operation/Tests.antt =====
-- manager.go, reporter.go: the theorems of the operation manager at concrete operations.
use nervud.Base.{
  ℕ, String, ◌≡◌, refl, ◌≢◌, ◌⊎◌, Bool, true, false, none, some, List, [], ◌∷◌, ◌==◌, ◌&&◌, length,
  arith, str_eq, eq_iff,
}
use nervud.Base.Int.{pos, ◌+ℤ◌, ltb_ℤ}
use nervud.Operation.State.{running, succeeded, failed, can_transition}
use nervud.Operation.Types.{
  OriginBinding, Operation, Manager, new, find_op, superseded, deadline_exceeded, ok_code, accepted,
  failed_precondition, deadline_code, not_found, permission_denied, succeeds,
}
use nervud.Operation.Locked.{terminated, record_op}
use nervud.Operation.Surface.{
  max_deadline_horizon, fresh_operation, create, validate_create, check_resources, check_lease, get,
  cancel, subscribe, converge_supersede,
}
use nervud.Operation.Reports.{report_terminal, fail, provider_fail_code}
use nervud.Operation.Moves.{
  Call, asks_cancel, supersedes, converges, succeeds_at, reaps, step, run, Followed,
}
use nervud.Operation.History.{step-Followed}
use nervud.Operation.Endings.{run_terminal}
use nervud.Operation.Overruled.{
  converge_supersede_fails, report_terminal_stale, report_terminal_late,
}
use nervud.Operation.Admission.{create_motion, hidden_from_others, fail_ends}

abbrev origin : OriginBinding
origin = record {
  interface_id = "nervus.arm";
  iface_major = 1;
  iface_minor = 0;
  method_id = 3;
  schema_hash = [];
}

abbrev moving : Operation
moving = record (fresh_operation 1 4 5 "console" origin ("arm.main" ∷ []) 9 2 (pos 100) (pos 10)) {
  state = running;
}

abbrev ended : Operation
ended = record moving { state = succeeded; terminal_status = ok_code; updated_at = pos 20 }

abbrev approve : ℕ → ℕ → ℕ → String → Bool
approve conn lease epoch resource = lease == 9 && str_eq resource "arm.main"

abbrev empty : Manager
empty = new (some (λ h. true)) (some approve)

-- A manager in which Safety has passed the epoch of the operation.
abbrev busy : Manager
busy = record empty { ops = moving ∷ []; next_id = 1; supersede_epoch = 3 }

abbrev done : Manager
done = record busy { ops = ended ∷ [] }

busy_found : find_op 1 busy.ops ≡ some moving
unfolding find_op
busy_found = refl

done_found : find_op 1 done.ops ≡ some ended
unfolding find_op
done_found = refl

moving_live : can_transition moving.state failed ≡ true
unfolding can_transition
moving_live = refl

abbrev calls : List Call
calls =
    asks_cancel "console" 1 (pos 30)
    ∷ supersedes 8
    ∷ converges (pos 40)
    ∷ succeeds_at 1 [] (pos 50)
    ∷ reaps (pos 400000000000)
    ∷ []

run_terminal_example :
    (find_op 1 (run calls done).ops ≡ some ended)
    ⊎ (find_op 1 (run calls done).ops ≡ none) × (find_op 1 (run calls (run calls done)).ops ≡ none)
unfolding new
run_terminal_example =
    run_terminal calls calls done 1 ended (omega arith) (omega arith) done_found refl

step-Followed_example : Followed 1 moving (step busy (converges (pos 40)))
unfolding new
step-Followed_example =
    step-Followed busy (converges (pos 40)) 1 moving (omega arith) (omega arith) busy_found

report_terminal_stale_example :
    (find_op 1 (report_terminal 1 succeeded ok_code [] succeeds none (pos 30) busy).0.ops
      ≡ some (terminated moving failed failed_precondition [] (pos 30)))
    × ((report_terminal 1 succeeded ok_code [] succeeds none (pos 30) busy).1 ≡ some superseded)
unfolding new
report_terminal_stale_example =
    report_terminal_stale 1 succeeded ok_code [] succeeds none (pos 30) busy moving busy_found
      moving_live (λ e. cc) (λ e. omega arith) (omega arith)

-- The same operation, before Safety passes its epoch.
abbrev calm : Manager
calm = record busy { supersede_epoch = 2 }

report_terminal_late_example :
    (find_op 1 (report_terminal 1 succeeded ok_code [] succeeds none (pos 101) calm).0.ops
      ≡ some (terminated moving failed deadline_code [] (pos 101)))
    × ((report_terminal 1 succeeded ok_code [] succeeds none (pos 101) calm).1
        ≡ some deadline_exceeded)
unfolding new
report_terminal_late_example =
    report_terminal_late 1 succeeded ok_code [] succeeds none (pos 101) calm moving busy_found
      moving_live (λ e. cc) refl refl

converge_supersede_fails_example :
    find_op 1 (converge_supersede (pos 30) busy).ops
    ≡ some (terminated moving failed failed_precondition [] (pos 30))
unfolding new
converge_supersede_fails_example =
    converge_supersede_fails (pos 30) busy 1 moving busy_found moving_live (λ e. omega arith)
      (omega arith)

created_ok :
    create 4 5 "console" origin ("arm.main" ∷ []) 9 2 (pos 100) (pos 10) empty
    ≡ ((create 4 5 "console" origin ("arm.main" ∷ []) 9 2 (pos 100) (pos 10) empty).0, 1, accepted)
unfolding new create validate_create check_resources check_lease record_op ◌+ℤ◌
created_ok = refl

create_motion_example :
    (find_op 1 (create 4 5 "console" origin ("arm.main" ∷ []) 9 2 (pos 100) (pos 10) empty).0.ops
      ≡ some (fresh_operation 1 4 5 "console" origin ("arm.main" ∷ []) 9 2 (pos 100) (pos 10)))
    × (length {A = String} [] ≡ 0)
    × ((valid : ℕ → ℕ → ℕ → String → Bool) × (empty.lease ≡ some valid)
        × (valid 4 9 2 "arm.main" ≡ true))
    × (ltb_ℤ (pos 10) (pos 100) ≡ true)
    × (ltb_ℤ (pos 10 +ℤ max_deadline_horizon) (pos 100) ≡ false)
create_motion_example =
    create_motion 4 5 "console" origin "arm.main" [] 9 2 (pos 100) (pos 10) empty (λ e. omega arith)
      created_ok

abbrev intruder : String
intruder = "intruder"

intruder_named : intruder ≢ ""
intruder_named e = ground (arith, eq_iff intruder "")

intruder_other : intruder ≢ moving.caller
intruder_other e = ground (arith, eq_iff intruder "console")

hidden_from_others_example :
    (get intruder 1 busy ≡ none)
    × (cancel intruder 1 (pos 30) busy ≡ (busy, not_found))
    × (subscribe intruder 1 busy ≡ (busy, none))
hidden_from_others_example =
    hidden_from_others intruder 1 (pos 30) busy moving busy_found intruder_named intruder_other

fail_ends_example :
    (op : Operation) × (find_op 1 (fail 1 permission_denied [] (pos 30) busy).0.ops ≡ some op)
    × (op.state ≡ failed)
    × (provider_fail_code op.terminal_status ≡ true)
fail_ends_example = fail_ends 1 permission_denied [] (pos 30) busy moving busy_found moving_live
