-- ===== src/Control/Tests.antt =====
-- slot.go, module.go, policy.go: the theorems of the control module at concrete states.
use nervud.Base.{ℕ, ◌≡◌, refl, ◌≢◌, none, some, List, [], ◌∷◌, arith, total}
use nervud.Base.Int.{ℤ, pos, ◌-ℤ◌, ◌+ℤ◌}
use nervud.Gate.Defs.{state_normal, state_of, epoch_of}
use nervud.Gate.Moves.{begins_recovery, requires_rearm}
use nervud.Control.Policy.{
  human, for_class, is_human, ok, default_policy, validate, validate_class, IsSound,
  validate-IsSound, resolve, class_valid,
}
use nervud.Control.Types.{Lease, Request, Slot, Module, new, empty_slot}
use nervud.Control.Slots.{find_slot}
use nervud.Control.Supervised.{opens, floors, takes, closes, gates}
use nervud.Control.Lookup.{
  check, check_resource, check_slot, lookup, find_lease, lease_state, validate_current, slot_holds,
  proof_of,
}
use nervud.Control.Acquire.{
  Schedule, lease_for, issue_at, publish, confirm, resolve_request, requested_budget,
}
use nervud.Control.Supervised.{run_acts, act}
use nervud.Control.Boundary.{mark_fresh, record_lease}
use nervud.Control.Slots.{on_slot}
use nervud.Control.Budget.{IsWithin, resolve_request-IsWithin}
use nervud.Control.Checked.{IsLive, check_resource_sound, check_resource_exclusive}
use nervud.Control.Takeover.{Refused, acquire_no_takeover}
use nervud.Control.Policy.{ai}
use nervud.Control.Acquire.{acquire}
use nervud.Control.Revoked.{revoke_all_stops}
use nervud.Control.Supervised.{revoke_all}
use nervud.Control.Issue.{issue_at_live}
use nervud.Control.Tally.{Tally, held, pending, grants, ends}
use nervud.Control.Moves.{
  Call, acquires, supervised, ticks, releases, set_lease_observer, run, run-new-Tally, stop_settles,
}
use nervud.Control.Revoke.{stop}

-- The word (NORMAL, 1).
abbrev gate : ℕ
gate = 72057594037927937

abbrev fresh_module : Module
fresh_module = new gate default_policy (pos 0)

abbrev wanted : Request
wanted = record {
  conn = 1;
  class = human;
  resource = "base.main";
  generation = 1;
  owner = "console";
  ttl = pos 0;
  deadman = pos 0;
  requested_ttl = pos 5000000000;
}

abbrev calls : List Call
calls =
    acquires wanted (pos 10) 7
    ∷ supervised opens
    ∷ supervised (floors 2)
    ∷ acquires wanted (pos 20) 8
    ∷ supervised (takes "base.main" 2)
    ∷ supervised closes
    ∷ ticks (pos 30)
    ∷ releases 7 1
    ∷ []

run-new-Tally_example : Tally (run calls (set_lease_observer (new gate default_policy (pos 0))))
run-new-Tally_example = run-new-Tally calls gate default_policy (pos 0)

abbrev stopped_module : Module
stopped_module = stop (run calls (set_lease_observer (new gate default_policy (pos 0))))

stop_settles_example :
    (total held stopped_module.slots ≡ 0)
    × (total pending stopped_module.slots ≡ 0)
    × (total grants stopped_module.log ≡ total ends stopped_module.log)
stop_settles_example = stop_settles calls gate default_policy (pos 0)

abbrev budget : ℤ × ℤ
budget = (pos 2000000000, pos 300000000)

abbrev beside : Schedule
beside = record {
  after_epoch = [];
  after_drain = [];
  after_seq = gates begins_recovery ∷ [];
  after_store = gates requires_rearm ∷ [];
}

abbrev issued : Lease
issued = lease_for wanted 0 7 (pos 10) budget 1

main_slot : find_slot "base.main" fresh_module.slots ≡ some (empty_slot "base.main")
unfolding new find_slot
main_slot = refl

issued_ok :
    issue_at beside wanted (pos 10) budget 7 1 fresh_module
    ≡ ((issue_at beside wanted (pos 10) budget 7 1 fresh_module).0, ok issued)
unfolding issue_at new find_slot run_acts act confirm publish mark_fresh on_slot record_lease ◌-ℤ◌
    ◌+ℤ◌ state_of epoch_of nervud.Gate.Defs.begin_recovery nervud.Gate.Defs.require_rearm
    nervud.Gate.Defs.cas1
issued_ok = refl

issue_at_live_example :
    (issued ≡ lease_for wanted fresh_module.next_addr 7 (pos 10) budget 1)
    × (epoch_of (issue_at beside wanted (pos 10) budget 7 1 fresh_module).0.gate ≡ 1)
    × (check_resource 1 "base.main" 1
          (pos 10)
          (issue_at beside wanted (pos 10) budget 7 1 fresh_module).0
        ≡ ok (proof_of issued))
unfolding new
issue_at_live_example =
    issue_at_live beside wanted (pos 10) budget 7 1 fresh_module (empty_slot "base.main") main_slot
      (omega arith) (tt, tt) (tt, tt) (omega arith) (omega arith) (omega arith) (omega arith)
      issued_ok

-- The module with that lease in its slot.
abbrev holding : Module
holding = record fresh_module {
  slots = record (empty_slot "base.main") { cur = some issued; fresh = pos 10 } ∷ [];
}

checked : check 7 1 (pos 20) holding ≡ ok 1
unfolding check lookup find_lease validate_current lease_state slot_holds new state_of ◌-ℤ◌ ◌+ℤ◌
checked = refl

checked_resource : check_resource 1 "base.main" 1 (pos 20) holding ≡ ok (proof_of issued)
unfolding check_resource check_slot find_slot validate_current lease_state slot_holds new state_of
    ◌-ℤ◌ ◌+ℤ◌
checked_resource = refl

check_resource_sound_example :
    (s : Slot) × (l : Lease) × (find_slot "base.main" holding.slots ≡ some s)
    × (s.cur ≡ some l)
    × (l.conn ≡ 1)
    × (l.resource ≡ "base.main")
    × (l.generation ≡ 1)
    × (proof_of issued ≡ proof_of l)
    × IsLive s l (pos 20) holding
check_resource_sound_example =
    check_resource_sound 1 "base.main" 1 (pos 20) holding checked_resource

check_resource_exclusive_example : (issued.conn ≡ wanted.conn) × (proof_of issued ≡ proof_of issued)
check_resource_exclusive_example =
    check_resource_exclusive 1 1 "base.main" 1 1 (pos 20) holding checked_resource checked_resource

default_sound : validate default_policy ≡ none
unfolding validate validate_class
default_sound = refl

default-IsSound : IsSound default_policy.human × IsSound default_policy.ai
default-IsSound = validate-IsSound default_policy default_sound

resolved : resolve_request fresh_module wanted ≡ ok budget
unfolding resolve_request requested_budget resolve for_class class_valid is_human new
resolved = refl

resolve_request-IsWithin_example :
    IsWithin (for_class fresh_module.policy wanted.class) (pos 2000000000) (pos 300000000)
unfolding new
resolve_request-IsWithin_example =
    resolve_request-IsWithin fresh_module wanted default-IsSound.0 default-IsSound.1 resolved

abbrev malformed : Request
malformed = record wanted { ttl = pos 1 }

-- A request of the AI, while the human's lease is live.
abbrev ai_wanted : Request
ai_wanted = record wanted { conn = 2; class = ai; owner = "planner" }

issued_live :
    lease_state
      (record (empty_slot "base.main") { cur = some issued; fresh = pos 10 })
      issued
      (pos 20)
      holding
    ≡ none
unfolding lease_state new state_of ◌-ℤ◌ ◌+ℤ◌
issued_live = refl

held_slot :
    find_slot "base.main" holding.slots
    ≡ some (record (empty_slot "base.main") { cur = some issued; fresh = pos 10 })
unfolding find_slot
held_slot = refl

acquire_no_takeover_example :
    Refused ai_wanted holding (acquire beside ai_wanted (pos 20) 9 holding)
unfolding new
acquire_no_takeover_example =
    acquire_no_takeover beside ai_wanted (pos 20) 9 holding
      (record (empty_slot "base.main") { cur = some issued; fresh = pos 10 }) issued refl held_slot
      refl issued_live refl (λ e. omega arith) (λ e. cc)

revoke_all_stops_example :
    check_resource 1 "base.main" 1 (pos 20) (revoke_all 2 holding) ≢ ok (proof_of issued)
revoke_all_stops_example = revoke_all_stops 2 holding 1 "base.main" 1 (pos 20) (proof_of issued)
