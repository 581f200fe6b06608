-- ===== src/Control/Moves.antt =====
-- module.go, slot.go, lane.go: sequences of calls of the control module, the steps of `RevokeAll`
-- falling anywhere between them.
use nervud.Base.{
  ℕ, String, ◌≡◌, refl, ap, ◌∙◌, Bool, true, Option, some, List, [], ◌∷◌, arith, total,
}
use nervud.Base.Int.{ℤ}
use nervud.Control.Policy.{Policy, Cause, shutting_down, safety_revoked}
use nervud.Control.Types.{Lease, Slot, Module, Request, new, revoked}
use nervud.Control.Supervised.{Act, act, run_acts}
use nervud.Control.Boundary.{advance_epoch, drain_revoked, pending_leases}
use nervud.Control.Acquire.{quiet, acquire}
use nervud.Control.Revoke.{
  renew, refresh, release, revoke_conn, revoke_resource, revoke_by_package, stop, dropped,
  clear_matching, drop_matching_locked,
}
use nervud.Control.Lane.{on_tick}
use nervud.Control.Tally.{grants, ends, held, pending, Tally, SameTally-Tally}
use nervud.Control.Ledger.{
  drain_revoked-Tally, run_acts-Tally, end_leases_counts, clear_matching_counts,
  clear_pending_counts,
}
use nervud.Control.Whole.{
  acquire-Tally, renew-Tally, refresh-Tally, release-Tally, revoke_conn-Tally,
  revoke_by_package-Tally, revoke_resource-Tally, stop-Tally, on_tick-Tally,
}

-- `SetLeaseObserver`, before `Start`.
unfoldable pub set_lease_observer : Module → Module
set_lease_observer m = record m { observed = true }

-- One call that changes the module, or one step of `RevokeAll` or of the gate.
pub data Call : Type 0 where
  acquires : Request → ℤ → ℕ → Call
  renews : ℕ → ℕ → ℤ → Call
  refreshes : ℕ → ℕ → ℤ → Call
  releases : ℕ → ℕ → Call
  revokes_conn : ℕ → Call
  revokes_resource : String → ℕ → Call
  revokes_package : String → Call
  supervised : Act → Call
  ticks : ℤ → Call
  stops : Call

unfoldable pub step : Module → Call → Module
step m (acquires req now id) = (acquire quiet req now id m).0
step m (renews id conn now) = (renew id conn now m).0
step m (refreshes id conn now) = (refresh id conn now m).0
step m (releases id conn) = (release id conn m).0
step m (revokes_conn conn) = revoke_conn conn m
step m (revokes_resource r g) = revoke_resource r g m
step m (revokes_package pkg) = revoke_by_package pkg m
step m (supervised a) = act a m
step m (ticks now) = on_tick now m
step m stops = stop m

unfoldable pub run : List Call → Module → Module
run [] m = m
run (c ∷ cs) m = run cs (step m c)

step-Tally : (m : Module) (c : Call) → Tally m → Tally (step m c)
unfolding step run_acts
step-Tally m (acquires req now id) v = acquire-Tally req now id m v
step-Tally m (renews id conn now) v = renew-Tally id conn now m v
step-Tally m (refreshes id conn now) v = refresh-Tally id conn now m v
step-Tally m (releases id conn) v = release-Tally id conn m v
step-Tally m (revokes_conn conn) v = revoke_conn-Tally conn m v
step-Tally m (revokes_resource r g) v = revoke_resource-Tally r g m v
step-Tally m (revokes_package pkg) v = revoke_by_package-Tally pkg m v
step-Tally m (supervised a) v = run_acts-Tally (a ∷ []) m v
step-Tally m (ticks now) v = on_tick-Tally now m v
step-Tally m stops v = stop-Tally m v

run-Tally : (cs : List Call) (m : Module) → Tally m → Tally (run cs m)
unfolding run
run-Tally [] m v = v
run-Tally (c ∷ cs) m v = run-Tally cs (step m c) (step-Tally m c v)

new-Tally :
    (gate : ℕ) (policy : Policy) (base : ℤ) → Tally (set_lease_observer (new gate policy base))
unfolding set_lease_observer new
new-Tally gate policy base = record {
  watched = refl;
  apart = (omega arith, tt);
  counted = refl;
  few = omega arith;
  balance = refl;
}

-- After any sequence of calls on a new, observed module, with the steps of revocations between
-- them in any order: the leases granted are as many as the leases whose end was notified, the
-- leases held and the leases that wait for their notification taken together; no slot both holds a
-- lease and has one waiting; the module's count of waiting leases is right; and there are at most
-- 1024 slots. (Inside one `Acquire` nothing else runs.)
pub run-new-Tally :
    (cs : List Call) (gate : ℕ) (policy : Policy) (base : ℤ)
    → Tally (run cs (set_lease_observer (new gate policy base)))
run-new-Tally cs gate policy base = run-Tally cs _ (new-Tally gate policy base)

clear_all : (ss : List Slot) → total held (clear_matching (λ l. true) ss) ≡ 0
unfolding clear_matching
clear_all [] = refl
clear_all (s ∷ ss) = ground (arith, clear_all ss)

-- No lease waits once `drainRevoked` has run.
drained : (m : Module) → m.observed ≡ true → total pending (drain_revoked m).slots ≡ 0
unfolding drain_revoked
drained m w =
    ap (total pending)
      (end_leases_counts revoked (some safety_revoked) (pending_leases m.slots) _ w (λ x. cc)).2
    ∙ (clear_pending_counts m.slots).1

drop_slots :
    (p : Lease → Bool) (c : Option Cause) (m : Module) (ls : List Lease)
    → m.observed ≡ true
    → dropped p m.slots ≡ ls
    → (drop_matching_locked p c m).slots ≡ clear_matching p m.slots
unfolding drop_matching_locked advance_epoch
drop_slots p c m [] w d = rw (d, drop_matching_locked) refl
drop_slots p c m (l ∷ ls) w d =
    rw (d, drop_matching_locked) (end_leases_counts revoked c (l ∷ ls) _ w (λ x. cc)).2

abbrev stopped_after : List Call → ℕ → Policy → ℤ → Module
stopped_after cs gate policy base = stop (run cs (set_lease_observer (new gate policy base)))

-- Once a module that was new and observed has stopped, after any calls and steps of revocations, no slot holds a lease or
-- has one waiting, and as many ends were notified as leases were granted.
pub stop_settles :
    (cs : List Call) (gate : ℕ) (policy : Policy) (base : ℤ)
    → (total held (stopped_after cs gate policy base).slots ≡ 0)
      × (total pending (stopped_after cs gate policy base).slots ≡ 0)
      × (total grants (stopped_after cs gate policy base).log
          ≡ total ends (stopped_after cs gate policy base).log)
unfolding stop
stop_settles cs gate policy base =
    let before = run cs (set_lease_observer (new gate policy base)) in
    let v = run-new-Tally cs gate policy base in
    let d = drain_revoked (record before { stopped = true }) in
    let w : d.observed ≡ true =
      (drain_revoked-Tally _ (
        SameTally-Tally
          (record { watched = refl; slots = refl; counted = refl; grants = refl; ends = refl })
          v)).watched in
    let slots : (stop before).slots ≡ clear_matching (λ l. true) d.slots =
      drop_slots (λ l. true) (some shutting_down) d (dropped (λ l. true) d.slots) w refl in
    let held0 = ap (total held) slots ∙ clear_all d.slots in
    let k = clear_matching_counts (λ l. true) d.slots in
    let pending0 =
      ap (total pending) slots ∙ k.1 ∙ drained (record before { stopped = true }) v.watched in
    let after = stop-Tally before v in
    (held0, pending0, omega (arith, after.balance, held0, pending0))
