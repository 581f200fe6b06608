-- ===== src/Control/Acquire.antt =====
-- slot.go: `Acquire`, with what the goroutines outside the lock do between its atomic steps.
use nervud.Base.{
  ℕ, suc, ◌%◌, String, Bool, true, false, not, ◌&&◌, ◌||◌, none, some, List, [], ◌==◌,
  if◌then◌else◌, str_eq,
}
use nervud.Base.Int.{ℤ, pos, ◌+ℤ◌, ltb_ℤ, min_ℤ}
use nervud.Gate.Defs.{state_of, epoch_of, state_normal}
use nervud.Control.Policy.{
  class_valid, same_class, is_human, can_preempt, Cause, safety_latched, stale_epoch, held_by_human,
  held_by_ai, shutting_down, resource_capacity, resource_revoked, invalid_request, unknown_resource,
  Result, ok, err, for_class, resolve, is_zero, ClassPolicy,
}
use nervud.Control.Types.{Lease, Slot, Module, Request, granted, renewed, preempted, revoked}
use nervud.Control.Slots.{find_slot, slot_locked, with_slot}
use nervud.Control.Boundary.{
  cas_clear, cas_store, mark_fresh, record_lease, record_denied, end_lease, advance_epoch,
  drop_locked, action_for, drain_if_pending, store,
}
use nervud.Control.Supervised.{Act, run_acts}
use nervud.Control.Lookup.{lease_state}

abbrev pub deny {ℓ} : {A : Type ℓ} → Request → Cause → Module → Module × Result A
deny req cause m = (record_denied req cause m, err cause)

unfoldable pub requested_budget : ClassPolicy → Request → Result (ℤ × ℤ)
requested_budget c req =
    let ttl = min_ℤ req.requested_ttl c.ttl in
    let deadman = if is_zero req.deadman && ltb_ℤ ttl c.deadman then ttl else req.deadman in
    if not (is_zero req.ttl) then err invalid_request else resolve c ttl deadman

unfoldable pub resolve_request : Module → Request → Result (ℤ × ℤ)
unfolding requested_budget
resolve_request m req =
    let c = for_class m.policy req.class in
    if req.conn == 0
    then err invalid_request
    else if not (class_valid req.class)
    then err invalid_request
    else if str_eq req.resource ""
    then err unknown_resource
    else if req.generation == 0
    then err invalid_request
    else if ltb_ℤ req.requested_ttl (pos 0)
    then err invalid_request
    else if ltb_ℤ (pos 0) req.requested_ttl
    then requested_budget c req
    else resolve c req.ttl req.deadman

-- What falls between the atomic steps of one issue.
pub record Schedule : Type 0 where
  pub after_epoch : List Act
  pub after_drain : List Act
  pub after_seq : List Act
  pub after_store : List Act

abbrev pub quiet : Schedule
quiet = record { after_epoch = []; after_drain = []; after_seq = []; after_store = [] }

abbrev pub lease_for : Request → ℕ → ℕ → ℤ → ℤ × ℤ → ℕ → Lease
lease_for req addr id now budget epoch = record {
  addr = addr;
  id = id;
  conn = req.conn;
  class = req.class;
  resource = req.resource;
  generation = req.generation;
  owner = req.owner;
  issued_at = now;
  deadline = now +ℤ budget.0;
  ttl = budget.0;
  epoch = epoch;
  deadman = budget.1;
}

abbrev pub is_odd : ℕ → Bool
is_odd n = n % 2 == 1

abbrev pub has_pending : String → Module → Bool
has_pending r m = elim (find_slot r m.slots) [
  | none ↦ false
  | some s ↦ elim (s.revoked) [ none ↦ false | some l ↦ true ]
]

-- The check after the publication, the module's sequence number at the load being `seq`.
unfoldable pub confirm : Request → Lease → ℕ → Module → Module × Result Lease
confirm req l seq m =
    if not (state_of m.gate == state_normal)
    then deny req safety_latched (cas_clear req.resource l m).0
    else if not (epoch_of m.gate == l.epoch) || not (m.revoke_seq == seq)
    then deny req stale_epoch (cas_clear req.resource l m).0
    else (record_lease granted l none m, ok l)

-- Freshness is set before the lease is published. The allocation takes a new address.
unfoldable pub publish : Lease → ℤ → Module → Module
publish l now m =
    let m' = mark_fresh l.resource now m in
    with_slot l.resource (store l) (record m' { next_addr = suc m'.next_addr })

-- From the load of the sequence number on.
unfoldable pub issue_at : Schedule → Request → ℤ → ℤ × ℤ → ℕ → ℕ → Module → Module × Result Lease
unfolding publish
issue_at sch req now budget id epoch m =
    let seq = m.revoke_seq in
    let l = lease_for req m.next_addr id now budget epoch in
    let published = publish l now (run_acts sch.after_seq m) in
    if is_odd seq || has_pending req.resource m
    then deny req safety_latched m
    else confirm req l seq (run_acts sch.after_store published)

unfoldable pub issue_locked : Schedule → Request → ℤ → ℤ × ℤ → ℕ → Module → Module × Result Lease
issue_locked sch req now budget id m =
    let (m1, epoch, allowed) = advance_epoch m in
    let m2 = drain_if_pending (run_acts sch.after_epoch m1) in
    if not allowed
    then deny req safety_latched m1
    else issue_at sch req now budget id epoch (run_acts sch.after_drain m2)

-- The lease with its deadline moved, at a new address.
abbrev pub renewal : Lease → ℤ → ℕ → Lease
renewal l now addr = record l { deadline = now +ℤ l.ttl; addr = addr }

unfoldable pub renew_locked : String → Lease → ℤ → Module → Module × Result Lease
renew_locked r l now m =
    let next = renewal l now m.next_addr in
    let (m', swapped) = cas_store r l next (record m { next_addr = suc m.next_addr }) in
    if swapped
    then (record_lease renewed next none (mark_fresh r now m'), ok next)
    else (m', err safety_latched)

-- The held lease gives way to a HUMAN request: it is taken out, and counted as ended only where
-- this is what took it out.
unfoldable pub preempt : String → Lease → Module → Module
preempt r old m =
    let (m', taken) = cas_clear r old m in if taken then end_lease preempted none old m' else m'

-- The slot holds the lease `old`.
unfoldable pub acquire_held :
    Schedule → Request → ℤ → ℤ × ℤ → ℕ → Slot → Lease → Module → Module × Result Lease
unfolding preempt
acquire_held sch req now budget id s old m =
    if not (old.generation == req.generation)
    then issue_locked sch req now budget id
        (drop_locked req.resource old revoked (some resource_revoked) m)
    else elim (lease_state s old now m) [
      | some invalid ↦
          issue_locked sch req now budget id
            (drop_locked req.resource old (action_for invalid) (some invalid) m)
      | none ↦
          (if old.conn == req.conn && same_class old.class req.class
            then renew_locked req.resource old now m
            else if can_preempt req.class old.class
            then issue_locked sch req now budget id (preempt req.resource old m)
            else if is_human old.class
            then deny req held_by_human m
            else deny req held_by_ai m)
    ]

unfoldable pub acquire_slot :
    Schedule → Request → ℤ → ℤ × ℤ → ℕ → Slot → Module → Module × Result Lease
acquire_slot sch req now budget id s m = elim (s.cur) [
  | none ↦ issue_locked sch req now budget id m
  | some old ↦ acquire_held sch req now budget id s old m
]

unfoldable pub acquire_normal : Schedule → Request → ℤ → ℤ × ℤ → ℕ → Module → Module × Result Lease
acquire_normal sch req now budget id m = elim (slot_locked req.resource m) [
  | none ↦ deny req resource_capacity m
  | some m' ↦ elim (find_slot req.resource m'.slots) [
    | none ↦ deny req resource_capacity m'
    | some s ↦ acquire_slot sch req now budget id s m'
  ]
]

-- `id` is the handle that `newID` draws.
unfoldable pub acquire : Schedule → Request → ℤ → ℕ → Module → Module × Result Lease
acquire sch req now id m = elim (resolve_request m req) [
  | err e ↦ deny req e m
  | ok budget ↦
      (let m' = drain_if_pending m in
        if m'.stopped
        then deny req shutting_down m'
        else if not (state_of m'.gate == state_normal)
        then deny req safety_latched m'
        else acquire_normal sch req now budget id m')
]
