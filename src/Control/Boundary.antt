-- ===== src/Control/Boundary.antt =====
-- slot.go and lane.go: what the other operations are built from. The atomic operations on one slot,
-- the epoch allocator, notifications and audit records, and the end of a lease.
use nervud.Base.{
  ℕ, ◌+◌, ◌-◌, ◌%◌, ◌^◌, String, Bool, true, false, Option, none, some, List, [], ◌∷◌, ◌++◌, ◌==◌,
  if◌then◌else◌, length,
}
use nervud.Base.Int.{ℤ, ltb_ℤ, ◌-ℤ◌}
use nervud.Gate.Defs.{bump_epoch_if_normal}
use nervud.Control.Policy.{Cause, safety_revoked, deadman_expired}
use nervud.Control.Types.{
  Lease, Slot, Module, Request, Event, ended, recorded, denied, Action, revoked, expired,
  deadman_lapsed,
}
use nervud.Control.Slots.{find_slot, with_slot}

abbrev pub word : ℕ
word = 2 ^ 64

-- The lease that a slot holds, where there is a slot.
unfoldable pub current : String → Module → Option Lease
current r m = elim (find_slot r m.slots) [ some s ↦ s.cur | none ↦ none ]

-- `slot.cur.CompareAndSwap(l, nil)` on one slot.
abbrev pub holds_addr : Lease → Slot → Bool
holds_addr l s = elim (s.cur) [ some c ↦ c.addr == l.addr | none ↦ false ]

abbrev pub clear : Slot → Slot
clear s = record s { cur = none }

abbrev pub store : Lease → Slot → Slot
store l s = record s { cur = some l }

unfoldable pub cas_clear : String → Lease → Module → Module × Bool
cas_clear r l m = elim (find_slot r m.slots) [
  | some s ↦ (if holds_addr l s then (with_slot r clear m, true) else (m, false))
  | none ↦ (m, false)
]

-- `slot.cur.CompareAndSwap(l, &next)`.
unfoldable pub cas_store : String → Lease → Lease → Module → Module × Bool
cas_store r l next m = elim (find_slot r m.slots) [
  | some s ↦ (if holds_addr l s then (with_slot r (store next) m, true) else (m, false))
  | none ↦ (m, false)
]

-- The freshness of a slot is an atomic maximum.
abbrev pub freshen : ℤ → Slot → Slot
freshen v s = if ltb_ℤ s.fresh v then record s { fresh = v } else s

unfoldable pub mark_fresh : String → ℤ → Module → Module
mark_fresh r now m = with_slot r (freshen (now -ℤ m.base)) m

unfoldable pub record_event : Event → Module → Module
record_event e m = record m { log = m.log ++ e ∷ [] }

unfoldable pub notify_lease_ended : Lease → Module → Module
unfolding record_event
notify_lease_ended l m = if m.observed then record_event (ended l) m else m

unfoldable pub record_lease : Action → Lease → Option Cause → Module → Module
unfolding record_event
record_lease action l cause m = record_event (recorded action l cause) m

unfoldable pub record_denied : Request → Cause → Module → Module
unfolding record_event
record_denied req cause m = record_event (denied req cause) m

-- The notification and the audit record of one ended lease.
unfoldable pub end_lease : Action → Option Cause → Lease → Module → Module
unfolding notify_lease_ended record_lease
end_lease action cause l m = record_lease action l cause (notify_lease_ended l m)

unfoldable pub end_leases : Action → Option Cause → List Lease → Module → Module
end_leases action cause [] m = m
end_leases action cause (l ∷ ls) m = end_leases action cause ls (end_lease action cause l m)

-- `advanceEpochLocked`: the epoch that was allocated, and whether the gate allowed it.
unfoldable pub advance_epoch : Module → Module × ℕ × Bool
advance_epoch m = let (w, e, ok) = bump_epoch_if_normal m.gate in (record m { gate = w }, e, ok)

unfoldable pub drop_locked : String → Lease → Action → Option Cause → Module → Module
unfolding cas_clear advance_epoch
drop_locked r l action cause m =
    let (m', taken) = cas_clear r l m in
    if taken then end_lease action cause l (advance_epoch m').0 else m'

-- `actionFor` of lane.go.
unfoldable pub action_for : Cause → Action
action_for deadman_expired = deadman_lapsed
action_for _ = expired

-- The leases that wait in the slots' pending positions, in the order of the slots.
unfoldable pub pending_leases : List Slot → List Lease
pending_leases [] = []
pending_leases (s ∷ ss) = elim (s.revoked) [
  | some l ↦ l ∷ pending_leases ss
  | none ↦ pending_leases ss
]

unfoldable pub clear_pending : List Slot → List Slot
clear_pending [] = []
clear_pending (s ∷ ss) = record s { revoked = none } ∷ clear_pending ss

-- `drainRevoked`: every pending position is emptied, its lease notified and recorded, and counted
-- off `revPending`. Each record of the log stands for one round of the loop.
unfoldable pub drain_revoked : Module → Module
drain_revoked m =
    let ls = pending_leases m.slots in
    end_leases revoked (some safety_revoked) ls (record m {
      slots = clear_pending m.slots;
      rev_pending = (m.rev_pending + (word - length ls % word)) % word;
    })

abbrev pub drain_if_pending : Module → Module
drain_if_pending m = if m.rev_pending == 0 then m else drain_revoked m
