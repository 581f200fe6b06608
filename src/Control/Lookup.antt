-- ===== src/Control/Lookup.antt =====
-- slot.go: the state of a lease, and the queries that every command passes.
use nervud.Base.{
  ℕ, String, Bool, false, not, ◌&&◌, Option, none, some, List, [], ◌∷◌, ◌==◌, if◌then◌else◌, leb,
  str_eq,
}
use nervud.Base.Int.{ℤ, pos, ltb_ℤ, ◌-ℤ◌}
use nervud.Gate.Defs.{state_of, epoch_of, state_normal}
use nervud.Control.Policy.{
  is_human, Cause, control_not_held, lease_expired, deadman_expired, safety_latched, stale_epoch,
  Result, ok, err,
}
use nervud.Control.Types.{Lease, Slot, Module, LeaseProof}
use nervud.Control.Slots.{find_slot}

-- `none` is a lease that may authorise motion. The order of the tests is the order of the reasons.
unfoldable pub lease_state_at : Slot → Lease → ℕ → ℤ → Module → Option Cause
lease_state_at s l st now m =
    if not (st == state_normal)
    then some safety_latched
    else if leb l.epoch m.safety_floor
    then some stale_epoch
    else if ltb_ℤ l.deadline now
    then some lease_expired
    else if ltb_ℤ (pos 0) l.deadman && ltb_ℤ l.deadman (now -ℤ m.base -ℤ s.fresh)
    then some deadman_expired
    else none

unfoldable pub lease_state : Slot → Lease → ℤ → Module → Option Cause
unfolding lease_state_at
lease_state s l now m = lease_state_at s l (state_of m.gate) now m

-- Whether the slot still holds the lease, by its stable identity.
abbrev pub is_lease : Lease → Lease → Bool
is_lease l c = c.id == l.id && c.conn == l.conn && str_eq c.resource l.resource

unfoldable pub slot_holds : Slot → Lease → Bool
slot_holds s l = elim (s.cur) [ some c ↦ is_lease l c | none ↦ false ]

unfoldable pub validate_current : Slot → Lease → ℤ → Module → Option Cause
validate_current s l now m = elim (lease_state s l now m) [
  | some e ↦ some e
  | none ↦ (if slot_holds s l then none else some control_not_held)
]

abbrev pub held_by : ℕ → ℕ → Slot → Bool
held_by id conn s = elim (s.cur) [ some l ↦ l.id == id && l.conn == conn | none ↦ false ]

-- The first slot that holds the handle for the connection.
unfoldable pub find_lease : ℕ → ℕ → List Slot → Option (Slot × Lease)
find_lease id conn [] = none
find_lease id conn (s ∷ ss) = elim (s.cur) [
  | none ↦ find_lease id conn ss
  | some l ↦ (if l.id == id && l.conn == conn then some (s, l) else find_lease id conn ss)
]

unfoldable pub lookup : ℕ → ℕ → ℤ → Module → Result (Slot × Lease)
lookup id conn now m = elim (find_lease id conn m.slots) [
  | none ↦ err control_not_held
  | some (s, l) ↦ elim (validate_current s l now m) [ some e ↦ err e | none ↦ ok (s, l) ]
]

unfoldable pub check : ℕ → ℕ → ℤ → Module → Result ℕ
check id conn now m = elim (lookup id conn now m) [ err e ↦ err e | ok (s, l) ↦ ok l.epoch ]

abbrev pub proof_of : Lease → LeaseProof
proof_of l = record {
  id = l.id;
  class = l.class;
  resource = l.resource;
  generation = l.generation;
  deadline = l.deadline;
  epoch = l.epoch;
}

unfoldable pub check_lease : ℕ → ℕ → ℤ → Module → Result LeaseProof
check_lease id conn now m = elim (lookup id conn now m) [
  | err e ↦ err e
  | ok (s, l) ↦ ok (proof_of l)
]

abbrev pub owns : ℕ → String → ℕ → Lease → Bool
owns conn r generation l = l.conn == conn && str_eq l.resource r && l.generation == generation

unfoldable pub check_slot : ℕ → String → ℕ → ℤ → Slot → Module → Result LeaseProof
check_slot conn r generation now s m = elim (s.cur) [
  | none ↦ err control_not_held
  | some l ↦
      (if owns conn r generation l
        then elim (validate_current s l now m) [ some e ↦ err e | none ↦ ok (proof_of l) ]
        else err control_not_held)
]

unfoldable pub check_resource : ℕ → String → ℕ → ℤ → Module → Result LeaseProof
unfolding check_slot
check_resource conn r generation now m = elim (find_slot r m.slots) [
  | none ↦ err control_not_held
  | some s ↦ check_slot conn r generation now s m
]

pub data Source : Type 0 where
  from_none from_ai from_human from_safety : Source

pub record Snapshot : Type 0 where
  pub source : Source
  pub state : ℕ
  pub epoch : ℕ
  pub lease : Option Lease

-- `ControlSnapshotFor`, in a round of its loop that no gate change and no revocation falls into:
-- `lease` is `none` where `Held` is false.
unfoldable pub snapshot_slot : Slot → ℤ → Module → Source × Option Lease
snapshot_slot s now m = elim (s.cur) [
  | none ↦ (from_none, none)
  | some l ↦ elim (lease_state s l now m) [
    | some e ↦ (from_none, none)
    | none ↦ (if is_human l.class then from_human else from_ai, some l)
  ]
]

abbrev pub snapshot_of : Module → Source × Option Lease → Snapshot
snapshot_of m p = record {
  source = p.0;
  state = state_of m.gate;
  epoch = epoch_of m.gate;
  lease = p.1;
}

unfoldable pub control_snapshot_for : String → ℤ → Module → Snapshot
unfolding snapshot_slot
control_snapshot_for r now m =
    if not (state_of m.gate == state_normal)
    then snapshot_of m (from_safety, none)
    else elim (find_slot r m.slots) [
      | none ↦ snapshot_of m (from_none, none)
      | some s ↦ snapshot_of m (snapshot_slot s now m)
    ]
