-- ===== src/Control/Lane.antt =====
-- lane.go: one tick of the control lane.
use nervud.Base.{String, Bool, true, false, none, some, List, [], ◌∷◌, if◌then◌else◌}
use nervud.Base.Int.{ℤ}
use nervud.Control.Policy.{Cause, safety_latched, stale_epoch}
use nervud.Control.Types.{Slot, Module}
use nervud.Control.Slots.{find_slot}
use nervud.Control.Boundary.{drop_locked, action_for, drain_if_pending}
use nervud.Control.Lookup.{lease_state}

-- A boundary that belongs to Safety.
unfoldable pub is_safety_cause : Cause → Bool
is_safety_cause safety_latched = true
is_safety_cause stale_epoch = true
is_safety_cause _ = false

-- The round of one slot. The lane's second test, under the lock, is the same as its first one when
-- nothing falls between the two.
unfoldable pub tick_slot : ℤ → String → Module → Module
unfolding is_safety_cause
tick_slot now r m = elim (find_slot r m.slots) [
  | none ↦ m
  | some s ↦ elim (s.cur) [
    | none ↦ m
    | some l ↦ elim (lease_state s l now m) [
      | none ↦ m
      | some cause ↦
          (if is_safety_cause cause then m else drop_locked r l (action_for cause) (some cause) m)
    ]
  ]
]

unfoldable pub tick_slots : ℤ → List Slot → Module → Module
tick_slots now [] m = m
tick_slots now (s ∷ ss) m = tick_slots now ss (tick_slot now s.resource m)

unfoldable pub on_tick : ℤ → Module → Module
unfolding tick_slots
on_tick now m = let m' = drain_if_pending m in tick_slots now m'.slots m'
