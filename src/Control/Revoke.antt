-- ===== src/Control/Revoke.antt =====
-- slot.go and module.go: renewing, refreshing and releasing a lease, and the revocations that take
-- the module's lock.
use nervud.Base.{
  ℕ, String, Bool, true, false, ◌||◌, Option, none, some, List, [], ◌∷◌, ◌==◌, if◌then◌else◌,
  str_eq,
}
use nervud.Base.Int.{ℤ}
use nervud.Control.Policy.{
  Cause, control_not_held, connection_closed, resource_revoked, package_revoked, shutting_down,
  Result, ok, err,
}
use nervud.Control.Types.{Lease, Slot, Module, released, revoked}
use nervud.Control.Slots.{find_slot}
use nervud.Control.Boundary.{
  clear, mark_fresh, end_leases, advance_epoch, drop_locked, drain_revoked,
}
use nervud.Control.Lookup.{lookup, find_lease, slot_holds}
use nervud.Control.Acquire.{renew_locked}

unfoldable pub renew : ℕ → ℕ → ℤ → Module → Module × Result ℤ
renew id conn now m = elim (lookup id conn now m) [
  | err e ↦ (m, err e)
  | ok (s, l) ↦
      (let (m', r) = renew_locked s.resource l now m in
        elim r [ err e ↦ (m', err e) | ok next ↦ (m', ok next.deadline) ])
]

unfoldable pub still_held : Lease → Module → Bool
still_held l m = elim (find_slot l.resource m.slots) [ none ↦ false | some s ↦ slot_holds s l ]

-- `none` is success.
unfoldable pub refresh : ℕ → ℕ → ℤ → Module → Module × Option Cause
unfolding still_held
refresh id conn now m = elim (lookup id conn now m) [
  | err e ↦ (m, some e)
  | ok (s, l) ↦
      (let m' = mark_fresh s.resource now m in
        if still_held l m' then (m', none) else (m', some control_not_held))
]

unfoldable pub release : ℕ → ℕ → Module → Module × Option Cause
release id conn m = elim (find_lease id conn m.slots) [
  | none ↦ (m, some control_not_held)
  | some (s, l) ↦ (drop_locked s.resource l released none m, none)
]

-- Whether a slot holds a lease that the test picks.
abbrev pub picked : (Lease → Bool) → Slot → Bool
picked match s = elim (s.cur) [ none ↦ false | some l ↦ match l ]

unfoldable pub dropped : (Lease → Bool) → List Slot → List Lease
dropped match [] = []
dropped match (s ∷ ss) = elim (s.cur) [
  | none ↦ dropped match ss
  | some l ↦ (if match l then l ∷ dropped match ss else dropped match ss)
]

unfoldable pub clear_matching : (Lease → Bool) → List Slot → List Slot
clear_matching match [] = []
clear_matching match (s ∷ ss) = (if picked match s then clear s else s) ∷ clear_matching match ss

-- One epoch for the whole batch.
unfoldable pub drop_matching_locked : (Lease → Bool) → Option Cause → Module → Module
drop_matching_locked match cause m =
    let ls = dropped match m.slots in
    let m' = record m { slots = clear_matching match m.slots } in
    elim ls [ [] ↦ m' | l ∷ rest ↦ end_leases revoked cause (l ∷ rest) (advance_epoch m').0 ]

unfoldable pub revoke_conn : ℕ → Module → Module
revoke_conn conn m =
    if conn == 0 then m else drop_matching_locked (λ l. l.conn == conn) (some connection_closed) m

unfoldable pub revoke_resource : String → ℕ → Module → Module
revoke_resource r generation m =
    if str_eq r "" || generation == 0 then m else elim (find_slot r m.slots) [
      | none ↦ m
      | some s ↦ elim (s.cur) [
        | none ↦ m
        | some l ↦
            (if l.generation == generation
              then drop_locked r l revoked (some resource_revoked) m
              else m)
      ]
    ]

unfoldable pub revoke_by_package : String → Module → Module
revoke_by_package pkg m =
    if str_eq pkg ""
    then m
    else drop_matching_locked (λ l. str_eq l.owner pkg) (some package_revoked) m

-- The lanes have left before `Stop` takes the lock.
unfoldable pub stop : Module → Module
stop m =
    drop_matching_locked (λ l. true) (some shutting_down)
      (drain_revoked (record m { stopped = true }))
