-- ===== src/Control/Whole.antt =====
-- slot.go, module.go, lane.go: the ledger under every method that takes the lock, and under any
-- sequence of calls.
use nervud.Base.{
  ℕ, String, ◌≡◌, refl, ap, subst, inl, inr, false, not, Option, none, some, List, [], ◌∷◌, ◌++◌,
  length, length-append, arith, ◌==◌, Option-cases, Bool-cases, total-append, All-append, str_eq,
  leb, ◌||◌,
}
use nervud.Base.Int.{ℤ}
use nervud.Gate.Defs.{state_of, state_normal}
use nervud.Control.Policy.{
  safety_latched, resource_revoked, resource_capacity, connection_closed, package_revoked,
  shutting_down, Result, Result-cases,
}
use nervud.Control.Types.{
  Lease, Slot, Module, Request, revoked, released, max_resource_slots, empty_slot,
}
use nervud.Control.Slots.{find_slot, slot_locked}
use nervud.Control.Boundary.{action_for, drain_if_pending, mark_fresh}
use nervud.Control.Lookup.{lookup, find_lease, lease_state}
use nervud.Control.Acquire.{
  quiet, issue_locked, acquire_held, acquire_slot, acquire_normal, acquire, resolve_request,
  renew_locked,
}
use nervud.Control.Revoke.{
  renew, refresh, release, still_held, revoke_conn, revoke_resource, revoke_by_package, stop,
}
use nervud.Control.Lane.{tick_slot, tick_slots, on_tick, is_safety_cause}
use nervud.Control.Tally.{
  held, pending, one, Apart, Tally, SameTally-Tally, record_denied-Tally, mark_fresh-Tally,
  drop_locked-Tally,
}
use nervud.Control.Ledger.{drain_if_pending-Tally, drain_revoked-Tally, drop_matching_locked-Tally}
use nervud.Control.Grant.{renew_locked-Tally}
use nervud.Control.Issued.{issue_locked-Tally, acquire_held-Tally, action_for-NotGranted}

slot_locked-Tally : (r : String) (m m' : Module) → slot_locked r m ≡ some m' → Tally m → Tally m'
unfolding slot_locked
slot_locked-Tally r m m' e v = elim (Option-cases (find_slot r m.slots)) [
  | inr (s, found) ↦ subst Tally (ground arith) v
  | inl absent ↦ elim (Bool-cases (leb max_resource_slots (length m.slots))) [
    | inl full ↦ absurd (ground arith)
    | inr room ↦ subst Tally (ground arith) (grown room)
  ]
]
  where
    grown :
        leb max_resource_slots (length m.slots) ≡ false
        → Tally (record m { slots = m.slots ++ empty_slot r ∷ [] })
    grown room = record {
      watched = v.watched;
      apart = All-append Apart m.slots (empty_slot r ∷ []) v.apart (omega arith, tt);
      counted = omega (arith, v.counted, total-append pending m.slots (empty_slot r ∷ []));
      few = ground (arith, length-append m.slots (empty_slot r ∷ []));
      balance = omega (
        arith,
        v.balance,
        total-append pending m.slots (empty_slot r ∷ []),
        total-append held m.slots (empty_slot r ∷ []),
      );
    }

acquire_slot-Tally :
    (req : Request) (now : ℤ) (b : ℤ × ℤ) (id : ℕ) (s : Slot) (m : Module)
    → find_slot req.resource m.slots ≡ some s
    → Tally m
    → Tally (acquire_slot quiet req now b id s m).0
unfolding acquire_slot
acquire_slot-Tally req now b id s m found v = held_or_not s.cur refl
  where
    held_or_not :
        (c : Option Lease)
        → s.cur ≡ c
        → Tally
            (elim c as (λ _. Module × Result Lease) [
              | none ↦ issue_locked quiet req now b id m
              | some old ↦ acquire_held quiet req now b id s old m
            ]).0
    held_or_not none e = issue_locked-Tally req now b id m (s, found, ap one e) v
    held_or_not (some old) e = acquire_held-Tally req now b id s old m found e v

acquire_normal-Tally :
    (req : Request) (now : ℤ) (b : ℤ × ℤ) (id : ℕ) (m : Module)
    → Tally m
    → Tally (acquire_normal quiet req now b id m).0
unfolding acquire_normal
acquire_normal-Tally req now b id m v = elim (Option-cases (slot_locked req.resource m)) [
  | inl e ↦ rw (e, acquire_normal) (record_denied-Tally req resource_capacity m v)
  | inr (m', e) ↦ elim (Option-cases (find_slot req.resource m'.slots)) [
    | inl absent ↦
        rw (e, absent, acquire_normal)
          (record_denied-Tally req resource_capacity m' (slot_locked-Tally req.resource m m' e v))
    | inr (s, found) ↦
        rw (e, found, acquire_normal)
          (acquire_slot-Tally req now b id s m' found (slot_locked-Tally req.resource m m' e v))
  ]
]

pub acquire-Tally :
    (req : Request) (now : ℤ) (id : ℕ) (m : Module) → Tally m → Tally (acquire quiet req now id m).0
unfolding acquire
acquire-Tally req now id m v = elim (Result-cases (resolve_request m req)) [
  | inl (c, e) ↦ rw (e, acquire) (record_denied-Tally req c m v)
  | inr (b, e) ↦
      let d = drain_if_pending m in
      let vd = drain_if_pending-Tally m v in
      elim (Bool-cases (d.stopped)) [
        | inl gone ↦ rw (e, gone, acquire) (record_denied-Tally req shutting_down d vd)
        | inr here ↦ elim (Bool-cases (not (state_of d.gate == state_normal))) [
          | inl latched ↦
              rw (e, here, latched, acquire) (record_denied-Tally req safety_latched d vd)
          | inr normal ↦ rw (e, here, normal, acquire) (acquire_normal-Tally req now b id d vd)
        ]
      ]
]

pub renew-Tally : (id conn : ℕ) (now : ℤ) (m : Module) → Tally m → Tally (renew id conn now m).0
unfolding renew
renew-Tally id conn now m v = elim (Result-cases (lookup id conn now m)) [
  | inl (c, e) ↦ rw (e, renew) v
  | inr ((s, l), e) ↦ elim (Result-cases (renew_locked s.resource l now m).1) [
    | inl (c, f) ↦ rw (e, f, renew) (renew_locked-Tally s.resource l now m v)
    | inr (n, f) ↦ rw (e, f, renew) (renew_locked-Tally s.resource l now m v)
  ]
]

pub refresh-Tally : (id conn : ℕ) (now : ℤ) (m : Module) → Tally m → Tally (refresh id conn now m).0
unfolding refresh
refresh-Tally id conn now m v = elim (Result-cases (lookup id conn now m)) [
  | inl (c, e) ↦ rw (e, refresh) v
  | inr ((s, l), e) ↦ elim (Bool-cases (still_held l (mark_fresh s.resource now m))) [
    | inl f ↦ rw (e, f, refresh) (mark_fresh-Tally s.resource now m v)
    | inr f ↦ rw (e, f, refresh) (mark_fresh-Tally s.resource now m v)
  ]
]

pub release-Tally : (id conn : ℕ) (m : Module) → Tally m → Tally (release id conn m).0
unfolding release
release-Tally id conn m v = elim (Option-cases (find_lease id conn m.slots)) [
  | inl e ↦ rw (e, release) v
  | inr ((s, l), e) ↦ rw (e, release) (drop_locked-Tally s.resource l released none m (λ x. cc) v)
]

pub revoke_conn-Tally : (conn : ℕ) (m : Module) → Tally m → Tally (revoke_conn conn m)
unfolding revoke_conn
revoke_conn-Tally conn m v = elim (Bool-cases (conn == 0)) [
  | inl e ↦ rw e v
  | inr e ↦ rw e (drop_matching_locked-Tally (λ l. l.conn == conn) (some connection_closed) m v)
]

pub revoke_by_package-Tally :
    (pkg : String) (m : Module) → Tally m → Tally (revoke_by_package pkg m)
unfolding revoke_by_package
revoke_by_package-Tally pkg m v = elim (Bool-cases (str_eq pkg "")) [
  | inl e ↦ rw e v
  | inr e ↦ rw e (drop_matching_locked-Tally (λ l. str_eq l.owner pkg) (some package_revoked) m v)
]

pub revoke_resource-Tally :
    (r : String) (g : ℕ) (m : Module) → Tally m → Tally (revoke_resource r g m)
unfolding revoke_resource
revoke_resource-Tally r g m v = elim (Bool-cases (str_eq r "" || g == 0)) [
  | inl e ↦ rw e v
  | inr e ↦ elim (Option-cases (find_slot r m.slots)) [
    | inl absent ↦ rw (e, absent) v
    | inr (s, found) ↦ elim (Option-cases (s.cur)) [
      | inl empty ↦ rw (e, found, empty) v
      | inr (l, c) ↦ elim (Bool-cases (l.generation == g)) [
        | inl same ↦
            rw (e, found, c, same)
              (drop_locked-Tally r l revoked (some resource_revoked) m (λ x. cc) v)
        | inr other ↦ rw (e, found, c, other) v
      ]
    ]
  ]
]

pub stop-Tally : (m : Module) → Tally m → Tally (stop m)
unfolding stop
stop-Tally m v = drop_matching_locked-Tally _ (some shutting_down) _ (
    drain_revoked-Tally _ (
      SameTally-Tally
        (record { watched = refl; slots = refl; counted = refl; grants = refl; ends = refl }) v))

tick_slot-Tally : (now : ℤ) (r : String) (m : Module) → Tally m → Tally (tick_slot now r m)
unfolding tick_slot
tick_slot-Tally now r m v = elim (Option-cases (find_slot r m.slots)) [
  | inl absent ↦ rw (absent, tick_slot) v
  | inr (s, found) ↦ elim (Option-cases (s.cur)) [
    | inl empty ↦ rw (found, empty, tick_slot) v
    | inr (l, c) ↦ elim (Option-cases (lease_state s l now m)) [
      | inl fine ↦ rw (found, c, fine, tick_slot) v
      | inr (cause, bad) ↦ elim (Bool-cases (is_safety_cause cause)) [
        | inl safety ↦ rw (found, c, bad, safety, tick_slot) v
        | inr own ↦
            rw (found, c, bad, own, tick_slot)
              (drop_locked-Tally r l (action_for cause) (some cause) m (action_for-NotGranted cause)
                v)
      ]
    ]
  ]
]

tick_slots-Tally : (now : ℤ) (ss : List Slot) (m : Module) → Tally m → Tally (tick_slots now ss m)
unfolding tick_slots
tick_slots-Tally now [] m v = v
tick_slots-Tally now (s ∷ ss) m v = tick_slots-Tally now ss _ (tick_slot-Tally now s.resource m v)

pub on_tick-Tally : (now : ℤ) (m : Module) → Tally m → Tally (on_tick now m)
unfolding on_tick
on_tick-Tally now m v =
    tick_slots-Tally now (drain_if_pending m).slots (drain_if_pending m)
      (drain_if_pending-Tally m v)
