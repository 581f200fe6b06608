-- ===== src/Control/Issued.antt =====
-- slot.go: the ledger under the whole of `Acquire`, nothing running beside it.
use nervud.Base.{
  ℕ, String, ◌≡◌, refl, ap, ◌∙◌, ◌≢◌, inl, inr, true, not, ◌&&◌, ◌||◌, Option, none, some, List, [],
  ◌∷◌, arith, ◌==◌, Option-cases, Bool-cases,
}
use nervud.Base.Int.{ℤ}
use nervud.Control.Policy.{
  Cause, safety_latched, safety_revoked, resource_revoked, held_by_human, held_by_ai, same_class,
  can_preempt, is_human,
}
use nervud.Control.Types.{Lease, Slot, Module, Request, Action, revoked, granted, preempted}
use nervud.Control.Slots.{find_slot, on_slot, with_slot, find_slot-on_slot}
use nervud.Control.Boundary.{
  clear, cas_clear, end_lease, advance_epoch, action_for, drop_locked, drain_if_pending,
  drain_revoked, clear_pending, pending_leases,
}
use nervud.Control.Supervised.{run_acts}
use nervud.Control.Lookup.{lease_state}
use nervud.Control.Acquire.{
  quiet, lease_for, has_pending, is_odd, issue_at, issue_locked, preempt, acquire_held,
}
use nervud.Control.Tally.{
  held, Tally, record_denied-Tally, advance_epoch-Tally, drop_locked-Tally, taken-Tally,
  cas_clear_cases, end_lease_counts,
}
use nervud.Control.Ledger.{drain_if_pending-Tally, end_leases_counts}
use nervud.Control.Grant.{confirm-Tally, renew_locked-Tally}

-- The slot of a resource is there and holds no lease.
abbrev FreeAt : String → List Slot → Type 0
FreeAt r ss = (s : Slot) × (find_slot r ss ≡ some s) × (held s ≡ 0)

issue_at-Tally :
    (req : Request) (now : ℤ) (b : ℤ × ℤ) (id e : ℕ) (m : Module)
    → FreeAt req.resource m.slots
    → Tally m
    → Tally (issue_at quiet req now b id e m).0
unfolding issue_at run_acts
issue_at-Tally req now b id e m (s, found, h) v =
    elim (Bool-cases (is_odd m.revoke_seq || has_pending req.resource m)) [
      | inl busy ↦ rw busy (record_denied-Tally req safety_latched m v)
      | inr idle ↦ rw idle (
          confirm-Tally req (lease_for req m.next_addr id now b e) now m.revoke_seq m s refl found h
            (ground arith) v)
    ]

find_slot-clear_pending :
    (r : String) (ss : List Slot) (s : Slot)
    → find_slot r ss ≡ some s
    → find_slot r (clear_pending ss) ≡ some (record s { revoked = none })
unfolding find_slot clear_pending
find_slot-clear_pending r [] s h = cc
find_slot-clear_pending r (t ∷ ss) s h = ground (arith, find_slot-clear_pending r ss s)

drain_if_pending-FreeAt :
    (r : String) (m : Module)
    → m.observed ≡ true
    → FreeAt r m.slots
    → FreeAt r (drain_if_pending m).slots
unfolding drain_revoked
drain_if_pending-FreeAt r m w (s, found, h) = elim (Bool-cases (m.rev_pending == 0)) [
  | inl e ↦ rw e (s, found, h)
  | inr e ↦ rw e (
    record s { revoked = none },
    ap (find_slot r)
          (end_leases_counts revoked (some safety_revoked) (pending_leases m.slots) _ w (λ x. cc)).2
        ∙ find_slot-clear_pending r m.slots s found,
    h,
  )
]

pub issue_locked-Tally :
    (req : Request) (now : ℤ) (b : ℤ × ℤ) (id : ℕ) (m : Module)
    → FreeAt req.resource m.slots
    → Tally m
    → Tally (issue_locked quiet req now b id m).0
unfolding issue_locked advance_epoch run_acts
issue_locked-Tally req now b id m f v =
    let m1 = (advance_epoch m).0 in
    let v1 = advance_epoch-Tally m v in
    elim (Bool-cases (not (advance_epoch m).2)) [
      | inl refused ↦ rw refused (record_denied-Tally req safety_latched m1 v1)
      | inr allowed ↦ rw allowed (
          issue_at-Tally req now b id (advance_epoch m).1 (drain_if_pending m1)
            (drain_if_pending-FreeAt req.resource m1 v.watched f) (drain_if_pending-Tally m1 v1))
    ]

-- The exchange that takes a slot's own lease out succeeds.
cas_clear_own :
    (r : String) (l : Lease) (m : Module) (s : Slot)
    → find_slot r m.slots ≡ some s
    → s.cur ≡ some l
    → cas_clear r l m ≡ (with_slot r clear m, true)
unfolding cas_clear
cas_clear_own r l m s found c = ground arith

cleared-FreeAt :
    (r : String) (a : Action) (c : Option Cause) (l : Lease) (m m' : Module) (s : Slot)
    → find_slot r m.slots ≡ some s
    → m'.slots ≡ on_slot r clear m.slots
    → m'.observed ≡ true
    → a ≢ granted
    → FreeAt r (end_lease a c l m').slots
cleared-FreeAt r a c l m m' s found e w n = (
  clear s,
  ap (find_slot r) ((end_lease_counts a c l m' w n).2 ∙ e)
      ∙ find_slot-on_slot r clear m.slots s refl found,
  refl,
)

drop_locked-FreeAt :
    (r : String) (a : Action) (c : Option Cause) (l : Lease) (m : Module) (s : Slot)
    → find_slot r m.slots ≡ some s
    → s.cur ≡ some l
    → m.observed ≡ true
    → a ≢ granted
    → FreeAt r (drop_locked r l a c m).slots
unfolding drop_locked advance_epoch
drop_locked-FreeAt r a c l m s found e w n =
    rw (cas_clear_own r l m s found e, drop_locked) (cleared-FreeAt r a c l m _ s found refl w n)

preempt-FreeAt :
    (r : String) (l : Lease) (m : Module) (s : Slot)
    → find_slot r m.slots ≡ some s
    → s.cur ≡ some l
    → m.observed ≡ true
    → FreeAt r (preempt r l m).slots
unfolding preempt
preempt-FreeAt r l m s found e w =
    rw (cas_clear_own r l m s found e, preempt)
      (cleared-FreeAt r preempted none l m _ s found refl w (λ x. cc))

preempt-Tally : (r : String) (l : Lease) (m : Module) → Tally m → Tally (preempt r l m)
unfolding preempt
preempt-Tally r l m v = elim (cas_clear_cases r l m) [
  | inl e ↦ rw (e, preempt) v
  | inr (s, found, holds, e) ↦
      rw (e, preempt)
        (taken-Tally r preempted none l m _ s found holds (λ x. cc)
          (record { watched = refl; slots = refl; counted = refl; grants = refl; ends = refl }) v)
]

pub action_for-NotGranted : (c : Cause) → action_for c ≢ granted
unfolding action_for
action_for-NotGranted c h = ground arith

pub acquire_held-Tally :
    (req : Request) (now : ℤ) (b : ℤ × ℤ) (id : ℕ) (s : Slot) (old : Lease) (m : Module)
    → find_slot req.resource m.slots ≡ some s
    → s.cur ≡ some old
    → Tally m
    → Tally (acquire_held quiet req now b id s old m).0
unfolding acquire_held
acquire_held-Tally req now b id s old m found e v =
    let r = req.resource in
    let dropped_then : (a : Action) (c : Option Cause)
        → a ≢ granted
        → Tally (issue_locked quiet req now b id (drop_locked r old a c m)).0 =
      λ a c n.
        issue_locked-Tally req now b id _ (drop_locked-FreeAt r a c old m s found e v.watched n)
          (drop_locked-Tally r old a c m n v) in
    elim (Bool-cases (not (old.generation == req.generation))) [
      | inl moved ↦ rw moved (dropped_then revoked (some resource_revoked) (λ x. cc))
      | inr same ↦ elim (Option-cases (lease_state s old now m)) [
        | inr (invalid, bad) ↦
            rw (same, bad)
              (dropped_then (action_for invalid) (some invalid) (action_for-NotGranted invalid))
        | inl fine ↦ elim (Bool-cases (old.conn == req.conn && same_class old.class req.class)) [
          | inl own ↦ rw (same, fine, own) (renew_locked-Tally r old now m v)
          | inr foreign ↦ elim (Bool-cases (can_preempt req.class old.class)) [
            | inl over ↦
                rw (same, fine, foreign, over)
                  (issue_locked-Tally req now b id _ (preempt-FreeAt r old m s found e v.watched)
                    (preempt-Tally r old m v))
            | inr under ↦ elim (Bool-cases (is_human old.class)) [
              | inl human ↦
                  rw (same, fine, foreign, under, human) (record_denied-Tally req held_by_human m v)
              | inr ai ↦
                  rw (same, fine, foreign, under, ai) (record_denied-Tally req held_by_ai m v)
            ]
          ]
        ]
      ]
    ]
