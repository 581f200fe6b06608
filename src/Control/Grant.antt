-- ===== src/Control/Grant.antt =====
-- slot.go: the ledger under `Acquire`, nothing running beside it.
use nervud.Base.{
  ℕ, suc, String, ◌≡◌, refl, sym, subst, ◌⊎◌, inl, inr, Bool, true, false, not, ◌||◌, none, some,
  [], ◌∷◌, arith, ◌==◌, Option-cases, Bool-cases, total-append,
}
use nervud.Base.Int.{ℤ, ◌-ℤ◌}
use nervud.Gate.Defs.{state_of, epoch_of, state_normal}
use nervud.Control.Policy.{safety_latched, stale_epoch}
use nervud.Control.Types.{Lease, Slot, Module, Request, granted, renewed, recorded}
use nervud.Control.Slots.{
  find_slot, on_slot, with_slot, total-on_slot, length-on_slot, All-on_slot, All-find_slot,
  find_slot-on_slot,
}
use nervud.Control.Boundary.{
  holds_addr, clear, store, freshen, mark_fresh, cas_clear, cas_store, record_lease,
}
use nervud.Control.Acquire.{confirm, publish, renewal, renew_locked}
use nervud.Control.Issue.{published_slot}
use nervud.Control.Tally.{
  grants, ends, held, pending, Apart, Tally, SameTally-Tally, record_denied-Tally, mark_fresh-Tally,
}

-- One lease, stored in an empty slot and recorded as granted.
stored-Tally :
    (r : String) (l : Lease) (m : Module) (s : Slot)
    → find_slot r m.slots ≡ some s
    → held s ≡ 0
    → pending s ≡ 0
    → Tally m
    → Tally (record_lease granted l none (with_slot r (store l) m))
unfolding record_lease
stored-Tally r l m s found h p v =
    let q = total-on_slot pending r (store l) m.slots s found in
    let k = total-on_slot held r (store l) m.slots s found in
    record {
      watched = v.watched;
      apart = All-on_slot Apart r (store l) m.slots s found (omega (arith, p)) v.apart;
      counted = omega (arith, v.counted, q);
      few = omega (arith, v.few, length-on_slot r (store l) m.slots);
      balance = omega (
        arith,
        v.balance,
        h,
        k,
        q,
        total-append grants m.log (recorded granted l none ∷ []),
        total-append ends m.log (recorded granted l none ∷ []),
      );
    }

pub record_granted-Tally :
    (l : Lease) (now : ℤ) (m : Module) (s : Slot)
    → find_slot l.resource m.slots ≡ some s
    → held s ≡ 0
    → pending s ≡ 0
    → Tally m
    → Tally (record_lease granted l none (publish l now m))
unfolding publish mark_fresh
record_granted-Tally l now m s found h p v =
    stored-Tally l.resource l _ (freshen (now -ℤ m.base) s)
      (find_slot-on_slot l.resource (freshen (now -ℤ m.base)) m.slots s (ground arith) found)
      (ground arith) (ground arith)
      (SameTally-Tally
        (record { watched = refl; slots = refl; counted = refl; grants = refl; ends = refl })
        (mark_fresh-Tally l.resource now m v))

cas_store_cases :
    (r : String) (l next : Lease) (m : Module)
    → (cas_store r l next m ≡ (m, false))
      ⊎ ((s : Slot) × (find_slot r m.slots ≡ some s)
          × (holds_addr l s ≡ true)
          × (cas_store r l next m ≡ (with_slot r (store next) m, true)))
unfolding cas_store
cas_store_cases r l next m = elim (Option-cases (find_slot r m.slots)) [
  | inl e ↦ inl (ground arith)
  | inr (s, e) ↦ elim (Bool-cases (holds_addr l s)) [
    | inl h ↦ inr (s, e, h, ground arith)
    | inr h ↦ inl (ground arith)
  ]
]

-- One lease in the place of another, recorded as anything but a grant.
replaced-Tally :
    (r : String) (l next : Lease) (now : ℤ) (m : Module) (s : Slot)
    → find_slot r m.slots ≡ some s
    → holds_addr l s ≡ true
    → Tally m
    → Tally (record_lease renewed next none (mark_fresh r now (with_slot r (store next) m)))
unfolding record_lease
replaced-Tally r l next now m s found holds v =
    let q = total-on_slot pending r (store next) m.slots s found in
    let k = total-on_slot held r (store next) m.slots s found in
    let one_held : held s ≡ 1 = ground arith in
    let put = with_slot r (store next) m in
    let stored : Tally put = record {
      watched = v.watched;
      apart =
          All-on_slot Apart r (store next) m.slots s found
            (omega (arith, one_held, All-find_slot Apart r m.slots s found v.apart)) v.apart;
      counted = omega (arith, v.counted, q);
      few = omega (arith, v.few, length-on_slot r (store next) m.slots);
      balance = omega (arith, v.balance, one_held, k, q);
    } in
    let fresh = mark_fresh r now put in
    SameTally-Tally
      (record {
        watched = refl;
        slots = refl;
        counted = refl;
        grants = omega (arith, total-append grants fresh.log (recorded renewed next none ∷ []));
        ends = omega (arith, total-append ends fresh.log (recorded renewed next none ∷ []));
      })
      (mark_fresh-Tally r now put stored)

moved_addr-Tally : (m : Module) → Tally m → Tally (record m { next_addr = suc m.next_addr })
moved_addr-Tally m v =
    SameTally-Tally
      (record { watched = refl; slots = refl; counted = refl; grants = refl; ends = refl }) v

-- A renewal puts one lease in the place of another.
pub renew_locked-Tally :
    (r : String) (l : Lease) (now : ℤ) (m : Module) → Tally m → Tally (renew_locked r l now m).0
unfolding renew_locked
renew_locked-Tally r l now m v =
    let next = renewal l now m.next_addr in
    let n = record m { next_addr = suc m.next_addr } in
    elim (cas_store_cases r l next n) [
      | inl e ↦ rw (e, renew_locked) (moved_addr-Tally m v)
      | inr (s, found, holds, e) ↦
          rw (e, renew_locked) (replaced-Tally r l next now n s found holds (moved_addr-Tally m v))
    ]

-- A lease that is stored in an empty slot and taken out again.
withdrawn-Tally :
    (r : String) (l : Lease) (m : Module) (s : Slot)
    → find_slot r m.slots ≡ some s
    → held s ≡ 0
    → pending s ≡ 0
    → Tally m
    → Tally (with_slot r clear (with_slot r (store l) m))
withdrawn-Tally r l m s found h p v =
    let stored = find_slot-on_slot r (store l) m.slots s refl found in
    let put = on_slot r (store l) m.slots in
    let q1 = total-on_slot pending r (store l) m.slots s found in
    let k1 = total-on_slot held r (store l) m.slots s found in
    let q2 = total-on_slot pending r clear put (store l s) stored in
    let k2 = total-on_slot held r clear put (store l s) stored in
    record {
      watched = v.watched;
      apart =
          All-on_slot Apart r clear put (store l s) stored (omega (arith, p))
            (All-on_slot Apart r (store l) m.slots s found (omega (arith, p)) v.apart);
      counted = omega (arith, v.counted, q1, q2);
      few = omega (arith, v.few, length-on_slot r clear put, length-on_slot r (store l) m.slots);
      balance = omega (arith, v.balance, h, k1, k2, q1, q2);
    }

cas_clear-publish :
    (l : Lease) (now : ℤ) (m : Module) (s : Slot)
    → find_slot l.resource m.slots ≡ some s
    → cas_clear l.resource l (publish l now m)
      ≡ (with_slot l.resource clear (publish l now m), true)
unfolding cas_clear
cas_clear-publish l now m s found = ground (arith, published_slot l now m s found)

-- An issue that is refused leaves no lease of its own behind.
pub confirm-Tally :
    (req : Request) (l : Lease) (now : ℤ) (seq : ℕ) (m : Module) (s : Slot)
    → l.resource ≡ req.resource
    → find_slot l.resource m.slots ≡ some s
    → held s ≡ 0
    → pending s ≡ 0
    → Tally m
    → Tally (confirm req l seq (publish l now m)).0
unfolding confirm publish mark_fresh
confirm-Tally req l now seq m s e found h p v =
    let fresh = freshen (now -ℤ m.base) in
    let n = record (mark_fresh l.resource now m) { next_addr = suc m.next_addr } in
    let n_v = moved_addr-Tally _ (mark_fresh-Tally l.resource now m v) in
    let cleared =
      withdrawn-Tally l.resource l n (fresh s)
        (find_slot-on_slot l.resource fresh m.slots s (ground arith) found) (ground arith)
        (ground arith) n_v in
    let withdrawn : Tally (cas_clear req.resource l (publish l now m)).0 =
      subst (λ r. Tally (cas_clear r l (publish l now m)).0) e
        (subst (λ (x : Module × Bool). Tally x.0) (sym (cas_clear-publish l now m s found))
          cleared) in
    let w = publish l now m in
    elim (Bool-cases (state_of w.gate == state_normal)) [
      | inr latched ↦ rw latched (record_denied-Tally req safety_latched _ withdrawn)
      | inl normal ↦
          elim (Bool-cases (not (epoch_of w.gate == l.epoch) || not (w.revoke_seq == seq))) [
            | inl stale ↦ rw (normal, stale) (record_denied-Tally req stale_epoch _ withdrawn)
            | inr held_still ↦ rw (normal, held_still) (record_granted-Tally l now m s found h p v)
          ]
    ]
