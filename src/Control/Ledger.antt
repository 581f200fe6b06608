-- ===== src/Control/Ledger.antt =====
-- slot.go and lane.go: the ledger under `RevokeAll`, `drainRevoked` and the batch revocations.
use nervud.Base.{
  ℕ, ◌+◌, ◌≤◌, String, ◌≡◌, refl, sym, ap, ◌∙◌, subst, ◌≢◌, inl, inr, Bool, true, Option, none,
  some, List, [], ◌∷◌, length, arith, Option-cases, total, All,
}
use nervud.Control.Policy.{Cause, safety_revoked}
use nervud.Control.Types.{Lease, Slot, Module, Action, granted, revoked}
use nervud.Control.Slots.{
  find_slot, on_slot, total-on_slot, length-on_slot, All-on_slot, All-find_slot, on_slot_absent,
}
use nervud.Control.Boundary.{
  end_lease, end_leases, advance_epoch, pending_leases, clear_pending, drain_revoked,
  drain_if_pending,
}
use nervud.Control.Supervised.{Act, takes, act, run_acts, take_slot, taken_at}
use nervud.Control.Revoke.{dropped, clear_matching, drop_matching_locked}
use nervud.Control.Tally.{
  grants, ends, held, pending, Apart, Tally, SameTally, SameTally-Tally, end_lease_counts,
}

pub end_leases_counts :
    (a : Action) (c : Option Cause) (ls : List Lease) (m : Module)
    → m.observed ≡ true
    → a ≢ granted
    → (total grants (end_leases a c ls m).log ≡ total grants m.log)
      × (total ends (end_leases a c ls m).log ≡ length ls + total ends m.log)
      × ((end_leases a c ls m).slots ≡ m.slots)
      × ((end_leases a c ls m).rev_pending ≡ m.rev_pending)
      × ((end_leases a c ls m).observed ≡ true)
unfolding end_leases
end_leases_counts a c [] m w n = (refl, omega arith, refl, refl, w)
end_leases_counts a c (l ∷ ls) m w n =
    let k = end_lease_counts a c l m w n in
    let h = end_leases_counts a c ls (end_lease a c l m) k.4 n in
    (h.0 ∙ k.0, omega (arith, h.1, k.1), h.2 ∙ k.2, h.3 ∙ k.3, h.4)

length-pending_leases : (ss : List Slot) → length (pending_leases ss) ≡ total pending ss
unfolding pending_leases
length-pending_leases [] = refl
length-pending_leases (s ∷ ss) = ground (arith, length-pending_leases ss)

pub clear_pending_counts :
    (ss : List Slot)
    → (total held (clear_pending ss) ≡ total held ss)
      × (total pending (clear_pending ss) ≡ 0)
      × (length (clear_pending ss) ≡ length ss)
unfolding clear_pending
clear_pending_counts [] = (refl, refl, refl)
clear_pending_counts (s ∷ ss) = omega (arith, clear_pending_counts ss)

held-le : (s : Slot) → (held s ≤ 1) × (pending s ≤ 1)
held-le s = ground arith

All-clear_pending : (ss : List Slot) → All Apart (clear_pending ss)
unfolding clear_pending
All-clear_pending [] = tt
All-clear_pending (s ∷ ss) = (omega (arith, held-le s), All-clear_pending ss)

total-pending-le : (ss : List Slot) → total pending ss ≤ length ss
total-pending-le [] = omega arith
total-pending-le (s ∷ ss) = omega (arith, held-le s, total-pending-le ss)

pub drain_revoked-Tally : (m : Module) → Tally m → Tally (drain_revoked m)
unfolding drain_revoked
drain_revoked-Tally m v =
    let ls = pending_leases m.slots in
    let k = end_leases_counts revoked (some safety_revoked) ls _ v.watched (λ e. cc) in
    let c = clear_pending_counts m.slots in
    record {
      watched = k.4;
      apart = subst (All Apart) (sym k.2) (All-clear_pending m.slots);
      counted = omega (
        arith,
        k.3,
        v.counted,
        v.few,
        length-pending_leases m.slots,
        total-pending-le m.slots,
        ap (total pending) k.2,
        c,
      );
      few = omega (arith, v.few, ap length k.2, c);
      balance = omega (
        arith,
        k.0,
        k.1,
        v.balance,
        length-pending_leases m.slots,
        c,
        ap (total pending) k.2,
        ap (total held) k.2,
      );
    }

pub drain_if_pending-Tally : (m : Module) → Tally m → Tally (drain_if_pending m)
drain_if_pending-Tally m v = ground (arith, drain_revoked-Tally m v)

take_slot_counts :
    (e : ℕ) (s : Slot)
    → Apart s
    → (held (take_slot e s) ≡ 0) × (pending (take_slot e s) ≡ held s + pending s)
take_slot_counts e s h = ground arith

taken_at_found :
    (r : String) (ss : List Slot) (s : Slot)
    → find_slot r ss ≡ some s
    → Apart s
    → taken_at r ss ≡ held s
unfolding taken_at
taken_at_found r ss s h a = ground arith

takes-Tally : (r : String) (e : ℕ) (m : Module) → Tally m → Tally (act (takes r e) m)
unfolding act
takes-Tally r e m v = elim (Option-cases (find_slot r m.slots)) [
  | inl absent ↦
      SameTally-Tally
        (record {
          watched = refl;
          slots = on_slot_absent r (take_slot e) m.slots absent;
          counted =
              omega (
                arith,
                taken_at_absent r m.slots absent,
                v.counted,
                v.few,
                total-pending-le m.slots,
              );
          grants = refl;
          ends = refl;
        })
        v
  | inr (s, found) ↦
      let a = All-find_slot Apart r m.slots s found v.apart in
      let k = take_slot_counts e s a in
      let p = total-on_slot pending r (take_slot e) m.slots s found in
      let q = length-on_slot r (take_slot e) m.slots in
      record {
        watched = v.watched;
        apart = All-on_slot Apart r (take_slot e) m.slots s found (omega (arith, k, a)) v.apart;
        counted = omega (
          arith,
          k,
          p,
          q,
          v.counted,
          v.few,
          taken_at_found r m.slots s found a,
          total-pending-le (on_slot r (take_slot e) m.slots),
        );
        few = omega (arith, v.few, q);
        balance =
            omega (arith, k, p, v.balance, total-on_slot held r (take_slot e) m.slots s found);
      }
]
  where
    taken_at_absent : (r : String) (ss : List Slot) → find_slot r ss ≡ none → taken_at r ss ≡ 0
    taken_at_absent r ss h = ground arith

act-Tally : (a : Act) (m : Module) → Tally m → Tally (act a m)
unfolding act
act-Tally (takes r e) m v = takes-Tally r e m v
act-Tally _ m v =
    SameTally-Tally
      (record { watched = refl; slots = refl; counted = refl; grants = refl; ends = refl }) v

pub run_acts-Tally : (as' : List Act) (m : Module) → Tally m → Tally (run_acts as' m)
unfolding run_acts
run_acts-Tally [] m v = v
run_acts-Tally (a ∷ as') m v = run_acts-Tally as' (act a m) (act-Tally a m v)

pub clear_matching_counts :
    (p : Lease → Bool) (ss : List Slot)
    → (total held (clear_matching p ss) + length (dropped p ss) ≡ total held ss)
      × (total pending (clear_matching p ss) ≡ total pending ss)
      × (length (clear_matching p ss) ≡ length ss)
unfolding clear_matching dropped
clear_matching_counts p [] = (refl, refl, refl)
clear_matching_counts p (s ∷ ss) = ground (arith, clear_matching_counts p ss)

All-clear_matching :
    (p : Lease → Bool) (ss : List Slot) → All Apart ss → All Apart (clear_matching p ss)
unfolding clear_matching
All-clear_matching p [] a = tt
All-clear_matching p (s ∷ ss) a = (ground arith, All-clear_matching p ss a.1)

batch-Tally :
    (p : Lease → Bool) (c : Option Cause) (m m' : Module) (ls : List Lease)
    → dropped p m.slots ≡ ls
    → SameTally (record m { slots = clear_matching p m.slots }) m'
    → Tally m
    → Tally (end_leases revoked c ls m')
batch-Tally p c m m' ls d e v =
    let k = end_leases_counts revoked c ls m' (e.watched ∙ v.watched) (λ x. cc) in
    let n = clear_matching_counts p m.slots in
    let slots = k.2 ∙ e.slots in
    record {
      watched = k.4;
      apart = subst (All Apart) (sym slots) (All-clear_matching p m.slots v.apart);
      counted = omega (arith, k.3, e.counted, v.counted, n, ap (total pending) slots);
      few = omega (arith, v.few, n, ap length slots);
      balance = omega (
        arith,
        k.0,
        k.1,
        e.grants,
        e.ends,
        v.balance,
        n,
        ap length d,
        ap (total held) slots,
        ap (total pending) slots,
      );
    }

drop_batch-Tally :
    (p : Lease → Bool) (c : Option Cause) (m : Module) (ls : List Lease)
    → dropped p m.slots ≡ ls
    → Tally m
    → Tally (drop_matching_locked p c m)
unfolding drop_matching_locked advance_epoch end_leases
drop_batch-Tally p c m [] d v =
    rw (d, drop_matching_locked)
      (batch-Tally p c m _ [] d
        (record { watched = refl; slots = refl; counted = refl; grants = refl; ends = refl }) v)
drop_batch-Tally p c m (l ∷ ls) d v =
    rw (d, drop_matching_locked)
      (batch-Tally p c m _ (l ∷ ls) d
        (record { watched = refl; slots = refl; counted = refl; grants = refl; ends = refl }) v)

pub drop_matching_locked-Tally :
    (p : Lease → Bool) (c : Option Cause) (m : Module)
    → Tally m
    → Tally (drop_matching_locked p c m)
drop_matching_locked-Tally p c m v = drop_batch-Tally p c m (dropped p m.slots) refl v
