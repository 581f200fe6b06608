-- ===== src/Control/Tally.antt =====
-- slot.go and lane.go: the leases that the module has granted, against those that it holds, those
-- that wait to be notified as ended, and those that it has notified.
use nervud.Base.{
  ℕ, suc, ◌+◌, ◌≤◌, String, ◌≡◌, refl, sym, ap, ◌∙◌, subst, ◌≢◌, ◌⊎◌, inl, inr, true, false, Option,
  none, some, [], ◌∷◌, ◌++◌, length, arith, Option-cases, Bool-cases, total, total-append, All,
}
use nervud.Base.Int.{ℤ}
use nervud.Control.Policy.{Cause}
use nervud.Control.Types.{
  Lease, Slot, Module, Request, Event, ended, recorded, denied, Action, granted, max_resource_slots,
}
use nervud.Control.Slots.{
  find_slot, with_slot, total-on_slot, length-on_slot, All-on_slot, All-find_slot, on_slot_absent,
}
use nervud.Control.Boundary.{
  cas_clear, holds_addr, clear, mark_fresh, record_denied, end_lease, advance_epoch, drop_locked,
}

-- A grant in the audit log.
abbrev pub grants : Event → ℕ
grants (recorded granted l c) = 1
grants (recorded _ l c) = 0
grants (ended l) = 0
grants (denied r c) = 0

-- A notification of the observer.
abbrev pub ends : Event → ℕ
ends (ended l) = 1
ends (recorded a l c) = 0
ends (denied r c) = 0

abbrev pub one {ℓ} : {A : Type ℓ} → Option A → ℕ
one none = 0
one (some a) = 1

abbrev pub held : Slot → ℕ
held s = one s.cur

abbrev pub pending : Slot → ℕ
pending s = one s.revoked

-- A slot whose lease is in use has no lease waiting.
abbrev pub Apart : Slot → Type 0
Apart s = held s + pending s ≤ 1

-- Every granted lease is in exactly one place: in use, waiting to be notified, or notified.
pub record Tally (m : Module) : Type 0 where
  pub watched : m.observed ≡ true
  pub apart : All Apart m.slots
  pub counted : m.rev_pending ≡ total pending m.slots
  pub few : length m.slots ≤ max_resource_slots
  pub balance : total grants m.log ≡ total ends m.log + total held m.slots + total pending m.slots

grants_other :
    (a : Action) (c : Option Cause) (l : Lease) → a ≢ granted → grants (recorded a l c) ≡ 0
grants_other a c l n = ground arith

-- The ledger of a module, in numbers.
pub end_lease_counts :
    (a : Action) (c : Option Cause) (l : Lease) (m : Module)
    → m.observed ≡ true
    → a ≢ granted
    → (total grants (end_lease a c l m).log ≡ total grants m.log)
      × (total ends (end_lease a c l m).log ≡ suc (total ends m.log))
      × ((end_lease a c l m).slots ≡ m.slots)
      × ((end_lease a c l m).rev_pending ≡ m.rev_pending)
      × ((end_lease a c l m).observed ≡ true)
unfolding end_lease
end_lease_counts a c l m w n = ground (
  arith,
  total-append grants (m.log ++ ended l ∷ []) (recorded a l c ∷ []),
  total-append grants m.log (ended l ∷ []),
  total-append ends (m.log ++ ended l ∷ []) (recorded a l c ∷ []),
  total-append ends m.log (ended l ∷ []),
  grants_other a c l n,
)

-- What the other operations keep of a module.
pub record SameTally (m m' : Module) : Type 0 where
  pub watched : m'.observed ≡ m.observed
  pub slots : m'.slots ≡ m.slots
  pub counted : m'.rev_pending ≡ m.rev_pending
  pub grants : total grants m'.log ≡ total grants m.log
  pub ends : total ends m'.log ≡ total ends m.log

pub SameTally-Tally : {m m' : Module} → SameTally m m' → Tally m → Tally m'
SameTally-Tally {m} {m'} e v = record {
  watched = e.watched ∙ v.watched;
  apart = subst (All Apart) (sym e.slots) v.apart;
  counted = e.counted ∙ v.counted ∙ ap (total pending) (sym e.slots);
  few = subst (λ ss. length ss ≤ max_resource_slots) (sym e.slots) v.few;
  balance =
      omega
        (arith, e.grants, e.ends, v.balance, ap (total held) e.slots, ap (total pending) e.slots);
}

pub record_denied-Tally :
    (req : Request) (c : Cause) (m : Module) → Tally m → Tally (record_denied req c m)
unfolding record_denied
record_denied-Tally req c m v =
    SameTally-Tally
      (record {
        watched = refl;
        slots = refl;
        counted = refl;
        grants = omega (arith, total-append grants m.log (denied req c ∷ []));
        ends = omega (arith, total-append ends m.log (denied req c ∷ []));
      })
      v

pub advance_epoch-Tally : (m : Module) → Tally m → Tally (advance_epoch m).0
unfolding advance_epoch
advance_epoch-Tally m v =
    SameTally-Tally
      (record { watched = refl; slots = refl; counted = refl; grants = refl; ends = refl }) v

-- A change of one slot that counts the same.
with_slot-Tally :
    (r : String) (f : Slot → Slot) (m : Module)
    → ((s : Slot) → (held (f s) ≡ held s) × (pending (f s) ≡ pending s))
    → Tally m
    → Tally (with_slot r f m)
with_slot-Tally r f m same v = elim (Option-cases (find_slot r m.slots)) [
  | inl absent ↦
      SameTally-Tally
        (record {
          watched = refl;
          slots = on_slot_absent r f m.slots absent;
          counted = refl;
          grants = refl;
          ends = refl;
        })
        v
  | inr (s, found) ↦ record {
    watched = v.watched;
    apart =
        All-on_slot Apart r f m.slots s found
          (omega (arith, same s, All-find_slot Apart r m.slots s found v.apart)) v.apart;
    counted = omega (arith, v.counted, total-on_slot pending r f m.slots s found, same s);
    few = omega (arith, v.few, length-on_slot r f m.slots);
    balance = omega (
      arith,
      v.balance,
      same s,
      total-on_slot pending r f m.slots s found,
      total-on_slot held r f m.slots s found,
    );
  }
]

pub mark_fresh-Tally : (r : String) (now : ℤ) (m : Module) → Tally m → Tally (mark_fresh r now m)
unfolding mark_fresh
mark_fresh-Tally r now m v = with_slot-Tally r _ m (λ s. ground arith) v

-- A lease that leaves its slot by the hand of this operation is notified once.
pub taken-Tally :
    (r : String) (a : Action) (c : Option Cause) (l : Lease) (m m' : Module) (s : Slot)
    → find_slot r m.slots ≡ some s
    → holds_addr l s ≡ true
    → a ≢ granted
    → SameTally (with_slot r clear m) m'
    → Tally m
    → Tally (end_lease a c l m')
taken-Tally r a c l m m' s found holds n e v =
    let k = end_lease_counts a c l m' (e.watched ∙ v.watched) n in
    let slots = k.2 ∙ e.slots in
    let one_held : held s ≡ 1 = ground arith in
    record {
      watched = k.4;
      apart = subst (All Apart) (sym slots) (
          All-on_slot Apart r clear m.slots s found
            (omega (arith, All-find_slot Apart r m.slots s found v.apart)) v.apart);
      counted = omega (
        arith,
        k.3,
        e.counted,
        v.counted,
        ap (total pending) slots,
        total-on_slot pending r clear m.slots s found,
      );
      few = omega (arith, v.few, ap length slots, length-on_slot r clear m.slots);
      balance = omega (
        arith,
        k.0,
        k.1,
        e.grants,
        e.ends,
        v.balance,
        one_held,
        ap (total pending) slots,
        ap (total held) slots,
        total-on_slot pending r clear m.slots s found,
        total-on_slot held r clear m.slots s found,
      );
    }

pub cas_clear_cases :
    (r : String) (l : Lease) (m : Module)
    → (cas_clear r l m ≡ (m, false))
      ⊎ ((s : Slot) × (find_slot r m.slots ≡ some s)
          × (holds_addr l s ≡ true)
          × (cas_clear r l m ≡ (with_slot r clear m, true)))
unfolding cas_clear
cas_clear_cases r l m = elim (Option-cases (find_slot r m.slots)) [
  | inl e ↦ inl (ground arith)
  | inr (s, e) ↦ elim (Bool-cases (holds_addr l s)) [
    | inl h ↦ inr (s, e, h, ground arith)
    | inr h ↦ inl (ground arith)
  ]
]

pub drop_locked-Tally :
    (r : String) (l : Lease) (a : Action) (c : Option Cause) (m : Module)
    → a ≢ granted
    → Tally m
    → Tally (drop_locked r l a c m)
unfolding drop_locked advance_epoch
drop_locked-Tally r l a c m n v = elim (cas_clear_cases r l m) [
  | inl e ↦ rw (e, drop_locked) v
  | inr (s, found, holds, e) ↦
      rw (e, drop_locked)
        (taken-Tally r a c l m _ s found holds n
          (record { watched = refl; slots = refl; counted = refl; grants = refl; ends = refl }) v)
]
