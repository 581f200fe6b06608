-- ===== src/Control/Issue.antt =====
-- slot.go: a lease that an issue returns is valid, whatever ran beside the issue.
use nervud.Base.{
  ℕ, ◌+◌, ◌<◌, String, ◌≡◌, refl, sym, ap, ◌∙◌, subst, false, none, some, length, arith, eq_iff,
}
use nervud.Base.Int.{ℤ, pos, ◌-ℤ◌, ◌≤ℤ◌, +ℤ_parts, -ℤ_parts}
use nervud.Gate.Defs.{state_of, epoch_of, state_normal}
use nervud.Control.Policy.{ok}
use nervud.Control.Types.{Lease, Slot, Module, Request, granted}
use nervud.Control.Slots.{find_slot, on_slot, find_slot-on_slot}
use nervud.Control.Boundary.{word, store, freshen, mark_fresh, record_lease}
use nervud.Control.Supervised.{run_acts}
use nervud.Control.Lookup.{
  proof_of, check_slot, check_resource, lease_state, validate_current, slot_holds,
}
use nervud.Control.Checked.{IsLive, IsLive-lease_state}
use nervud.Control.Acquire.{Schedule, lease_for, is_odd, confirm, issue_at, publish}
use nervud.Control.Race.{AllInTurn, seq_after, quiet_pair}

-- A confirmed lease: the gate is NORMAL at the lease's epoch, no revocation has started, and only
-- the audit record was added.
confirm_sound :
    (req : Request) (l : Lease) (seq : ℕ) (m : Module) {m' : Module} {a : Lease}
    → confirm req l seq m ≡ (m', ok a)
    → (a ≡ l)
      × (state_of m.gate ≡ state_normal)
      × (epoch_of m.gate ≡ l.epoch)
      × (m.revoke_seq ≡ seq)
      × (m' ≡ record_lease granted l none m)
unfolding confirm
confirm_sound req l seq m {m'} {a} h = ground arith

-- The slot right after the publication.
pub published_slot :
    (l : Lease) (now : ℤ) (m : Module) (s : Slot)
    → find_slot l.resource m.slots ≡ some s
    → find_slot l.resource (publish l now m).slots ≡ some (store l (freshen (now -ℤ m.base) s))
unfolding publish mark_fresh
published_slot l now m s h =
    find_slot-on_slot l.resource (store l) (on_slot l.resource (freshen (now -ℤ m.base)) m.slots)
      (freshen (now -ℤ m.base) s) refl
      (find_slot-on_slot l.resource (freshen (now -ℤ m.base)) m.slots s (ground arith) h)

publish_keeps :
    (l : Lease) (now : ℤ) (m : Module)
    → ((publish l now m).revoke_seq ≡ m.revoke_seq)
      × ((publish l now m).safety_floor ≡ m.safety_floor)
      × ((publish l now m).base ≡ m.base)
unfolding publish mark_fresh
publish_keeps l now m = (refl, refl, refl)

-- A lease fresh from `lease_for` is live in a slot that was made fresh at the same time.
fresh-IsLive :
    (req : Request) (addr id : ℕ) (now : ℤ) (b : ℤ × ℤ) (e : ℕ) (s : Slot) (m : Module)
    → state_of m.gate ≡ state_normal
    → m.safety_floor < e
    → pos 0 ≤ℤ b.0
    → pos 0 ≤ℤ b.1
    → (now -ℤ m.base) ≤ℤ s.fresh
    → IsLive s (lease_for req addr id now b e) now m
fresh-IsLive req addr id now b e s m n f p q r = record {
  normal = n;
  above_floor = f;
  in_time = omega (arith, +ℤ_parts now b.0);
  fresh = λ _. omega (arith, -ℤ_parts (now -ℤ m.base) s.fresh);
}

-- A live lease in its slot passes `CheckResource`.
live_passes :
    (s : Slot) (l : Lease) (now : ℤ) (m : Module)
    → find_slot l.resource m.slots ≡ some s
    → s.cur ≡ some l
    → IsLive s l now m
    → check_resource l.conn l.resource l.generation now m ≡ ok (proof_of l)
unfolding check_resource check_slot validate_current slot_holds
live_passes s l now m e c v =
    ground (arith, IsLive-lease_state s l now m v, eq_iff l.resource l.resource)

freshen_after : (v : ℤ) (s : Slot) → v ≤ℤ (freshen v s).fresh
freshen_after v s = ground arith

-- What an issue that returns a lease has passed.
issue_at_passed :
    (sch : Schedule) (req : Request) (now : ℤ) (b : ℤ × ℤ) (id e : ℕ) (m : Module) {m' : Module}
    {a : Lease}
    → issue_at sch req now b id e m ≡ (m', ok a)
    → (is_odd m.revoke_seq ≡ false)
      × (confirm req (lease_for req m.next_addr id now b e) m.revoke_seq (
            run_acts sch.after_store
              (publish (lease_for req m.next_addr id now b e) now (run_acts sch.after_seq m)))
          ≡ (m', ok a))
unfolding issue_at
issue_at_passed sch req now b id e m h = ground arith

record_lease_keeps :
    (l : Lease) (m : Module)
    → ((record_lease granted l none m).gate ≡ m.gate)
      × ((record_lease granted l none m).slots ≡ m.slots)
      × ((record_lease granted l none m).safety_floor ≡ m.safety_floor)
      × ((record_lease granted l none m).base ≡ m.base)
unfolding record_lease
record_lease_keeps l m = (refl, refl, refl, refl)

record_lease_check :
    (c : ℕ) (r : String) (g : ℕ) (now : ℤ) (l : Lease) (m : Module)
    → check_resource c r g now (record_lease granted l none m) ≡ check_resource c r g now m
unfolding record_lease check_resource check_slot validate_current lease_state
record_lease_check c r g now l m = refl

-- Whatever methods of the gate, and whatever steps of revocations in the supervisor's own order,
-- fall between the steps of an issue: where it returns a lease, it is the one that was asked for,
-- at the epoch that was allocated, no revocation has taken it out, and `CheckResource` passes it
-- at once. (The epoch lies above the floor of the revocations so far, the budget is not negative,
-- and fewer than 2^64 steps fall in.)
pub issue_at_live :
    (sch : Schedule) (req : Request) (now : ℤ) (b : ℤ × ℤ) (id e : ℕ) (m : Module) (s : Slot)
    {m' : Module} {l : Lease}
    → find_slot req.resource m.slots ≡ some s
    → m.revoke_seq < word
    → AllInTurn sch.after_seq m.revoke_seq
    → AllInTurn sch.after_store (seq_after sch.after_seq m.revoke_seq)
    → length sch.after_seq + length sch.after_store < word
    → m.safety_floor < e
    → pos 0 ≤ℤ b.0
    → pos 0 ≤ℤ b.1
    → issue_at sch req now b id e m ≡ (m', ok l)
    → (l ≡ lease_for req m.next_addr id now b e)
      × (epoch_of m'.gate ≡ e)
      × (check_resource req.conn req.resource req.generation now m' ≡ ok (proof_of l))
issue_at_live sch req now b id e m s {m'} {l} found bound t1 t2 few floor p q h =
    let (even, confirmed) = issue_at_passed sch req now b id e m h in
    let want = lease_for req m.next_addr id now b e in
    let m5 = run_acts sch.after_seq m in
    let m6 = publish want now m5 in
    let m7 = run_acts sch.after_store m6 in
    let (same, normal, epoch, seq, result) = confirm_sound req want m.revoke_seq m7 confirmed in
    let kept = publish_keeps want now m5 in
    let (u1, u2) = quiet_pair sch.after_seq sch.after_store m m6 even bound t1 t2 few kept.0 seq in
    let put = published_slot want now m5 s (ap (find_slot req.resource) u1.slots ∙ found) in
    let slot = store want (freshen (now -ℤ m5.base) s) in
    let k = record_lease_keeps want m7 in
    let base : m7.base ≡ m5.base = u2.base ∙ kept.2 in
    let found7 = ap (find_slot req.resource) u2.slots ∙ put in
    let floor7 : m7.safety_floor ≡ m.safety_floor = u2.floor ∙ kept.1 ∙ u1.floor in
    let live =
      fresh-IsLive req m.next_addr id now b e slot m7 normal (omega (arith, floor7)) p q (
        subst (λ (t : ℤ). (now -ℤ t) ≤ℤ slot.fresh) (sym base)
          (freshen_after (now -ℤ m5.base) s)) in
    (
      same,
      ap (λ (n : Module). epoch_of n.gate) result ∙ ap epoch_of k.0 ∙ epoch,
      ap (check_resource req.conn req.resource req.generation now) result
          ∙ record_lease_check req.conn req.resource req.generation now want m7
          ∙ live_passes slot want now m7 found7 refl live
          ∙ ap (λ (x : Lease). ok (proof_of x)) (sym same),
    )
