-- ===== src/Control/Takeover.antt =====
-- slot.go: who may take a resource from whom.
use nervud.Base.{
  ℕ, String, ◌≡◌, ◌≢◌, refl, ap, ◌∙◌, Bool, true, false, not, inl, inr, Option, none, some, [], ◌∷◌,
  ◌++◌, arith, Bool-cases, ◌==◌, if◌then◌else◌,
}
use nervud.Base.Int.{ℤ}
use nervud.Gate.Defs.{state_of, state_normal}
use nervud.Control.Policy.{
  Cause, held_by_human, held_by_ai, safety_latched, shutting_down, Result, err, Result-cases,
  is_human, can_preempt, Class, human, ai, unspecified, other,
}
use nervud.Control.Types.{Lease, Request, Slot, Module, denied}
use nervud.Control.Slots.{find_slot, slot_locked}
use nervud.Control.Boundary.{record_denied, record_event}
use nervud.Control.Lookup.{lease_state}
use nervud.Control.Acquire.{
  deny, Schedule, resolve_request, issue_locked, acquire_held, acquire_slot, acquire_normal,
  acquire,
}

-- A refusal: one record, and nothing else.
abbrev pub Refused : Request → Module → Module × Result Lease → Type 0
Refused req m x = (c : Cause) × (x ≡ (record m { log = m.log ++ denied req c ∷ [] }, err c))

refusal : (req : Request) (c : Cause) (m : Module) → Refused req m (record_denied req c m, err c)
unfolding record_denied record_event
refusal req c m = (c, refl)

held_Refused :
    (sch : Schedule) (req : Request) (now : ℤ) (b : ℤ × ℤ) (id : ℕ) (s : Slot) (old : Lease)
    (m : Module)
    → lease_state s old now m ≡ none
    → old.generation ≡ req.generation
    → old.conn ≢ req.conn
    → can_preempt req.class old.class ≡ false
    → Refused req m (acquire_held sch req now b id s old m)
unfolding acquire_held
held_Refused sch req now b id s old m live same elsewhere weak =
    let same' : (old.generation == req.generation) ≡ true = ground arith in
    let elsewhere' : (old.conn == req.conn) ≡ false = ground arith in
    elim (Bool-cases (is_human old.class)) [
      | inl h ↦ rw (same', live, elsewhere', weak, h, acquire_held) (refusal req held_by_human m)
      | inr h ↦ rw (same', live, elsewhere', weak, h, acquire_held) (refusal req held_by_ai m)
    ]

-- The slot that is there is the one that `slotLocked` gives.
slot_locked_present :
    (r : String) (m : Module) (s : Slot) → find_slot r m.slots ≡ some s → slot_locked r m ≡ some m
unfolding slot_locked
slot_locked_present r m s found = ground arith

slot_Refused :
    (sch : Schedule) (req : Request) (now : ℤ) (b : ℤ × ℤ) (id : ℕ) (s : Slot) (old : Lease)
    (m : Module)
    → s.cur ≡ some old
    → lease_state s old now m ≡ none
    → old.generation ≡ req.generation
    → old.conn ≢ req.conn
    → can_preempt req.class old.class ≡ false
    → Refused req m (acquire_slot sch req now b id s m)
unfolding acquire_slot
slot_Refused sch req now b id s old m cur live same elsewhere weak =
    let (c, e) = held_Refused sch req now b id s old m live same elsewhere weak in (c, opened ∙ e)
  where
    opened : acquire_slot sch req now b id s m ≡ acquire_held sch req now b id s old m
    opened =
        ap
          (λ (c : Option Lease). elim c as (λ _. Module × Result Lease) [
            | none ↦ issue_locked sch req now b id m
            | some l ↦ acquire_held sch req now b id s l m
          ])
          cur

-- The only class that takes a resource from another is HUMAN, and only from AI.
can_preempt_only : (a b : Class) → (a ≡ human → b ≢ ai) → can_preempt a b ≡ false
unfolding can_preempt
can_preempt_only human ai h = absurd (h refl refl)
can_preempt_only human unspecified h = refl
can_preempt_only human human h = refl
can_preempt_only human (other n) h = refl
can_preempt_only unspecified b h = refl
can_preempt_only ai b h = refl
can_preempt_only (other n) b h = refl

-- A lease that may still authorise motion is not taken from its connection by a request of another
-- connection, unless HUMAN asks for what AI holds: AI never takes from HUMAN, nor a class from
-- itself. `Acquire` refuses, records the refusal, and changes nothing else. (The request is for the
-- same generation of the resource, and no revoked lease waits to be drained.)
pub acquire_no_takeover :
    (sch : Schedule) (req : Request) (now : ℤ) (id : ℕ) (m : Module) (s : Slot) (old : Lease)
    → m.rev_pending ≡ 0
    → find_slot req.resource m.slots ≡ some s
    → s.cur ≡ some old
    → lease_state s old now m ≡ none
    → old.generation ≡ req.generation
    → old.conn ≢ req.conn
    → (req.class ≡ human → old.class ≢ ai)
    → Refused req m (acquire sch req now id m)
unfolding acquire acquire_normal
acquire_no_takeover sch req now id m s old drained found cur live same elsewhere apart =
    let calm : (m.rev_pending == 0) ≡ true = ground arith in
    elim (Result-cases (resolve_request m req)) [
      | inl (c, e) ↦ rw (e, acquire) (refusal req c m)
      | inr (b, e) ↦ rw (e, calm, acquire) (unless_stopped b m.stopped)
    ]
  where
    unless_stopped :
        (b : ℤ × ℤ) (gone : Bool)
        → Refused req m (
            if gone
            then deny req shutting_down m
            else if not (state_of m.gate == state_normal)
            then deny req safety_latched m
            else acquire_normal sch req now b id m)
    unless_stopped b true = refusal req shutting_down m
    unless_stopped b false = elim (Bool-cases (not (state_of m.gate == state_normal))) [
      | inl latched ↦ rw latched (refusal req safety_latched m)
      | inr normal ↦
          rw (normal, slot_locked_present req.resource m s found, found, acquire_normal)
            (slot_Refused sch req now b id s old m cur live same elsewhere
              (can_preempt_only req.class old.class apart))
    ]
