-- ===== src/Control/Slots.antt =====
-- module.go and slot.go: the slot directory, and the laws of finding and changing a slot.
use nervud.Base.{
  ℕ, ◌+◌, String, ◌≡◌, refl, subst, Bool-cases, inl, inr, Option, none, some, List, [], ◌∷◌, ◌++◌,
  arith, str_eq, eq_iff, eq_refl, if◌then◌else◌, length, leb, total, All,
}
use nervud.Control.Types.{Slot, Module, max_resource_slots, empty_slot}

unfoldable pub find_slot : String → List Slot → Option Slot
find_slot r [] = none
find_slot r (s ∷ ss) = if str_eq s.resource r then some s else find_slot r ss

-- A change of the slot of a resource, where there is one.
unfoldable pub on_slot : String → (Slot → Slot) → List Slot → List Slot
on_slot r f [] = []
on_slot r f (s ∷ ss) = if str_eq s.resource r then f s ∷ ss else s ∷ on_slot r f ss

abbrev pub with_slot : String → (Slot → Slot) → Module → Module
with_slot r f m = record m { slots = on_slot r f m.slots }

-- `slotLocked`: the slot that is there, or a new one while the directory has room.
unfoldable pub slot_locked : String → Module → Option Module
slot_locked r m = elim (find_slot r m.slots) [
  | some s ↦ some m
  | none ↦
      if leb max_resource_slots (length m.slots)
      then none
      else some (record m { slots = m.slots ++ empty_slot r ∷ [] })
]

-- Changing one slot changes the sum by what that slot counts for.
pub total-on_slot :
    (w : Slot → ℕ) (r : String) (f : Slot → Slot) (ss : List Slot) (s : Slot)
    → find_slot r ss ≡ some s
    → total w (on_slot r f ss) + w s ≡ total w ss + w (f s)
unfolding find_slot on_slot
total-on_slot w r f [] s h = cc
total-on_slot w r f (t ∷ ss) s h = ground (arith, total-on_slot w r f ss s)

-- A slot that has been changed is found changed.
pub find_slot-on_slot :
    (r : String) (f : Slot → Slot) (ss : List Slot) (s : Slot)
    → (f s).resource ≡ s.resource
    → find_slot r ss ≡ some s
    → find_slot r (on_slot r f ss) ≡ some (f s)
unfolding find_slot on_slot
find_slot-on_slot r f [] s k h = cc
find_slot-on_slot r f (t ∷ ss) s k h =
    ground (arith, eq_iff t.resource r, eq_iff (f t).resource r, find_slot-on_slot r f ss s)

pub find_slot-append_new :
    (r : String) (ss : List Slot)
    → find_slot r ss ≡ none
    → find_slot r (ss ++ empty_slot r ∷ []) ≡ some (empty_slot r)
unfolding find_slot
find_slot-append_new r [] h = ground (arith, eq_refl r)
find_slot-append_new r (t ∷ ss) h = ground (arith, find_slot-append_new r ss)

-- A slot is found under its own resource.
pub find_slot-resource :
    (r : String) (ss : List Slot) (s : Slot) → find_slot r ss ≡ some s → s.resource ≡ r
unfolding find_slot
find_slot-resource r [] s h = cc
find_slot-resource r (t ∷ ss) s h = ground (arith, eq_iff t.resource r, find_slot-resource r ss s)

pub length-on_slot :
    (r : String) (f : Slot → Slot) (ss : List Slot) → length (on_slot r f ss) ≡ length ss
unfolding on_slot
length-on_slot r f [] = refl
length-on_slot r f (s ∷ ss) = ground (arith, length-on_slot r f ss)

-- What holds of all slots holds after a change of one that keeps it.
pub All-on_slot :
    (P : Slot → Type 0) (r : String) (f : Slot → Slot) (ss : List Slot) (s : Slot)
    → find_slot r ss ≡ some s
    → P (f s)
    → All P ss
    → All P (on_slot r f ss)
unfolding find_slot on_slot
All-on_slot P r f [] s h p a = tt
All-on_slot P r f (t ∷ ss) s h p a = elim (Bool-cases (str_eq t.resource r)) [
  | inl hit ↦ rw hit (subst (λ x. P (f x)) (ground arith) p, a.1)
  | inr miss ↦ rw miss (a.0, All-on_slot P r f ss s (ground arith) p a.1)
]

pub All-find_slot :
    (P : Slot → Type 0) (r : String) (ss : List Slot) (s : Slot)
    → find_slot r ss ≡ some s
    → All P ss
    → P s
unfolding find_slot
All-find_slot P r [] s h a = absurd (ground arith)
All-find_slot P r (t ∷ ss) s h a = elim (Bool-cases (str_eq t.resource r)) [
  | inl hit ↦ subst P (ground arith) a.0
  | inr miss ↦ All-find_slot P r ss s (ground arith) a.1
]

-- Changing the slot of a resource that has none changes nothing.
pub on_slot_absent :
    (r : String) (f : Slot → Slot) (ss : List Slot) → find_slot r ss ≡ none → on_slot r f ss ≡ ss
unfolding find_slot on_slot
on_slot_absent r f [] h = refl
on_slot_absent r f (t ∷ ss) h = ground (arith, on_slot_absent r f ss)
