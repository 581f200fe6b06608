-- ===== src/Control/Checked.antt =====
-- slot.go: what a successful query proves.
use nervud.Base.{
  ℕ, String, ◌<◌, ◌≡◌, true, Option-cases, inl, inr, none, some, List, [], ◌∷◌, arith, eq_iff,
}
use nervud.Base.Int.{ℤ, pos, ltb_ℤ, ◌≤ℤ◌, ◌-ℤ◌}
use nervud.Gate.Defs.{state_of, state_normal}
use nervud.Control.Policy.{ok, Result-cases}
use nervud.Control.Types.{Lease, Slot, Module, LeaseProof}
use nervud.Control.Slots.{find_slot}
use nervud.Control.Lookup.{
  lease_state, validate_current, find_lease, lookup, check, proof_of, check_slot, check_resource,
}

-- The lease may authorise motion at this time: the gate is NORMAL, no revocation of all leases
-- reaches its epoch, its deadline has not passed, and where it asks for one its deadman is fresh.
pub record IsLive (s : Slot) (l : Lease) (now : ℤ) (m : Module) : Type 0 where
  pub normal : state_of m.gate ≡ state_normal
  pub above_floor : m.safety_floor < l.epoch
  pub in_time : now ≤ℤ l.deadline
  pub fresh : ltb_ℤ (pos 0) l.deadman ≡ true → (now -ℤ m.base -ℤ s.fresh) ≤ℤ l.deadman

pub lease_state-IsLive :
    (s : Slot) (l : Lease) (now : ℤ) (m : Module) → lease_state s l now m ≡ none → IsLive s l now m
unfolding lease_state
lease_state-IsLive s l now m h = ground arith

pub IsLive-lease_state :
    (s : Slot) (l : Lease) (now : ℤ) (m : Module) → IsLive s l now m → lease_state s l now m ≡ none
unfolding lease_state
IsLive-lease_state s l now m v = ground arith

-- A lease that is found is the one that its slot holds, under the handle and for the connection
-- that were asked for.
find_lease_sound :
    (id conn : ℕ) (ss : List Slot) {s : Slot} {l : Lease}
    → find_lease id conn ss ≡ some (s, l)
    → (s.cur ≡ some l) × (l.id ≡ id) × (l.conn ≡ conn)
unfolding find_lease
find_lease_sound id conn [] h = cc
find_lease_sound id conn (t ∷ ss) {s} {l} h =
    ground (arith, find_lease_sound id conn ss {s = s} {l = l})

lookup_sound :
    (id conn : ℕ) (now : ℤ) (m : Module) {s : Slot} {l : Lease}
    → lookup id conn now m ≡ ok (s, l)
    → (s.cur ≡ some l) × (l.id ≡ id) × (l.conn ≡ conn) × (lease_state s l now m ≡ none)
unfolding lookup validate_current
lookup_sound id conn now m {s} {l} h =
    ground (arith, find_lease_sound id conn m.slots {s = s} {l = l})

-- `Check` lets a command pass only with a live lease that some slot holds under the command's own
-- handle and connection, and returns that lease's epoch.
pub check_sound :
    (id conn : ℕ) (now : ℤ) (m : Module) {e : ℕ}
    → check id conn now m ≡ ok e
    → (s : Slot) × (l : Lease) × (s.cur ≡ some l)
      × (l.id ≡ id)
      × (l.conn ≡ conn)
      × (l.epoch ≡ e)
      × IsLive s l now m
unfolding check
check_sound id conn now m {e} h = elim (Result-cases (lookup id conn now m)) [
  | inl (c, q) ↦ absurd (ground arith)
  | inr ((s, l), q) ↦
      let f = lookup_sound id conn now m q in
      (s, l, f.0, f.1, f.2, ground arith, lease_state-IsLive s l now m f.3)
]

check_slot_sound :
    (conn : ℕ) (r : String) (g : ℕ) (now : ℤ) (s : Slot) (m : Module) {p : LeaseProof}
    → check_slot conn r g now s m ≡ ok p
    → (l : Lease) × (s.cur ≡ some l)
      × (l.conn ≡ conn)
      × (l.resource ≡ r)
      × (l.generation ≡ g)
      × (p ≡ proof_of l)
      × (lease_state s l now m ≡ none)
unfolding check_slot validate_current
check_slot_sound conn r g now s m {p} h = elim (Option-cases s.cur) [
  | inl e ↦ absurd (ground arith)
  | inr (l, e) ↦ (
    l,
    e,
    ground arith,
    ground (arith, eq_iff l.resource r),
    ground arith,
    ground arith,
    ground arith,
  )
]

-- `CheckResource` lets a call pass only with a live lease in the slot of that very resource, of the
-- same connection and of the same generation of the resource, and returns that lease's fields.
pub check_resource_sound :
    (conn : ℕ) (r : String) (g : ℕ) (now : ℤ) (m : Module) {p : LeaseProof}
    → check_resource conn r g now m ≡ ok p
    → (s : Slot) × (l : Lease) × (find_slot r m.slots ≡ some s)
      × (s.cur ≡ some l)
      × (l.conn ≡ conn)
      × (l.resource ≡ r)
      × (l.generation ≡ g)
      × (p ≡ proof_of l)
      × IsLive s l now m
unfolding check_resource
check_resource_sound conn r g now m {p} h = elim (Option-cases (find_slot r m.slots)) [
  | inl e ↦ absurd (ground arith)
  | inr (s, e) ↦
      let (l, c, k, n, q, t, v) = check_slot_sound conn r g now s m {p = p} (ground arith) in
      (s, l, e, c, k, n, q, t, lease_state-IsLive s l now m v)
]

-- No two connections pass `CheckResource` for one resource at one moment: control is exclusive.
pub check_resource_exclusive :
    (c1 c2 : ℕ) (r : String) (g1 g2 : ℕ) (now : ℤ) (m : Module) {p q : LeaseProof}
    → check_resource c1 r g1 now m ≡ ok p
    → check_resource c2 r g2 now m ≡ ok q
    → (c1 ≡ c2) × (p ≡ q)
check_resource_exclusive c1 c2 r g1 g2 now m h k =
    let (s, l, e, c, n, _, _, t, _) = check_resource_sound c1 r g1 now m h in
    let (s', l', e', c', n', _, _, t', _) = check_resource_sound c2 r g2 now m k in
    (ground arith, ground arith)
