-- ===== src/Safety/Ring.antt =====
-- ring.go: the lock-free audit ring. A push is two steps that other goroutines may come between,
-- the compare-and-swap that claims a position, and the store of the record with the sequence number
-- that publishes it. A failed compare-and-swap changes nothing and is left out.
use nervud.Base.{
  ℕ, ◌+◌, ◌-◌, ◌%◌, ◌^◌, Bool, true, false, not, Option, none, some, List, [], ◌∷◌, ◌++◌, ◌==◌,
  if◌then◌else◌, ltb,
}
use nervud.Safety.State.{EventRecord}

abbrev pub word : ℕ
word = 2 ^ 64

-- `auditRingSize`; the mask is one less.
abbrev pub size : ℕ
size = 256

pub record Cell : Type 0 where
  pub seq : ℕ
  pub rec : EventRecord

pub record AuditRing : Type 0 where
  pub buf : ℕ → Cell
  pub enq_pos : ℕ
  pub deq_pos : ℕ
  pub dropped : ℕ

-- The cells' records are the zero value at first.
unfoldable pub new_audit_ring : EventRecord → AuditRing
new_audit_ring zero_record = record {
  buf = λ i. record { seq = i; rec = zero_record };
  enq_pos = 0;
  deq_pos = 0;
  dropped = 0;
}

abbrev pub cell_at : ℕ → AuditRing → Cell
cell_at pos r = r.buf (pos % size)

abbrev pub put_cell : ℕ → Cell → (ℕ → Cell) → ℕ → Cell
put_cell i c buf j = if j == i then c else buf j

-- `dif < 0`, for the difference of two words taken as an int64.
abbrev pub is_behind : ℕ → ℕ → Bool
is_behind seq pos = not (ltb ((seq + word - pos) % word) (2 ^ 63))

-- What one round of a loop decides on what it loads.
pub data Turn : Type 0 where
  claim stuck again : Turn

unfoldable pub push_turn : AuditRing → Turn
push_turn r =
    let seq = (cell_at r.enq_pos r).seq in
    if seq == r.enq_pos then claim else if is_behind seq r.enq_pos then stuck else again

unfoldable pub pop_turn : AuditRing → Turn
pop_turn r =
    let seq = (cell_at r.deq_pos r).seq in
    let due = (r.deq_pos + 1) % word in
    if seq == due then claim else if is_behind seq due then stuck else again

-- The cell's record and then its sequence number.
unfoldable pub publish : ℕ → EventRecord → AuditRing → AuditRing
publish pos rec r = record r {
  buf = put_cell (pos % size) (record { seq = (pos + 1) % word; rec = rec }) r.buf;
}

-- The read cursor moves on.
unfoldable pub take : AuditRing → AuditRing
take r = record r { deq_pos = (r.deq_pos + 1) % word }

-- The cell at a position goes back to the producers.
unfoldable pub release : ℕ → AuditRing → AuditRing
release pos r = record r {
  buf =
      put_cell (pos % size) (record (cell_at pos r) { seq = (pos + (size - 1) + 1) % word }) r.buf;
}

-- The one consumer's call, when nothing comes between its steps.
unfoldable pub pop : AuditRing → AuditRing × Option EventRecord
unfolding pop_turn take release
pop r = elim (pop_turn r) [
  | claim ↦ (release r.deq_pos (take r), some (cell_at r.deq_pos r).rec)
  | stuck ↦ (r, none)
  | again ↦ (r, none)
]

-- A producer's call, when nothing comes between its steps.
unfoldable pub push : EventRecord → AuditRing → AuditRing × Bool
unfolding push_turn publish
push rec r = elim (push_turn r) [
  | claim ↦ (publish r.enq_pos rec (record r { enq_pos = (r.enq_pos + 1) % word }), true)
  | stuck ↦ (record r { dropped = (r.dropped + 1) % word }, false)
  | again ↦ (r, false)
]

-- The ring among its users: `pending p` is the record of a producer between its two steps at the
-- position `p`, and `holds` tells that the consumer is between its own at the last position that
-- it took. The ghost fields are the record that each position was claimed for, and what the
-- consumer has taken.
pub record Shared : Type 0 where
  pub ring : AuditRing
  pub pending : ℕ → Option EventRecord
  pub holds : Bool
  pub claimed : ℕ → EventRecord
  pub popped : List EventRecord

pub data Move : Type 0 where
  pushes : EventRecord → Move
  publishes : ℕ → Move
  pops releases : Move

abbrev pub entry {ℓ} : {A : Type ℓ} → ℕ → A → (ℕ → A) → ℕ → A
entry i a f j = if j == i then a else f j

unfoldable pub move : Shared → Move → Shared
unfolding push_turn publish pop_turn take release
move s (pushes rec) = elim (push_turn s.ring) [
  | claim ↦ record {
    ring = record (s.ring) { enq_pos = (s.ring.enq_pos + 1) % word };
    pending = entry s.ring.enq_pos (some rec) s.pending;
    holds = s.holds;
    claimed = entry s.ring.enq_pos rec s.claimed;
    popped = s.popped;
  }
  | stuck ↦ record s { ring = record (s.ring) { dropped = (s.ring.dropped + 1) % word } }
  | again ↦ s
]
move s (publishes pos) = elim (s.pending pos) [
  | none ↦ s
  | some rec ↦ record s { ring = publish pos rec s.ring; pending = entry pos none s.pending }
]
move s pops = if s.holds then s else elim (pop_turn s.ring) [
  | claim ↦ record s {
    ring = take s.ring;
    holds = true;
    popped = s.popped ++ (cell_at s.ring.deq_pos s.ring).rec ∷ [];
  }
  | stuck ↦ s
  | again ↦ s
]
move s releases =
    if s.holds
    then record s { ring = release ((s.ring.deq_pos + word - 1) % word) s.ring; holds = false }
    else s
