-- ===== src/Safety/Interleaved.antt =====
-- ring.go: sequences of the steps of the producers and the consumer.
use nervud.Base.{
  ◌++◌, ℕ, ◌+◌, ◌-◌, ◌%◌, ◌≤◌, ◌<◌, ◌≡◌, refl, ap, ◌⊎◌, Bool, true, false, none, List, [], ◌∷◌,
  ◌==◌, arith, length, Option-cases, Bool-cases, inl, inr, if◌then◌else◌,
}
use nervud.Safety.State.{EventRecord}
use nervud.Safety.Ring.{
  word, size, AuditRing, new_audit_ring, cell_at, Turn, claim, stuck, again, push_turn, pop_turn,
  publish, take, release, Shared, Move, pushes, publishes, pops, releases, move,
}
use nervud.Safety.Fifo.{
  freed_le, cell, freed, upto, IsFifo, claim-IsFifo, publish-IsFifo, take-IsFifo, release-IsFifo,
  freed_held, freed_idle,
}

unfoldable pub moves : List Move → Shared → Shared
unfolding move
moves [] s = s
moves (m ∷ ms) s = moves ms (move s m)

unfoldable pub start : EventRecord → Shared
unfolding new_audit_ring
start zero_record = record {
  ring = new_audit_ring zero_record;
  pending = λ p. none;
  holds = false;
  claimed = λ p. zero_record;
  popped = [];
}

Turn-cases : (t : Turn) → (t ≡ claim) ⊎ (t ≡ stuck) ⊎ (t ≡ again)
Turn-cases claim = inl refl
Turn-cases stuck = inr (inl refl)
Turn-cases again = inr (inr refl)

push_claims : (r : AuditRing) → push_turn r ≡ claim → (cell_at r.enq_pos r).seq ≡ r.enq_pos
unfolding push_turn
push_claims r e = ground (arith, e)

pop_claims :
    (r : AuditRing) → pop_turn r ≡ claim → (cell_at r.deq_pos r).seq ≡ (r.deq_pos + 1) % word
unfolding pop_turn
pop_claims r e = ground (arith, e)

-- In a full ring the cell at the write cursor is behind it.
full_cell :
    (s : Shared)
    → IsFifo s
    → s.ring.enq_pos ≡ freed s + size
    → ((cell s s.ring.enq_pos).seq < s.ring.enq_pos)
      × (s.ring.enq_pos ≤ (cell s s.ring.enq_pos).seq + size)
full_cell s h full =
    let same : (cell s s.ring.enq_pos).seq ≡ (cell s (freed s)).seq =
      ap (λ i. (s.ring.buf i).seq) (omega (arith, full)) in
    elim (Bool-cases s.holds) [
      | inl b ↦ omega (
        arith,
        same,
        ap (λ k. (cell s k).seq) (freed_held s b),
        h.last b,
        full,
        h.held b,
        freed_held s b,
      )
      | inr b ↦
          let fi = freed_idle s b in
          let at = ap (λ k. (cell s k).seq) fi in
          elim (Option-cases (s.pending s.ring.deq_pos)) [
            | inl e ↦ omega (
              arith,
              same,
              at,
              fi,
              full,
              (h.ready s.ring.deq_pos (omega arith) (omega (arith, full, fi)) e).0,
            )
            | inr (r, e) ↦ omega (arith, same, at, fi, full, (h.waits s.ring.deq_pos r e).2)
          ]
    ]

-- Only a claim changes more than the count of the dropped.
dropped-IsFifo :
    (s : Shared) (n : ℕ) → IsFifo s → IsFifo (record s { ring = record (s.ring) { dropped = n } })
dropped-IsFifo s n h = record {
  order = h.order;
  room = h.room;
  held = h.held;
  out = h.out;
  free = h.free;
  last = h.last;
  ready = h.ready;
  waits = h.waits;
}

chosen :
    (b : Bool) (x y : Shared)
    → (b ≡ true → IsFifo x)
    → (b ≡ false → IsFifo y)
    → IsFifo (if b then x else y)
chosen true x y hx hy = hx refl
chosen false x y hx hy = hy refl

turned :
    (t : Turn) (x y : Shared)
    → (t ≡ claim → IsFifo x)
    → IsFifo y
    → IsFifo (elim t as (λ _. Shared) [ claim ↦ x | stuck ↦ y | again ↦ y ])
turned claim x y hx hy = hx refl
turned stuck x y hx hy = hy
turned again x y hx hy = hy

abbrev taken : Shared → Shared
taken s = record s {
  ring = take s.ring;
  holds = true;
  popped = s.popped ++ (cell_at s.ring.deq_pos s.ring).rec ∷ [];
}

abbrev given_back : Shared → Shared
given_back s = record s {
  ring = release ((s.ring.deq_pos + word - 1) % word) s.ring;
  holds = false;
}

move_enq : (s : Shared) (m : Move) → (move s m).ring.enq_pos ≤ s.ring.enq_pos + 1
unfolding move publish take release
move_enq s (pushes rec) = ground arith
move_enq s (publishes pos) = ground arith
move_enq s pops = ground arith
move_enq s releases = ground arith

move-IsFifo :
    (s : Shared) (m : Move) → s.ring.enq_pos + 1 + size < word → IsFifo s → IsFifo (move s m)
unfolding move
move-IsFifo s (pushes rec) small h = elim (Turn-cases (push_turn s.ring)) [
  | inl e ↦
      let seq = push_claims s.ring e in
      rw (e, move)
        (claim-IsFifo s rec (omega (arith, small))
          (elim (Bool-cases (s.ring.enq_pos == freed s + size)) [
            | inl f ↦ omega (arith, (full_cell s h (ground (arith, f))).0, seq)
            | inr f ↦ ground (arith, f, h.room)
          ])
          h)
  | inr (inl e) ↦ rw (e, move) (dropped-IsFifo s ((s.ring.dropped + 1) % word) h)
  | inr (inr e) ↦ rw (e, move) h
]
move-IsFifo s (publishes pos) small h = elim (Option-cases (s.pending pos)) [
  | inl e ↦ rw (e, move) h
  | inr (rec, e) ↦ rw (e, move) (publish-IsFifo s pos rec e (omega (arith, small)) h)
]
move-IsFifo s pops small h =
    chosen s.holds s
      (elim (pop_turn s.ring) as (λ _. Shared) [ claim ↦ taken s | stuck ↦ s | again ↦ s ]) (λ b. h)
      (λ b.
        turned (pop_turn s.ring) (taken s) s
          (λ e.
            take-IsFifo s b (omega (arith, pop_claims s.ring e, h.order, small))
              (omega (arith, small)) h)
          h)
move-IsFifo s releases small h =
    chosen s.holds (given_back s) s (λ b. release-IsFifo s b (omega (arith, small)) h) (λ b. h)

moves-IsFifo :
    (ms : List Move) (s : Shared)
    → s.ring.enq_pos + length ms + size < word
    → IsFifo s
    → IsFifo (moves ms s)
unfolding moves
moves-IsFifo [] s small h = h
moves-IsFifo (m ∷ ms) s small h =
    moves-IsFifo ms (move s m) (omega (arith, small, move_enq s m))
      (move-IsFifo s m (omega (arith, small)) h)

moves_enq : (ms : List Move) (s : Shared) → (moves ms s).ring.enq_pos ≤ s.ring.enq_pos + length ms
unfolding moves
moves_enq [] s = omega arith
moves_enq (m ∷ ms) s = omega (arith, moves_enq ms (move s m), move_enq s m)

reached_enq :
    (zero_record : EventRecord) (ms : List Move)
    → (moves ms (start zero_record)).ring.enq_pos ≤ length ms
unfolding start new_audit_ring
reached_enq zero_record ms = omega (arith, moves_enq ms (start zero_record))

reached :
    (zero_record : EventRecord) (ms : List Move)
    → length ms + size < word
    → IsFifo (moves ms (start zero_record))
unfolding start new_audit_ring
reached zero_record ms small = moves-IsFifo ms (start zero_record) (omega (arith, small)) (record {
  order = omega arith;
  room = omega arith;
  held = λ e. cc;
  out = refl;
  free = λ p a b. omega (arith, b);
  last = λ e. cc;
  ready = λ p a b e. (omega (arith, b), ground (arith, b));
  waits = λ p r e. cc;
})

-- Under any interleaving of the steps of the producers and of the consumer, of fewer than
-- 2^64 - 256 steps, the consumer has taken the records of the first claimed positions, in the
-- order of the claims, each once; at most 256 positions are claimed and not given back, and the
-- consumer holds at most one that it has taken and not given back.
pub moves-start-IsFifo :
    (zero_record : EventRecord) (ms : List Move)
    → length ms + size < word
    → let s = moves ms (start zero_record) in
      (s.popped ≡ upto s.claimed s.ring.deq_pos)
      × (s.ring.deq_pos ≤ s.ring.enq_pos)
      × (s.ring.enq_pos ≤ freed s + size)
      × (freed s ≤ s.ring.deq_pos)
      × (s.ring.deq_pos ≤ freed s + 1)
unfolding start new_audit_ring
moves-start-IsFifo zero_record ms small =
    let s = moves ms (start zero_record) in
    let h = reached zero_record ms small in
    (h.out, h.order, h.room, (freed_le s h).0, (freed_le s h).1)

-- In any state that is reached, a push takes the next position for its record, or the ring is full
-- and the push is counted as dropped, the record never being lost unseen. The ring is full exactly
-- when 256 positions are claimed and not given back.
pub push_settles :
    (zero_record : EventRecord) (ms : List Move) (rec : EventRecord)
    → length ms + size + 1 < word
    → let s = moves ms (start zero_record) in
      let t = move s (pushes rec) in
      (s.ring.enq_pos < freed s + size)
        × (t.ring.enq_pos ≡ s.ring.enq_pos + 1)
        × (t.claimed s.ring.enq_pos ≡ rec)
        × (t.ring.dropped ≡ s.ring.dropped)
      ⊎ (s.ring.enq_pos ≡ freed s + size)
        × (t.ring.enq_pos ≡ s.ring.enq_pos)
        × (t.ring.dropped ≡ (s.ring.dropped + 1) % word)
unfolding move push_turn
push_settles zero_record ms rec small =
    let s = moves ms (start zero_record) in
    let h = reached zero_record ms (omega (arith, small)) in
    let bound = reached_enq zero_record ms in
    elim (Bool-cases (s.ring.enq_pos == freed s + size)) [
      | inl e ↦
          let full : s.ring.enq_pos ≡ freed s + size = ground (arith, e) in
          let behind = full_cell s h full in
          inr (full, ground (arith, behind, bound, small), ground (arith, behind, bound, small))
      | inr e ↦
          let space : s.ring.enq_pos < freed s + size = ground (arith, e, h.room) in
          let seq = h.free s.ring.enq_pos (omega arith) space in
          inl (
            space,
            ground (arith, seq, bound, small),
            ground (arith, seq, bound, small),
            ground (arith, seq, bound, small),
          )
    ]
