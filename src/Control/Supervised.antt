-- ===== src/Control/Supervised.antt =====
-- slot.go: `RevokeAll`, which the Safety supervisor runs without the module's lock, as the sequence
-- of its atomic steps, so that they can fall between the steps of another operation.
use nervud.Base.{ℕ, ◌+◌, ◌%◌, String, none, some, List, [], ◌∷◌, ◌++◌, if◌then◌else◌, ltb, map}
use nervud.Gate.Moves.{Call, step}
use nervud.Control.Types.{Slot, Module}
use nervud.Control.Slots.{on_slot, find_slot}
use nervud.Control.Boundary.{word}

-- One atomic step of a goroutine that does not take the lock: a method of the gate; the start of
-- `RevokeAll`; its raise of the floor to an epoch; its swap of one slot; its end.
pub data Act : Type 0 where
  gates : Call → Act
  opens : Act
  floors : ℕ → Act
  takes : String → ℕ → Act
  closes : Act

-- `markSafetyFloor`.
abbrev pub raise : ℕ → ℕ → ℕ
raise epoch floor = if ltb floor epoch then epoch else floor

-- The lease moves to the pending position; where that is not empty, the lease in it stays.
abbrev pub take_slot : ℕ → Slot → Slot
take_slot epoch s = elim (s.cur) [
  | none ↦ s
  | some l ↦ record s {
    cur = none;
    revoked_epoch = epoch;
    revoked = elim (s.revoked) [ some old ↦ some old | none ↦ some l ];
  }
]

-- What the swap of a slot adds to `revPending`: `Add(1)`, taken back where the position was full.
abbrev pub taken : Slot → ℕ
taken s = elim (s.cur) [ none ↦ 0 | some l ↦ elim (s.revoked) [ some old ↦ 0 | none ↦ 1 ] ]

unfoldable pub taken_at : String → List Slot → ℕ
taken_at r ss = elim (find_slot r ss) [ some s ↦ taken s | none ↦ 0 ]

unfoldable pub act : Act → Module → Module
unfolding taken_at
act (gates c) m = record m { gate = step m.gate c }
act opens m = record m { revoke_seq = (m.revoke_seq + 1) % word }
act (floors e) m = record m { safety_floor = raise e m.safety_floor }
act (takes r e) m = record m {
  slots = on_slot r (take_slot e) m.slots;
  rev_pending = (m.rev_pending + taken_at r m.slots) % word;
}
act closes m = record m { revoke_seq = (m.revoke_seq + 1) % word }

unfoldable pub run_acts : List Act → Module → Module
run_acts [] m = m
run_acts (a ∷ as') m = run_acts as' (act a m)

-- The steps of one whole call of `RevokeAll`.
unfoldable pub revoke_acts : ℕ → List Slot → List Act
revoke_acts epoch ss = opens ∷ floors epoch ∷ (map (λ s. takes s.resource epoch) ss ++ closes ∷ [])

unfoldable pub revoke_all : ℕ → Module → Module
unfolding run_acts revoke_acts
revoke_all epoch m = run_acts (revoke_acts epoch m.slots) m
