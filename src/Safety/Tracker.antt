-- ===== src/Safety/Tracker.antt =====
-- stopprogress.go: the tracker of one stop.
use nervud.Base.{
  ◌≤◌, ◌<◌, ◌≡◌, refl, ◌⊎◌, Bool, true, false, not, ◌&&◌, List, [], ◌∷◌, arith, if◌then◌else◌, ltb,
}
use nervud.Safety.Phase.{
  StopPhase, requested, output_disabled, rank, is_terminal_fault, is_confirmed,
}

pub record Tracker : Type 0 where
  pub phase : StopPhase
  pub standstill_supported : Bool
  pub terminal : Bool

unfoldable pub begin : Bool → Tracker
begin supported = record { phase = requested; standstill_supported = supported; terminal = false }

-- The tracker after the call, and whether the phase has moved.
unfoldable pub advance : Tracker → StopPhase → Tracker × Bool
advance t to =
    if t.terminal
    then (t, false)
    else if is_terminal_fault to
    then (record t { phase = to; terminal = true }, true)
    else if is_confirmed to && not t.standstill_supported
    then (if ltb (rank t.phase) (rank output_disabled)
        then (record t { phase = output_disabled }, true)
        else (t, false))
    else if ltb (rank t.phase) (rank to)
    then (record t { phase = to }, true)
    else (t, false)

unfoldable pub advance_all : Tracker → List StopPhase → Tracker
advance_all t [] = t
advance_all t (p ∷ ps) = advance_all (advance t p).0 ps

-- The terminal flag stands exactly with a fault phase, a device without evidence of standstill is
-- never said to stand still, and the phase is one of the chain or a fault.
pub record IsTracked (t : Tracker) : Type 0 where
  pub fault_terminal : is_terminal_fault t.phase ≡ t.terminal
  pub capped : t.standstill_supported ≡ false → is_confirmed t.phase ≡ false
  pub ranked : t.terminal ≡ false → 0 < rank t.phase

pub begin-IsTracked : (b : Bool) → IsTracked (begin b)
unfolding begin is_terminal_fault is_confirmed rank
begin-IsTracked b = record { fault_terminal = refl; capped = λ _. refl; ranked = λ _. omega arith }

-- A call keeps a tracker well formed: the terminal flag stands exactly with a fault phase, a device
-- without evidence of standstill is never said to stand still, and a tracker that has not faulted is
-- in a phase of the chain.
pub advance-IsTracked : (t : Tracker) (p : StopPhase) → IsTracked t → IsTracked (advance t p).0
unfolding advance is_terminal_fault is_confirmed rank
advance-IsTracked t p v = ground arith

-- Between two faults of the tracker the phase only moves forward along the chain.
pub rank-advance :
    (t : Tracker) (p : StopPhase)
    → (advance t p).0.terminal ≡ false
    → rank t.phase ≤ rank (advance t p).0.phase
unfolding advance
rank-advance t p h = ground arith

-- A call that says it moved has moved to a later phase of the chain or to a fault, and a call
-- that says it did not has changed nothing.
pub advance_moved :
    (t : Tracker) (p : StopPhase)
    → (((advance t p).1 ≡ false) × ((advance t p).0 ≡ t))
      ⊎ (((advance t p).1 ≡ true)
          × ((is_terminal_fault (advance t p).0.phase ≡ true)
              ⊎ (rank t.phase < rank (advance t p).0.phase)))
unfolding advance
advance_moved t p = ground arith
