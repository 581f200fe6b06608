-- ===== src/Gate/Tests.antt =====
-- gate.go: the theorems of the gate at concrete words.
use nervud.Base.{ℕ, suc, ◌<◌, ◌≡◌, refl, ◌≢◌, inl, true, List, [], ◌∷◌, ◌^◌, ◌+◌, length, arith}
use nervud.Gate.Defs.{state_normal, state_safety_latched, pack, state_of, epoch_of, inc_epoch, trip}
use nervud.Gate.Moves.{
  Call, trips, bumps, begins_recovery, requires_rearm, rearms, run, IsHeld, run_closed, run-IsHeld,
  trip_supersedes,
}
use nervud.Gate.Cas.{Seen, loop, trip-atomic}

-- The words (SAFETY_LATCHED, 9) and (NORMAL, 9).
abbrev latched : ℕ
latched = 144115188075855881

abbrev normal : ℕ
normal = 72057594037927945

abbrev no_rearm : List Call
no_rearm = begins_recovery ∷ bumps ∷ requires_rearm ∷ trips ∷ []

abbrev no_require : List Call
no_require = begins_recovery ∷ rearms ∷ bumps ∷ trips ∷ rearms ∷ []

latched_not_normal : state_of latched ≢ state_normal
unfolding state_of
latched_not_normal = omega arith

normal_not_latched : state_of normal ≢ state_safety_latched
unfolding state_of
normal_not_latched = omega arith

latched-IsHeld : IsHeld latched
unfolding state_of
latched-IsHeld = inl refl

run_closed_example : state_of (run latched no_rearm) ≢ state_normal
run_closed_example =
    run_closed latched no_rearm latched_not_normal
      ((λ e. cc), ((λ e. cc), ((λ e. cc), ((λ e. cc), tt))))

run-IsHeld_example : IsHeld (run latched no_require)
run-IsHeld_example =
    run-IsHeld latched no_require latched-IsHeld
      ((λ e. cc), ((λ e. cc), ((λ e. cc), ((λ e. cc), ((λ e. cc), tt)))))

room : epoch_of normal + length no_rearm < 2 ^ 56
unfolding epoch_of
room = omega arith

room_after_trip : suc (epoch_of normal) + length no_rearm < 2 ^ 56
unfolding epoch_of
room_after_trip = omega arith

trip_supersedes_example :
    (state_of (trip normal).0 ≡ state_safety_latched)
    × (epoch_of normal < epoch_of (run (trip normal).0 no_rearm))
trip_supersedes_example = trip_supersedes normal no_rearm normal_not_latched room_after_trip

-- One round that another write falls into, and one that none does.
abbrev seen : List Seen
seen = (normal, normal + 1) ∷ (normal + 1, normal + 1) ∷ []

trip-atomic_example : trip (normal + 1) ≡ ((trip (normal + 1)).0, true)
unfolding loop state_of pack epoch_of inc_epoch trip
trip-atomic_example =
    trip-atomic seen {before = normal + 1} {after = (trip (normal + 1)).0} {b = true} refl

abbrev seen_latched : List Seen
seen_latched = (latched, latched + 1) ∷ (latched + 1, latched + 1) ∷ []
