-- ===== src/Gate/Moves.antt =====
-- gate.go: histories of method calls on one gate.
use nervud.Base.{
  ℕ, suc, ◌+◌, ◌≤◌, ◌<◌, ◌≡◌, refl, ◌≢◌, false, List, [], ◌∷◌, arith, length, All, ◌⊎◌,
}
use nervud.Gate.Defs.{
  state_normal, state_safety_latched, state_oem_recovery, state_rearm_required, epoch_mod, state_of,
  epoch_of, inc_epoch, new, pack, trip, bump_epoch, bump_epoch_if_normal, begin_recovery,
  require_rearm, rearm,
}
use nervud.Gate.Word.{
  state_of-pack, epoch_of-pack, epoch_of_lt, inc_epoch_bounds, state_of_lt, epoch_of-pack_next,
  epoch_of-pack_self,
}

-- A call of a method by any goroutine.
pub data Call : Type 0 where
  trips bumps bumps_if_normal begins_recovery requires_rearm rearms : Call

-- The word after a call.
abbrev pub step : ℕ → Call → ℕ
step w trips = (trip w).0
step w bumps = bump_epoch w
step w bumps_if_normal = (bump_epoch_if_normal w).0
step w begins_recovery = (begin_recovery w).0
step w requires_rearm = (require_rearm w).0
step w rearms = (rearm w).0

unfoldable pub run : ℕ → List Call → ℕ
run w [] = w
run w (c ∷ cs) = run (step w c) cs

-- A state that some method can produce, and an epoch that is not the invalid 0.
pub record IsRunning (w : ℕ) : Type 0 where
  pub state_low : 0 < state_of w
  pub state_high : state_of w ≤ state_rearm_required
  pub epoch_nonzero : 0 < epoch_of w

pub pack-IsRunning : (s e : ℕ) → 0 < s → s ≤ 4 → 0 < e → e < epoch_mod → IsRunning (pack s e)
pack-IsRunning s e p q r t = omega (arith, state_of-pack s e (omega arith), epoch_of-pack s e)

pub pack_next-IsRunning : (s e : ℕ) → 0 < s → s ≤ 4 → IsRunning (pack s (inc_epoch e))
pack_next-IsRunning s e p q =
    pack-IsRunning s (inc_epoch e) p q (inc_epoch_bounds e).0 (inc_epoch_bounds e).1

step-IsRunning : (w : ℕ) (c : Call) → IsRunning w → IsRunning (step w c)
unfolding trip bump_epoch bump_epoch_if_normal begin_recovery require_rearm rearm
step-IsRunning w trips v = ground (arith, pack_next-IsRunning 2 (epoch_of w))
step-IsRunning w bumps v = pack_next-IsRunning _ (epoch_of w) v.state_low v.state_high
step-IsRunning w bumps_if_normal v = ground (arith, pack_next-IsRunning (state_of w) (epoch_of w))
step-IsRunning w begins_recovery v = ground (arith, pack-IsRunning 3 (epoch_of w), epoch_of_lt w)
step-IsRunning w requires_rearm v = ground (arith, pack-IsRunning 4 (epoch_of w), epoch_of_lt w)
step-IsRunning w rearms v = ground (arith, pack_next-IsRunning 1 (epoch_of w))

run_from-IsRunning : (w : ℕ) (cs : List Call) → IsRunning w → IsRunning (run w cs)
unfolding run
run_from-IsRunning w [] v = v
run_from-IsRunning w (c ∷ cs) v = run_from-IsRunning (step w c) cs (step-IsRunning w c v)

new-IsRunning : IsRunning new
unfolding new
new-IsRunning = pack-IsRunning 1 1 (omega arith) (omega arith) (omega arith) (omega arith)

-- After any history of calls on a new gate the state is one of NORMAL, SAFETY_LATCHED,
-- OEM_RECOVERY and REARM_REQUIRED, and the epoch is not 0.
pub run-new-IsRunning : (cs : List Call) → IsRunning (run new cs)
run-new-IsRunning cs = run_from-IsRunning new cs new-IsRunning

step_closed :
    (w : ℕ) (c : Call) → c ≢ rearms → state_of w ≢ state_normal → state_of (step w c) ≢ state_normal
unfolding trip bump_epoch bump_epoch_if_normal begin_recovery require_rearm rearm
step_closed w trips n h = ground (arith, state_of-pack 2 (inc_epoch (epoch_of w)))
step_closed w bumps n h =
    ground (arith, state_of-pack (state_of w) (inc_epoch (epoch_of w)), state_of_lt w)
step_closed w bumps_if_normal n h = ground arith
step_closed w begins_recovery n h = ground (arith, state_of-pack 3 (epoch_of w))
step_closed w requires_rearm n h = ground (arith, state_of-pack 4 (epoch_of w))
step_closed w rearms n h = absurd (n refl)

-- A gate that is not NORMAL does not come back to NORMAL in any history without a re-arm.
pub run_closed :
    (w : ℕ) (cs : List Call)
    → state_of w ≢ state_normal
    → All (λ c. c ≢ rearms) cs
    → state_of (run w cs) ≢ state_normal
unfolding run
run_closed w [] h a = h
run_closed w (c ∷ cs) h a = run_closed (step w c) cs (step_closed w c a.0 h) a.1

-- Latched, or in the recovery that follows it.
abbrev pub IsHeld : ℕ → Type 0
IsHeld w = (state_of w ≡ state_safety_latched) ⊎ (state_of w ≡ state_oem_recovery)

step-IsHeld : (w : ℕ) (c : Call) → c ≢ requires_rearm → IsHeld w → IsHeld (step w c)
unfolding trip bump_epoch bump_epoch_if_normal begin_recovery require_rearm rearm
step-IsHeld w trips n h = ground (arith, state_of-pack 2 (inc_epoch (epoch_of w)))
step-IsHeld w bumps n h =
    ground (arith, state_of-pack (state_of w) (inc_epoch (epoch_of w)), state_of_lt w)
step-IsHeld w bumps_if_normal n h = ground arith
step-IsHeld w begins_recovery n h = ground (arith, state_of-pack 3 (epoch_of w))
step-IsHeld w requires_rearm n h = absurd (n refl)
step-IsHeld w rearms n h = ground arith

-- A latched gate stays latched, or in OEM recovery, in any history that does not require a
-- re-arm first, whatever re-arms it has.
pub run-IsHeld :
    (w : ℕ) (cs : List Call) → IsHeld w → All (λ c. c ≢ requires_rearm) cs → IsHeld (run w cs)
unfolding run
run-IsHeld w [] h a = h
run-IsHeld w (c ∷ cs) h a = run-IsHeld (step w c) cs (step-IsHeld w c a.0 h) a.1

step_epoch :
    (w : ℕ) (c : Call)
    → suc (epoch_of w) < epoch_mod
    → (epoch_of w ≤ epoch_of (step w c)) × (epoch_of (step w c) ≤ suc (epoch_of w))
unfolding trip bump_epoch bump_epoch_if_normal begin_recovery require_rearm rearm
step_epoch w trips h = ground (arith, epoch_of-pack_next 2 w h)
step_epoch w bumps h = ground (arith, epoch_of-pack_next (state_of w) w h)
step_epoch w bumps_if_normal h = ground (arith, epoch_of-pack_next (state_of w) w h)
step_epoch w begins_recovery h = ground (arith, epoch_of-pack_self 3 w)
step_epoch w requires_rearm h = ground (arith, epoch_of-pack_self 4 w)
step_epoch w rearms h = ground (arith, epoch_of-pack_next 1 w h)

-- Until the 56-bit counter is used up, the epoch never falls, and a history of n calls raises it
-- by at most n.
pub run_epoch :
    (w : ℕ) (cs : List Call)
    → epoch_of w + length cs < epoch_mod
    → (epoch_of w ≤ epoch_of (run w cs)) × (epoch_of (run w cs) ≤ epoch_of w + length cs)
unfolding run
run_epoch w [] h = omega arith
run_epoch w (c ∷ cs) h = omega (
  arith,
  step_epoch w c (omega arith),
  run_epoch (step w c) cs (omega (arith, step_epoch w c (omega arith))),
)

trip_raises :
    (w : ℕ)
    → state_of w ≢ state_safety_latched
    → suc (epoch_of w) < epoch_mod
    → epoch_of (trip w).0 ≡ suc (epoch_of w)
unfolding trip
trip_raises w n h = ground (arith, epoch_of-pack_next 2 w h)

-- A trip of a gate that is not latched sets SAFETY_LATCHED at once, and no later history reaches
-- an epoch that was given out before it, until the 56-bit counter is used up.
pub trip_supersedes :
    (w : ℕ) (cs : List Call)
    → state_of w ≢ state_safety_latched
    → suc (epoch_of w) + length cs < epoch_mod
    → (state_of (trip w).0 ≡ state_safety_latched) × (epoch_of w < epoch_of (run (trip w).0 cs))
unfolding trip
trip_supersedes w cs n h = (
  ground (arith, state_of-pack 2 (inc_epoch (epoch_of w))),
  omega (
    arith,
    trip_raises w n (omega arith),
    run_epoch (trip w).0 cs (omega (arith, trip_raises w n (omega arith))),
  ),
)

-- A trip of a latched gate changes nothing and says so: the epoch does not churn.
pub trip_twice : (w : ℕ) → trip (trip w).0 ≡ ((trip w).0, false)
unfolding trip
trip_twice w = ground (arith, state_of-pack 2 (inc_epoch (epoch_of w)))
