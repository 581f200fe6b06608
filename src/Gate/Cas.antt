-- ===== src/Gate/Cas.antt =====
-- gate.go: the compare-and-swap loops, over what the other goroutines do to the word meanwhile.
use nervud.Base.{
  ℕ, ◌≡◌, ◌≢◌, ◌++◌, Bool, true, false, List, [], ◌∷◌, Option, none, some, ◌==◌, ◌||◌, arith,
  if◌then◌else◌,
}
use nervud.Gate.Defs.{
  state_normal, state_safety_latched, state_oem_recovery, state_rearm_required, state_of, epoch_of,
  inc_epoch, pack, trip, bump_epoch_if_normal, cas1, require_rearm,
}

-- What one round of a loop decides on the word that it loaded: return, or try to replace it.
pub data Round {ℓ} (A : Type ℓ) : Type ℓ where
  give : A → Round A
  swap : ℕ → A → Round A

-- What a method does when no other goroutine interferes.
abbrev pub alone {ℓ} : {A : Type ℓ} → (ℕ → Round A) → ℕ → ℕ × A
alone body w = elim (body w) [ give a ↦ (w, a) | swap new a ↦ (new, a) ]

-- The word at a round's load, and the word at its compare-and-swap.
abbrev pub Seen : Type 0
Seen = ℕ × ℕ

-- The loop over the rounds that it is given: the word before its one atomic step, the word after
-- it, and the result. `none` is a loop that has not ended yet.
unfoldable pub loop {ℓ} : {A : Type ℓ} → (ℕ → Round A) → List Seen → Option (ℕ × ℕ × A)
loop body [] = none
loop body ((old, now) ∷ rest) = elim (body old) [
  | give a ↦ some (old, old, a)
  | swap new a ↦ elim (old == now) [ true ↦ some (now, new, a) | false ↦ loop body rest ]
]

abbrev pub trip_round : ℕ → Round Bool
trip_round old =
    if state_of old == state_safety_latched
    then give false
    else swap (pack state_safety_latched (inc_epoch (epoch_of old))) true

abbrev pub bump_if_normal_round : ℕ → Round (ℕ × Bool)
bump_if_normal_round old =
    if state_of old == state_normal
    then swap (pack (state_of old) (inc_epoch (epoch_of old))) (inc_epoch (epoch_of old), true)
    else give (epoch_of old, false)

abbrev pub cas1_round : ℕ → ℕ → Bool → ℕ → Round Bool
cas1_round from to bump old =
    if state_of old == from
    then swap (pack to (if bump then inc_epoch (epoch_of old) else epoch_of old)) true
    else give false

abbrev pub require_rearm_round : ℕ → Round Bool
require_rearm_round old =
    if state_of old == state_safety_latched || state_of old == state_oem_recovery
    then swap (pack state_rearm_required (epoch_of old)) true
    else give false

-- A loop that ends has done its body's work in one atomic step on the word that stood there.
loop-atomic {ℓ} :
    {A : Type ℓ} (body : ℕ → Round A) (seen : List Seen) {before after : ℕ} {a : A}
    → loop body seen ≡ some (before, after, a)
    → alone body before ≡ (after, a)
unfolding loop
loop-atomic body [] h = cc
loop-atomic body ((old, now) ∷ rest) {before} {after} {a} h =
    ground (arith, loop-atomic body rest {before = before} {after = after} {a = a})

-- A loop of `Trip` that ends, over any interference, is one call of `trip` on the word that stood
-- there at that moment.
pub trip-atomic :
    (seen : List Seen) {before after : ℕ} {b : Bool}
    → loop trip_round seen ≡ some (before, after, b)
    → trip before ≡ (after, b)
unfolding trip
trip-atomic seen h = ground (arith, loop-atomic trip_round seen h)

-- A loop of `BumpEpochIfNormal` that ends, over any interference, is one call of it on the word that
-- stood there at that moment: the test of the state and the increment are one step.
pub bump_epoch_if_normal-atomic :
    (seen : List Seen) {before after e : ℕ} {b : Bool}
    → loop bump_if_normal_round seen ≡ some (before, after, (e, b))
    → bump_epoch_if_normal before ≡ (after, e, b)
unfolding bump_epoch_if_normal
bump_epoch_if_normal-atomic seen h = ground (arith, loop-atomic bump_if_normal_round seen h)

-- A loop of `RequireRearm` that ends, over any interference, is one call of `require_rearm` on the
-- word that stood there at that moment.
pub require_rearm-atomic :
    (seen : List Seen) {before after : ℕ} {b : Bool}
    → loop require_rearm_round seen ≡ some (before, after, b)
    → require_rearm before ≡ (after, b)
unfolding require_rearm
require_rearm-atomic seen h = ground (arith, loop-atomic require_rearm_round seen h)

-- A loop of `cas1` that ends, over any interference, is one call of `cas1` on the word that stood
-- there at that moment.
pub cas1-atomic :
    (from to : ℕ) (bump : Bool) (seen : List Seen) {before after : ℕ} {b : Bool}
    → loop (cas1_round from to bump) seen ≡ some (before, after, b)
    → cas1 from to bump before ≡ (after, b)
unfolding cas1
cas1-atomic from to bump seen h = ground (arith, loop-atomic (cas1_round from to bump) seen h)

-- A loop ends at the latest in the first round that no other goroutine's write falls into.
pub loop-quiet {ℓ} :
    {A : Type ℓ} (body : ℕ → Round A) (first : List Seen) (quiet : ℕ) (later : List Seen)
    → loop body (first ++ (quiet, quiet) ∷ later) ≢ none
unfolding loop
loop-quiet body [] quiet later = ground (arith)
loop-quiet body ((old, now) ∷ first) quiet later = ground (arith, loop-quiet body first quiet later)
