-- ===== src/Safety/Phase.antt =====
-- stopprogress.go: the phases of a stop, their order, and the word that publishes a phase together
-- with the epoch of the halt that it belongs to.
use nervud.Base.{
  ℕ, ◌+◌, ◌*◌, ◌/◌, ◌%◌, ◌^◌, ◌<◌, ◌≡◌, refl, ap, ◌∙◌, Bool, true, false, ◌||◌, ◌==◌, arith,
  if◌then◌else◌, leb,
}

-- A uint8; `other n` is a value n that no constant names.
pub data StopPhase : Type 0 where
  unspecified requested sent provider_accepted mcu_acked output_disabled : StopPhase
  standstill_confirmed delivery_fault standstill_timeout : StopPhase
  other : ℕ → StopPhase

unfoldable pub rank : StopPhase → ℕ
rank requested = 1
rank sent = 2
rank provider_accepted = 3
rank mcu_acked = 4
rank output_disabled = 5
rank standstill_confirmed = 6
rank _ = 0

unfoldable pub is_terminal_fault : StopPhase → Bool
is_terminal_fault delivery_fault = true
is_terminal_fault standstill_timeout = true
is_terminal_fault _ = false

-- `p == PhaseStandstillConfirmed`.
unfoldable pub is_confirmed : StopPhase → Bool
is_confirmed standstill_confirmed = true
is_confirmed _ = false

unfoldable pub to_code : StopPhase → ℕ
to_code unspecified = 0
to_code requested = 1
to_code sent = 2
to_code provider_accepted = 3
to_code mcu_acked = 4
to_code output_disabled = 5
to_code standstill_confirmed = 6
to_code delivery_fault = 7
to_code standstill_timeout = 8
to_code (other n) = n

unfoldable pub of_code : ℕ → StopPhase
of_code c =
    if c == 0
    then unspecified
    else if c == 1
    then requested
    else if c == 2
    then sent
    else if c == 3
    then provider_accepted
    else if c == 4
    then mcu_acked
    else if c == 5
    then output_disabled
    else if c == 6
    then standstill_confirmed
    else if c == 7
    then delivery_fault
    else if c == 8
    then standstill_timeout
    else other c

-- `uint64(p)<<56 | epoch&mask`: the operands have no bit in common, so `|` is their sum.
unfoldable pub pack_phase : StopPhase → ℕ → ℕ
unfolding to_code
pack_phase p epoch = to_code p * 2 ^ 56 % 2 ^ 64 + epoch % 2 ^ 56

unfoldable pub phase_of : ℕ → StopPhase
unfolding of_code
phase_of word = of_code (word / 2 ^ 56 % 256)

unfoldable pub phase_epoch_of : ℕ → ℕ
phase_epoch_of word = word % 2 ^ 56

-- module.go: the stop has come to a phase that allows a re-arm.
unfoldable pub rearm_settled : StopPhase → Bool
unfolding rank is_terminal_fault
rearm_settled p = leb (rank output_disabled) (rank p) || is_terminal_fault p

-- A value that a uint8 can hold, spelled by its constant where it has one.
abbrev pub IsByte : StopPhase → Type 0
IsByte (other n) = (8 < n) × (n < 256)
IsByte _ = Unit {0}

of_code-to_code : (p : StopPhase) → IsByte p → of_code (to_code p) ≡ p
unfolding of_code to_code
of_code-to_code (other n) h = ground arith
of_code-to_code unspecified h = refl
of_code-to_code _ h = refl

to_code_lt : (p : StopPhase) → IsByte p → to_code p < 256
unfolding to_code
to_code_lt (other n) h = h.1
to_code_lt unspecified h = omega arith
to_code_lt _ h = omega arith

-- A published word gives back its phase, for every phase that a uint8 holds.
pub phase_of-pack_phase : (p : StopPhase) (e : ℕ) → IsByte p → phase_of (pack_phase p e) ≡ p
unfolding phase_of pack_phase
phase_of-pack_phase p e h =
    ap of_code {x = pack_phase p e / 2 ^ 56 % 256} {y = to_code p} (omega (arith, to_code_lt p h))
    ∙ of_code-to_code p h

pub phase_epoch_of-pack_phase :
    (p : StopPhase) (e : ℕ) → phase_epoch_of (pack_phase p e) ≡ e % 2 ^ 56
unfolding phase_epoch_of pack_phase
phase_epoch_of-pack_phase p e = omega arith
