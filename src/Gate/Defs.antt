-- ===== src/Gate/Defs.antt =====
-- gate.go and state.go: the packed word and the methods on it. A `State` is a uint8, and an epoch
-- a uint64; both stand as numbers.
use nervud.Base.{ℕ, ◌+◌, ◌*◌, ◌/◌, ◌%◌, ◌^◌, Bool, true, false, ◌||◌, ◌==◌, if◌then◌else◌}

abbrev pub state_invalid : ℕ
state_invalid = 0

abbrev pub state_normal : ℕ
state_normal = 1

abbrev pub state_safety_latched : ℕ
state_safety_latched = 2

abbrev pub state_oem_recovery : ℕ
state_oem_recovery = 3

abbrev pub state_rearm_required : ℕ
state_rearm_required = 4

abbrev pub epoch_mod : ℕ
epoch_mod = 2 ^ 56

-- `uint64(s)<<56 | epoch&mask`. The two operands have no bit in common, so `|` is their sum.
unfoldable pub pack : ℕ → ℕ → ℕ
pack s epoch = s * 2 ^ 56 % 2 ^ 64 + epoch % 2 ^ 56

unfoldable pub state_of : ℕ → ℕ
state_of word = word / 2 ^ 56 % 256

unfoldable pub epoch_of : ℕ → ℕ
epoch_of word = word % 2 ^ 56

unfoldable pub unpack : ℕ → ℕ × ℕ
unfolding state_of epoch_of
unpack word = (state_of word, epoch_of word)

unfoldable pub inc_epoch : ℕ → ℕ
inc_epoch e = let ne = (e + 1) % 2 ^ 64 % 2 ^ 56 in if ne == 0 then 1 else ne

unfoldable pub new : ℕ
unfolding pack
new = pack state_normal 1

-- Each method returns the new word and its result.
unfoldable pub trip : ℕ → ℕ × Bool
trip word =
    if state_of word == state_safety_latched
    then (word, false)
    else (pack state_safety_latched (inc_epoch (epoch_of word)), true)

unfoldable pub bump_epoch : ℕ → ℕ
bump_epoch word = pack (state_of word) (inc_epoch (epoch_of word))

-- The epoch after the call, and whether it was advanced.
unfoldable pub bump_epoch_if_normal : ℕ → ℕ × ℕ × Bool
bump_epoch_if_normal word =
    if state_of word == state_normal
    then (pack (state_of word) (inc_epoch (epoch_of word)), inc_epoch (epoch_of word), true)
    else (word, epoch_of word, false)

unfoldable pub cas1 : ℕ → ℕ → Bool → ℕ → ℕ × Bool
cas1 from to bump word =
    if state_of word == from
    then (pack to (if bump then inc_epoch (epoch_of word) else epoch_of word), true)
    else (word, false)

unfoldable pub begin_recovery : ℕ → ℕ × Bool
unfolding cas1
begin_recovery word = cas1 state_safety_latched state_oem_recovery false word

unfoldable pub require_rearm : ℕ → ℕ × Bool
require_rearm word =
    if state_of word == state_safety_latched || state_of word == state_oem_recovery
    then (pack state_rearm_required (epoch_of word), true)
    else (word, false)

unfoldable pub rearm : ℕ → ℕ × Bool
unfolding cas1
rearm word = cas1 state_rearm_required state_normal true word
