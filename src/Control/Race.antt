-- ===== src/Control/Race.antt =====
-- slot.go: the publication of a new lease against gate methods and `RevokeAll` that run beside it.
use nervud.Base.{
  ℕ, suc, ◌+◌, ◌%◌, ◌≤◌, ◌<◌, ◌≡◌, refl, sym, ap, ◌∙◌, subst, true, false, List, [], ◌∷◌, length,
  arith,
}
use nervud.Control.Types.{Module}
use nervud.Control.Boundary.{word}
use nervud.Control.Supervised.{Act, gates, opens, floors, takes, closes, act, run_acts}
use nervud.Control.Acquire.{is_odd}

-- The order in which the supervisor makes its steps: it starts a revocation when none is running,
-- and raises the floor, takes leases out and ends the revocation only while it is running.
abbrev pub InTurn : Act → ℕ → Type 0
InTurn (gates c) seq = Unit {0}
InTurn opens seq = is_odd seq ≡ false
InTurn (floors e) seq = is_odd seq ≡ true
InTurn (takes r e) seq = is_odd seq ≡ true
InTurn closes seq = is_odd seq ≡ true

abbrev pub next_seq : Act → ℕ → ℕ
next_seq opens seq = (seq + 1) % word
next_seq closes seq = (seq + 1) % word
next_seq (gates c) seq = seq
next_seq (floors e) seq = seq
next_seq (takes r e) seq = seq

abbrev pub AllInTurn : List Act → ℕ → Type 0
AllInTurn [] seq = Unit {0}
AllInTurn (a ∷ as') seq = InTurn a seq × AllInTurn as' (next_seq a seq)

abbrev pub seq_after : List Act → ℕ → ℕ
seq_after [] seq = seq
seq_after (a ∷ as') seq = seq_after as' (next_seq a seq)

pub run_acts_seq :
    (as' : List Act) (m : Module) → (run_acts as' m).revoke_seq ≡ seq_after as' m.revoke_seq
unfolding run_acts act
run_acts_seq [] m = refl
run_acts_seq (gates c ∷ as') m = run_acts_seq as' (act (gates c) m)
run_acts_seq (opens ∷ as') m = run_acts_seq as' (act opens m)
run_acts_seq (floors e ∷ as') m = run_acts_seq as' (act (floors e) m)
run_acts_seq (takes r e ∷ as') m = run_acts_seq as' (act (takes r e) m)
run_acts_seq (closes ∷ as') m = run_acts_seq as' (act closes m)

-- How often the steps move the sequence number.
abbrev moves : List Act → ℕ
moves [] = 0
moves (opens ∷ as') = suc (moves as')
moves (closes ∷ as') = suc (moves as')
moves (gates c ∷ as') = moves as'
moves (floors e ∷ as') = moves as'
moves (takes r e ∷ as') = moves as'

moves-le : (as' : List Act) → moves as' ≤ length as'
moves-le [] = omega arith
moves-le (gates c ∷ as') = omega (arith, moves-le as')
moves-le (opens ∷ as') = omega (arith, moves-le as')
moves-le (floors e ∷ as') = omega (arith, moves-le as')
moves-le (takes r e ∷ as') = omega (arith, moves-le as')
moves-le (closes ∷ as') = omega (arith, moves-le as')

seq_after-moves :
    (as' : List Act) (seq : ℕ) → seq < word → seq_after as' seq ≡ (seq + moves as') % word
seq_after-moves [] seq h = omega arith
seq_after-moves (gates c ∷ as') seq h = seq_after-moves as' seq h
seq_after-moves (floors e ∷ as') seq h = seq_after-moves as' seq h
seq_after-moves (takes r e ∷ as') seq h = seq_after-moves as' seq h
seq_after-moves (opens ∷ as') seq h =
    omega (arith, seq_after-moves as' ((seq + 1) % word) (omega arith))
seq_after-moves (closes ∷ as') seq h =
    omega (arith, seq_after-moves as' ((seq + 1) % word) (omega arith))

-- What a run without revocation steps leaves alone.
pub record IsUntouched (m m' : Module) : Type 0 where
  pub slots : m'.slots ≡ m.slots
  pub floor : m'.safety_floor ≡ m.safety_floor
  pub base : m'.base ≡ m.base
  pub seq : m'.revoke_seq ≡ m.revoke_seq

-- Steps in turn, started while no revocation is running, that do not move the sequence number have
-- no revocation step among them.
quiet_run :
    (as' : List Act) (m : Module)
    → is_odd m.revoke_seq ≡ false
    → AllInTurn as' m.revoke_seq
    → moves as' ≡ 0
    → IsUntouched m (run_acts as' m)
unfolding run_acts act
quiet_run [] m o t z = record { slots = refl; floor = refl; base = refl; seq = refl }
quiet_run (gates c ∷ as') m o t z =
    let u = quiet_run as' (act (gates c) m) o t.1 z in
    record { slots = u.slots; floor = u.floor; base = u.base; seq = u.seq }
quiet_run (opens ∷ as') m o t z = absurd (omega arith)
quiet_run (closes ∷ as') m o t z = absurd (omega arith)
quiet_run (floors e ∷ as') m o t z = absurd (ground arith)
quiet_run (takes r e ∷ as') m o t z = absurd (ground arith)

no_moves :
    (first second : List Act) (seq : ℕ)
    → seq < word
    → length first + length second < word
    → seq_after second (seq_after first seq) ≡ seq
    → (moves first ≡ 0) × (moves second ≡ 0) × (seq_after first seq ≡ seq)
no_moves first second seq b l h =
    let e1 = seq_after-moves first seq b in
    let e2 = seq_after-moves second (seq_after first seq) (omega (arith, e1)) in
    let a : moves first ≡ 0 = omega (arith, e1, e2, moves-le first, moves-le second) in
    (a, omega (arith, e1, e2, moves-le first, moves-le second), omega (arith, e1))

-- Two runs in turn, the second from a module that keeps the number of the first, that together
-- bring the sequence number back have left the revocation state alone.
pub quiet_pair :
    (first second : List Act) (m n : Module)
    → is_odd m.revoke_seq ≡ false
    → m.revoke_seq < word
    → AllInTurn first m.revoke_seq
    → AllInTurn second (seq_after first m.revoke_seq)
    → length first + length second < word
    → n.revoke_seq ≡ (run_acts first m).revoke_seq
    → (run_acts second n).revoke_seq ≡ m.revoke_seq
    → IsUntouched m (run_acts first m) × IsUntouched n (run_acts second n)
quiet_pair first second m n o b t1 t2 l k h =
    let e : n.revoke_seq ≡ seq_after first m.revoke_seq = k ∙ run_acts_seq first m in
    let z =
      no_moves first second m.revoke_seq b l
        (ap (seq_after second) (sym e) ∙ sym (run_acts_seq second n) ∙ h) in
    let o' = subst (λ q. is_odd q ≡ false) (sym (e ∙ z.2)) o in
    (quiet_run first m o t1 z.0, quiet_run second n o' (subst (AllInTurn second) (sym e) t2) z.1)
