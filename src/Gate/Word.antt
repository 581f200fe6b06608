-- ===== src/Gate/Word.antt =====
-- gate.go: what packing keeps, and what each method does to the two parts of the word.
use nervud.Base.{ℕ, suc, ◌%◌, ◌<◌, ◌≡◌, ◌≢◌, arith}
use nervud.Gate.Defs.{epoch_mod, pack, state_of, epoch_of, inc_epoch}

pub state_of-pack : (s e : ℕ) → s < 256 → state_of (pack s e) ≡ s
unfolding state_of pack
state_of-pack s e h = omega arith

pub epoch_of-pack : (s e : ℕ) → epoch_of (pack s e) ≡ e % epoch_mod
unfolding epoch_of pack
epoch_of-pack s e = omega arith

pub epoch_of_lt : (w : ℕ) → epoch_of w < epoch_mod
unfolding epoch_of
epoch_of_lt w = omega arith

-- The next epoch is a nonzero 56-bit number, and one more than the last but at the wrap-around.
pub inc_epoch_bounds : (e : ℕ) → (0 < inc_epoch e) × (inc_epoch e < epoch_mod)
unfolding inc_epoch
inc_epoch_bounds e = ground arith

pub inc_epoch-suc : (e : ℕ) → suc e < epoch_mod → inc_epoch e ≡ suc e
unfolding inc_epoch
inc_epoch-suc e h = ground arith

pub inc_epoch-mod : (e : ℕ) → inc_epoch e % epoch_mod ≡ inc_epoch e
inc_epoch-mod e = omega (arith, inc_epoch_bounds e)

pub inc_epoch-ne : (e : ℕ) → e < epoch_mod → inc_epoch e ≢ e
unfolding inc_epoch
inc_epoch-ne e h = ground arith

pub state_of_lt : (w : ℕ) → state_of w < 256
unfolding state_of
state_of_lt w = omega arith

pub epoch_of-pack_next :
    (s w : ℕ)
    → suc (epoch_of w) < epoch_mod
    → epoch_of (pack s (inc_epoch (epoch_of w))) ≡ suc (epoch_of w)
epoch_of-pack_next s w h =
    omega (arith, epoch_of-pack s (inc_epoch (epoch_of w)), inc_epoch-suc (epoch_of w) h)

pub epoch_of-pack_self : (s w : ℕ) → epoch_of (pack s (epoch_of w)) ≡ epoch_of w
epoch_of-pack_self s w = omega (arith, epoch_of-pack s (epoch_of w), epoch_of_lt w)
