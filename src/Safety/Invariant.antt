-- ===== src/Safety/Invariant.antt =====
-- supervisor.go and module.go: what holds of the Safety module between two steps of its lanes, over
-- any interleaving of the lanes and of the goroutines that trip, recover and re-arm.
use mathlib.Core.List.{Memᴰ}
use nervud.Base.{
  ℕ, ◌^◌, ◌<◌, ◌≡◌, refl, ◌⊎◌, inl, inr, Bool, true, false, List, [], ◌∷◌, ◌++◌, arith,
}
use nervud.Base.Int.{ℤ, ◌-ℤ◌}
use nervud.Gate.Defs.{epoch_of}
use nervud.Gate.Word.{epoch_of_lt}
use nervud.Safety.Phase.{
  StopPhase, unspecified, standstill_timeout, is_terminal_fault, phase_of, pack_phase,
  phase_of-pack_phase,
}
use nervud.Safety.Contract.{Contract}
use nervud.Safety.Tracker.{
  Tracker, IsTracked, begin-IsTracked, advance, advance-IsTracked, advance_moved,
}
use nervud.Safety.State.{Module, EventKind, ReportKind, ProviderReport, new}
use nervud.Safety.Supervisor.{
  begin_halt, reconcile, progress, report_progress, on_report, tick_accept, tick_device_ack,
  tick_standstill, on_tick, with_tracker,
}

-- No halt is being tracked, and no progress of one is published.
pub record IsIdle (m : Module) : Type 0 where
  pub idle : m.sup.active ≡ false
  pub nothing : phase_of m.phase_word ≡ unspecified

-- A halt is being tracked: its progress is published under its own epoch, the leases were revoked
-- for that epoch, and a standstill timeout has ended it.
pub record IsTracking (m : Module) : Type 0 where
  pub tracking : m.sup.active ≡ true
  pub tracked : IsTracked m.sup.tracker
  pub published : m.phase_word ≡ pack_phase m.sup.tracker.phase m.sup.halt_epoch
  pub small : m.sup.halt_epoch < 2 ^ 56
  pub revoked : m.has_revoker ≡ true → Memᴰ m.sup.halt_epoch m.revokes
  pub expired : m.sup.esc.standstill_timeout ≡ true → m.sup.tracker.terminal ≡ true

abbrev pub Inv : Module → Type 0
Inv m = IsIdle m ⊎ IsTracking m

pub new-Inv : (g : ℕ) (c : Contract) (b : Bool) → Inv (new g c b)
unfolding new
new-Inv g c b = inl (record { idle = refl; nothing = phase_of-pack_phase unspecified 0 tt })

Memᴰ-last : (x : ℕ) (xs : List ℕ) → Memᴰ x (xs ++ x ∷ [])
Memᴰ-last x [] = Memᴰ.head refl
Memᴰ-last x (y ∷ ys) = Memᴰ.tail (Memᴰ-last x ys)

pub begin_halt-IsTracking :
    (e : ℕ) (now : ℤ) (m : Module) → e < 2 ^ 56 → IsTracking (begin_halt e now m)
unfolding begin_halt
begin_halt-IsTracking e now m h =
    ground
      (arith, begin-IsTracked m.contract.standstill_confirmation_supported, Memᴰ-last e m.revokes)

-- The tracker moves on by one call of `advance`, and what it says is published.
abbrev advanced : StopPhase → Module → Module
advanced to m =
    let t = (advance m.sup.tracker to).0 in
    record (with_tracker m t) { phase_word = pack_phase t.phase m.sup.halt_epoch }

advance_terminal :
    (t : Tracker) (p : StopPhase) → t.terminal ≡ true → (advance t p).0.terminal ≡ true
unfolding advance
advance_terminal t p h = ground arith

advanced-IsTracking : (to : StopPhase) (m : Module) → IsTracking m → IsTracking (advanced to m)
advanced-IsTracking to m v =
    ground (arith, advance-IsTracked m.sup.tracker to v.tracked, advance_terminal m.sup.tracker to)

progress-IsTracking :
    (kind : StopPhase → EventKind) (reason : ℕ) (to : StopPhase) (e : ℕ) (m : Module)
    → IsTracking m
    → IsTracking (progress kind reason to e m)
unfolding progress
progress-IsTracking kind reason to e m v =
    ground (arith, advanced-IsTracking to m v, advance_moved m.sup.tracker to)

report_progress-IsTracking :
    (k : ReportKind) (r : ProviderReport) (m : Module)
    → IsTracking m
    → IsTracking (report_progress k r m)
unfolding report_progress
report_progress-IsTracking ReportKind.halt_accepted r m v = progress-IsTracking _ _ _ _ m v
report_progress-IsTracking ReportKind.stop_progress r m v = progress-IsTracking _ _ _ _ m v
report_progress-IsTracking ReportKind.standstill_confirmed r m v = progress-IsTracking _ _ _ _ m v
report_progress-IsTracking ReportKind.provider_fault r m v = progress-IsTracking _ _ _ _ m v
report_progress-IsTracking ReportKind.unknown r m v = v

pub on_report-Inv : (r : ProviderReport) (m : Module) → Inv m → Inv (on_report r m)
unfolding on_report
on_report-Inv r m (inl v) = ground arith
on_report-Inv r m (inr v) = ground (arith, report_progress-IsTracking r.kind r m v)

pub tick_accept-IsTracking : (d : ℤ) (m : Module) → IsTracking m → IsTracking (tick_accept d m)
unfolding tick_accept
tick_accept-IsTracking d m v = ground arith

pub tick_device_ack-IsTracking :
    (d : ℤ) (m : Module) → IsTracking m → IsTracking (tick_device_ack d m)
unfolding tick_device_ack
tick_device_ack-IsTracking d m v = ground arith

timeout_terminal : (t : Tracker) → (advance t standstill_timeout).0.terminal ≡ true
unfolding advance is_terminal_fault
timeout_terminal t = ground arith

tick_standstill-IsTracking : (d : ℤ) (m : Module) → IsTracking m → IsTracking (tick_standstill d m)
unfolding tick_standstill
tick_standstill-IsTracking d m v = ground (
  arith,
  advance-IsTracked m.sup.tracker standstill_timeout v.tracked,
  timeout_terminal m.sup.tracker,
)

pub on_tick-IsTracking : (now : ℤ) (m : Module) → IsTracking m → IsTracking (on_tick now m)
unfolding on_tick
on_tick-IsTracking now m v =
    let d = now -ℤ m.sup.halt_at in
    ground (
      arith,
      tick_standstill-IsTracking d (tick_device_ack d (tick_accept d m))
          (tick_device_ack-IsTracking d (tick_accept d m) (tick_accept-IsTracking d m v)),
    )

pub on_tick-Inv : (now : ℤ) (m : Module) → Inv m → Inv (on_tick now m)
unfolding on_tick
on_tick-Inv now m (inl v) = ground arith
on_tick-Inv now m (inr v) = inr (on_tick-IsTracking now m v)

pub reconcile-Inv : (now : ℤ) (m : Module) → Inv m → Inv (reconcile now m)
unfolding reconcile
reconcile-Inv now m v = ground (
  arith,
  begin_halt-IsTracking (epoch_of m.gate) now (record m { super_wake = false })
      (epoch_of_lt m.gate),
  phase_of-pack_phase unspecified m.sup.halt_epoch tt,
)
