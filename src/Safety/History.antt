-- ===== src/Safety/History.antt =====
-- module.go: any interleaving of the two lanes with the goroutines that trip, recover and re-arm.
use nervud.Base.{ℕ, ◌≡◌, refl, ◌∙◌, Bool, List, [], ◌∷◌, arith}
use nervud.Base.Int.{ℤ}
use nervud.Safety.Contract.{Contract}
use nervud.Safety.State.{Module, ProviderReport, ReportKind, new}
use nervud.Safety.Supervisor.{
  begin_halt, reconcile, progress, report_progress, on_report, tick_accept, tick_device_ack,
  tick_standstill, on_tick,
}
use nervud.Safety.Requests.{trip, deliver_halt, request_recovery, require_rearm, rearm_loaded}
use nervud.Safety.Invariant.{Inv, new-Inv, on_report-Inv, on_tick-Inv, reconcile-Inv}

-- What a goroutine other than the Supervisor's asks for.
pub data Request : Type 0 where
  trips : ℕ → Request
  delivers : Bool → Request
  recovers requires_rearm : Request

abbrev pub ask : Request → Module → Module
ask (trips reason) m = trip reason m
ask (delivers ok) m = deliver_halt ok m
ask recovers m = (request_recovery m).0
ask requires_rearm m = (require_rearm m).0

-- One round of the Supervisor lane, one request, or the last step of a `Rearm` that has loaded an
-- epoch and a phase word before, whichever they were: so nothing is assumed of what came between.
pub data Call : Type 0 where
  reconciles ticks : ℤ → Call
  reports : ProviderReport → Call
  asks : Request → Call
  rearms : ℕ → ℕ → Call

abbrev pub step : Module → Call → Module
step m (reconciles now) = reconcile now m
step m (ticks now) = on_tick now m
step m (reports r) = on_report r m
step m (asks r) = ask r m
step m (rearms ep word) = (rearm_loaded ep word m).0

unfoldable pub run : Module → List Call → Module
run m [] = m
run m (c ∷ cs) = run (step m c) cs

ask-Inv : (r : Request) (m : Module) → Inv m → Inv (ask r m)
unfolding trip deliver_halt request_recovery require_rearm
ask-Inv (trips reason) m v = ground arith
ask-Inv (delivers ok) m v = ground arith
ask-Inv recovers m v = ground arith
ask-Inv requires_rearm m v = ground arith

step-Inv : (m : Module) (c : Call) → Inv m → Inv (step m c)
unfolding rearm_loaded
step-Inv m (reconciles now) v = reconcile-Inv now m v
step-Inv m (ticks now) v = on_tick-Inv now m v
step-Inv m (reports r) v = on_report-Inv r m v
step-Inv m (asks r) v = ask-Inv r m v
step-Inv m (rearms ep word) v = ground arith

pub run-Inv : (m : Module) (cs : List Call) → Inv m → Inv (run m cs)
unfolding run
run-Inv m [] v = v
run-Inv m (c ∷ cs) v = run-Inv (step m c) cs (step-Inv m c v)

-- After any interleaving of the lanes with the other goroutines, the Safety module either tracks no
-- halt and publishes no phase, or tracks one: the published word carries the tracked phase and the
-- halt's epoch, the leases were revoked for that epoch where there is a revoker, the tracker is
-- well formed, and a standstill timeout has ended it.
pub run-new-Inv : (g : ℕ) (c : Contract) (b : Bool) (cs : List Call) → Inv (run (new g c b) cs)
run-new-Inv g c b cs = run-Inv (new g c b) cs (new-Inv g c b)

ask-has_revoker : (r : Request) (m : Module) → (ask r m).has_revoker ≡ m.has_revoker
unfolding trip deliver_halt request_recovery require_rearm
ask-has_revoker (trips reason) m = refl
ask-has_revoker (delivers ok) m = ground arith
ask-has_revoker recovers m = ground arith
ask-has_revoker requires_rearm m = ground arith

report_progress-has_revoker :
    (k : ReportKind) (r : ProviderReport) (m : Module)
    → (report_progress k r m).has_revoker ≡ m.has_revoker
unfolding report_progress progress
report_progress-has_revoker ReportKind.halt_accepted r m = ground arith
report_progress-has_revoker ReportKind.unknown r m = refl
report_progress-has_revoker _ r m = ground arith

step-has_revoker : (m : Module) (c : Call) → (step m c).has_revoker ≡ m.has_revoker
unfolding reconcile begin_halt on_report on_tick tick_accept tick_device_ack tick_standstill
    rearm_loaded
step-has_revoker m (reconciles now) = ground arith
step-has_revoker m (ticks now) = ground arith
step-has_revoker m (reports r) = ground (arith, report_progress-has_revoker r.kind r m)
step-has_revoker m (asks r) = ask-has_revoker r m
step-has_revoker m (rearms ep word) = ground arith

pub run-has_revoker : (m : Module) (cs : List Call) → (run m cs).has_revoker ≡ m.has_revoker
unfolding run
run-has_revoker m [] = refl
run-has_revoker m (c ∷ cs) = run-has_revoker (step m c) cs ∙ step-has_revoker m c
