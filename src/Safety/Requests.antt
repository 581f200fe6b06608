-- ===== src/Safety/Requests.antt =====
-- trigger.go, stoplane.go, module.go, observe.go: the Stop lane, and what other goroutines ask of
-- the module. Each method of the gate is one step; `Rearm` is three, its two loads and its end.
use nervud.Base.{ℕ, Bool, true, false, not, ◌||◌, [], ◌∷◌, ◌++◌, ◌==◌, if◌then◌else◌}
use nervud.Gate.Defs.{
  state_of, epoch_of, state_normal, state_safety_latched, state_oem_recovery, state_rearm_required,
}
use nervud.Gate.Defs as Gate
use nervud.Safety.Phase.{StopPhase, unspecified, sent, phase_of, phase_epoch_of, rearm_settled}
use nervud.Safety.State.{EventKind, Module, push}

-- trigger.go: `Trip`, and `RequestStop`, which is the same.
unfoldable pub trip : ℕ → Module → Module
trip reason m = record m {
  gate = (Gate.trip m.gate).0;
  pending_reason = reason;
  wake = true;
  super_wake = true;
}

unfoldable pub request_stop : ℕ → Module → Module
unfolding trip
request_stop reason m = trip reason m

-- stoplane.go: one round of the Stop Lane after a wake-up; whether `SendHalt` succeeds is the
-- provider path's answer.
unfoldable pub deliver_halt : Bool → Module → Module
unfolding push
deliver_halt delivered m =
    let epoch = epoch_of m.gate in
    let woken = record m { wake = false; halts = m.halts ++ epoch ∷ [] } in
    if delivered
    then push EventKind.halt_delivered m.pending_reason sent epoch woken
    else push EventKind.delivery_faulted m.pending_reason sent epoch woken

unfoldable pub request_recovery : Module → Module × Bool
request_recovery m =
    let (w, done) = Gate.begin_recovery m.gate in (record m { gate = w; super_wake = true }, done)

unfoldable pub require_rearm : Module → Module × Bool
require_rearm m =
    let (w, done) = Gate.require_rearm m.gate in (record m { gate = w; super_wake = true }, done)

unfoldable pub record_rearm_rejected : StopPhase → ℕ → ℕ → Module → Module
record_rearm_rejected ph ph_epoch gate_epoch m = record m {
  refusals =
      m.refusals ++ record { phase = ph; phase_epoch = ph_epoch; gate_epoch = gate_epoch } ∷ [];
}

-- What `Rearm` does once it has loaded the gate's epoch and then the phase word: its checks are of
-- what it has loaded, the gate's own re-arm is on the word that the gate has by then.
unfoldable pub rearm_loaded : ℕ → ℕ → Module → Module × Bool
unfolding record_rearm_rejected
rearm_loaded ep word m =
    let ph = phase_of word in
    let ph_epoch = phase_epoch_of word in
    if not (ph_epoch == ep) || not (rearm_settled ph)
    then (record_rearm_rejected ph ph_epoch ep m, false)
    else if not (Gate.rearm m.gate).1
    then (record_rearm_rejected ph ph_epoch ep (record m { gate = (Gate.rearm m.gate).0 }), false)
    else (record m { gate = (Gate.rearm m.gate).0; super_wake = true }, true)

-- `Rearm` with no other goroutine between its steps.
unfoldable pub rearm : Module → Module × Bool
unfolding rearm_loaded
rearm m = rearm_loaded (epoch_of m.gate) m.phase_word m

pub record Snapshot : Type 0 where
  pub state : ℕ
  pub epoch : ℕ
  pub stop_phase : StopPhase

unfoldable pub safety_snapshot : Module → Snapshot
safety_snapshot m = record {
  state = state_of m.gate;
  epoch = epoch_of m.gate;
  stop_phase =
      if phase_epoch_of m.phase_word == epoch_of m.gate then phase_of m.phase_word else unspecified;
}
