-- ===== src/Safety/State.antt =====
-- module.go, supervisor.go, report.go, ring.go, reason.go: the state of the Safety module.
-- The audit ring stands as the sequence of the records that were pushed to it.
use nervud.Base.{ℕ, Bool, false, List, [], ◌∷◌, ◌++◌}
use nervud.Base.Int.{ℤ, pos}
use nervud.Safety.Phase.{StopPhase, unspecified, pack_phase}
use nervud.Safety.Contract.{Contract}
use nervud.Safety.Tracker.{Tracker}

-- ring.go: `eventKind`.
pub data EventKind : Type 0 where
  tripped halt_delivered delivery_faulted stop_progress provider_accept_timeout : EventKind
  device_ack_timeout standstill_timed_out standstill_seen rearmed : EventKind

-- reason.go: the codes that this package writes itself.
abbrev pub reason_unspecified : ℕ
reason_unspecified = 0

abbrev pub reason_provider_fault : ℕ
reason_provider_fault = 3

abbrev pub reason_supervisor_escalation : ℕ
reason_supervisor_escalation = 5

pub record EventRecord : Type 0 where
  pub kind : EventKind
  pub reason : ℕ
  pub phase : StopPhase
  pub epoch : ℕ

pub record EscFlags : Type 0 where
  pub accept_timeout : Bool
  pub device_ack_timeout : Bool
  pub standstill_timeout : Bool

-- report.go: `ReportKind`; the other values of the uint8 are `unknown`.
pub data ReportKind : Type 0 where
  halt_accepted stop_progress standstill_confirmed provider_fault unknown : ReportKind

pub record ProviderReport : Type 0 where
  pub kind : ReportKind
  pub epoch : ℕ
  pub phase : StopPhase

pub record Supervisor : Type 0 where
  pub active : Bool
  pub halt_at : ℤ
  pub halt_epoch : ℕ
  pub tracker : Tracker
  pub esc : EscFlags

-- A re-arm that was refused, as the audit record names it.
pub record Refusal : Type 0 where
  pub phase : StopPhase
  pub phase_epoch : ℕ
  pub gate_epoch : ℕ

pub record Module : Type 0 where
  pub gate : ℕ
  pub contract : Contract
  pub has_revoker : Bool
  pub pending_reason : ℕ
  pub phase_word : ℕ
  pub wake : Bool
  pub super_wake : Bool
  pub sup : Supervisor
  -- What has left the module, oldest first: the pushed records, the calls of `RevokeAll`, the
  -- halts that were handed to the provider's path, and the refused re-arms.
  pub ring : List EventRecord
  pub revokes : List ℕ
  pub halts : List ℕ
  pub refusals : List Refusal

abbrev pub no_esc : EscFlags
no_esc = record { accept_timeout = false; device_ack_timeout = false; standstill_timeout = false }

unfoldable pub new : ℕ → Contract → Bool → Module
unfolding pack_phase
new gate contract has_revoker = record {
  gate = gate;
  contract = contract;
  has_revoker = has_revoker;
  pending_reason = 0;
  phase_word = pack_phase unspecified 0;
  wake = false;
  super_wake = false;
  sup = record {
    active = false;
    halt_at = pos 0;
    halt_epoch = 0;
    tracker = record { phase = unspecified; standstill_supported = false; terminal = false };
    esc = no_esc;
  };
  ring = [];
  revokes = [];
  halts = [];
  refusals = [];
}

unfoldable pub push : EventKind → ℕ → StopPhase → ℕ → Module → Module
push kind reason phase epoch m = record m {
  ring = m.ring ++ record { kind = kind; reason = reason; phase = phase; epoch = epoch } ∷ [];
}

unfoldable pub set_phase : StopPhase → Module → Module
set_phase p m = record m { phase_word = pack_phase p m.sup.halt_epoch }
