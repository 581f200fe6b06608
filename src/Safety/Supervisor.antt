-- ===== src/Safety/Supervisor.antt =====
-- supervisor.go: what the Supervisor lane does in one round. Its fields are read and written by
-- that lane alone, so that each of `reconcile`, `on_report` and `on_tick` is one step.
use nervud.Base.{ℕ, true, false, not, ◌&&◌, ◌||◌, [], ◌∷◌, ◌++◌, ◌==◌, if◌then◌else◌, ltb}
use nervud.Base.Int.{ℤ, ◌-ℤ◌, ltb_ℤ}
use nervud.Gate.Defs.{
  state_of, epoch_of, state_normal, state_safety_latched, state_oem_recovery, state_rearm_required,
}
use nervud.Safety.Phase.{
  StopPhase, unspecified, requested, provider_accepted, output_disabled, delivery_fault,
  standstill_timeout, rank, is_confirmed,
}
use nervud.Safety.Tracker.{Tracker, begin, advance}
use nervud.Safety.State.{
  EventKind, reason_unspecified, reason_provider_fault, reason_supervisor_escalation, EscFlags,
  ReportKind, ProviderReport, Module, no_esc, push, set_phase,
}

unfoldable pub begin_halt : ℕ → ℤ → Module → Module
unfolding push set_phase begin
begin_halt epoch now m =
    let sup = record (m.sup) {
      active = true;
      halt_at = now;
      halt_epoch = epoch;
      esc = no_esc;
      tracker = begin m.contract.standstill_confirmation_supported;
    } in
    let pushed =
      push EventKind.tripped m.pending_reason requested epoch
        (set_phase requested (record m { sup = sup })) in
    if m.has_revoker then record pushed { revokes = m.revokes ++ epoch ∷ [] } else pushed

-- The last test reads the state of the `switch`; a state that it does not name changes nothing.
unfoldable pub reconcile : ℤ → Module → Module
unfolding begin_halt push set_phase
reconcile now m =
    let st = state_of m.gate in
    let ep = epoch_of m.gate in
    let woken = record m { super_wake = false } in
    if st == state_safety_latched
    then (if not m.sup.active || not (ep == m.sup.halt_epoch)
        then begin_halt ep now woken
        else woken)
    else if st == state_normal
    then (if m.sup.active
        then push EventKind.rearmed reason_unspecified unspecified ep
            (set_phase unspecified (record woken { sup = record (m.sup) { active = false } }))
        else woken)
    else if st == state_oem_recovery || st == state_rearm_required
    then (if not m.sup.active || not (ep == m.sup.halt_epoch)
        then begin_halt ep now woken
        else woken)
    else woken

abbrev pub with_tracker : Module → Tracker → Module
with_tracker m t = record m { sup = record (m.sup) { tracker = t } }

-- `advance`, and if it moved, the new phase published and one record pushed.
unfoldable pub progress : (StopPhase → EventKind) → ℕ → StopPhase → ℕ → Module → Module
unfolding push set_phase
progress kind reason to epoch m =
    let (t, moved) = advance m.sup.tracker to in
    if moved
    then push (kind t.phase) reason t.phase epoch (set_phase t.phase (with_tracker m t))
    else with_tracker m t

abbrev pub confirmed_kind : StopPhase → EventKind
confirmed_kind p = if is_confirmed p then EventKind.standstill_seen else EventKind.stop_progress

unfoldable pub report_progress : ReportKind → ProviderReport → Module → Module
report_progress ReportKind.halt_accepted r m =
    progress (λ p. EventKind.stop_progress) reason_unspecified provider_accepted r.epoch m
report_progress ReportKind.stop_progress r m =
    progress (λ p. EventKind.stop_progress) reason_unspecified r.phase r.epoch m
report_progress ReportKind.standstill_confirmed r m =
    progress confirmed_kind reason_unspecified StopPhase.standstill_confirmed r.epoch m
report_progress ReportKind.provider_fault r m =
    progress (λ p. EventKind.delivery_faulted) reason_provider_fault delivery_fault r.epoch m
report_progress ReportKind.unknown r m = m

unfoldable pub on_report : ProviderReport → Module → Module
unfolding report_progress
on_report r m =
    if not m.sup.active || not (r.epoch == m.sup.halt_epoch) then m else report_progress r.kind r m

abbrev pub with_esc : Module → EscFlags → Module
with_esc m e = record m { sup = record (m.sup) { esc = e } }

unfoldable pub tick_accept : ℤ → Module → Module
unfolding push
tick_accept elapsed m =
    if not m.sup.esc.accept_timeout
      && ltb (rank m.sup.tracker.phase) (rank provider_accepted)
      && ltb_ℤ m.contract.provider_accept_timeout elapsed
    then push EventKind.provider_accept_timeout reason_supervisor_escalation m.sup.tracker.phase
        m.sup.halt_epoch (with_esc m (record (m.sup.esc) { accept_timeout = true }))
    else m

unfoldable pub tick_device_ack : ℤ → Module → Module
unfolding push
tick_device_ack elapsed m =
    if not m.sup.esc.device_ack_timeout
      && ltb (rank m.sup.tracker.phase) (rank output_disabled)
      && ltb_ℤ m.contract.device_stop_ack_timeout elapsed
    then push EventKind.device_ack_timeout reason_supervisor_escalation m.sup.tracker.phase
        m.sup.halt_epoch (with_esc m (record (m.sup.esc) { device_ack_timeout = true }))
    else m

unfoldable pub tick_standstill : ℤ → Module → Module
unfolding push set_phase
tick_standstill elapsed m =
    if not m.sup.esc.standstill_timeout
      && ltb (rank m.sup.tracker.phase) (rank StopPhase.standstill_confirmed)
      && ltb_ℤ m.contract.standstill_timeout elapsed
    then (let t = (advance m.sup.tracker standstill_timeout).0 in
        push EventKind.standstill_timed_out reason_supervisor_escalation t.phase m.sup.halt_epoch (
          set_phase t.phase
            (with_tracker (with_esc m (record (m.sup.esc) { standstill_timeout = true })) t)))
    else m

unfoldable pub on_tick : ℤ → Module → Module
on_tick now m =
    if not m.sup.active || m.sup.tracker.terminal
    then m
    else (let elapsed = now -ℤ m.sup.halt_at in
        tick_standstill elapsed (tick_device_ack elapsed (tick_accept elapsed m)))
