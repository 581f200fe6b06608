-- ===== src/Safety/Escalation.antt =====
-- supervisor.go: the timeouts of `onTick`.
use nervud.Base.{
  ◌<◌, ◌≡◌, subst, sym, ap, ◌∙◌, Bool, true, false, not, ◌&&◌, ltb, ◌⊎◌, inr, inl, arith,
  Bool-cases,
}
use nervud.Base.Int.{ℤ, ◌-ℤ◌, ltb_ℤ}
use nervud.Safety.Phase.{
  StopPhase, provider_accepted, output_disabled, rank, is_terminal_fault, rearm_settled, phase_of,
  phase_epoch_of, phase_of-pack_phase, phase_epoch_of-pack_phase, IsByte,
}
use nervud.Safety.Tracker.{Tracker, IsTracked, advance}
use nervud.Safety.State.{Module}
use nervud.Safety.Supervisor.{tick_accept, tick_device_ack, tick_standstill, on_tick}
use nervud.Safety.Invariant.{
  IsTracking, on_tick-IsTracking, tick_accept-IsTracking, tick_device_ack-IsTracking,
}

ranked-IsByte : (p : StopPhase) → 0 < rank p → IsByte p
unfolding rank
ranked-IsByte (StopPhase.other n) h = absurd (omega arith)
ranked-IsByte StopPhase.unspecified h = tt
ranked-IsByte _ h = tt

fault-IsByte : (p : StopPhase) → is_terminal_fault p ≡ true → IsByte p
unfolding is_terminal_fault
fault-IsByte (StopPhase.other n) h = cc
fault-IsByte StopPhase.unspecified h = tt
fault-IsByte _ h = tt

IsTracked-IsByte : (t : Tracker) → IsTracked t → IsByte t.phase
IsTracked-IsByte t v = elim (Bool-cases t.terminal) [
  | inl stopped ↦ fault-IsByte t.phase (v.fault_terminal ∙ stopped)
  | inr running ↦ ranked-IsByte t.phase (v.ranked running)
]

-- The published word gives back the tracked phase and the halt's epoch.
pub published_reads :
    (m : Module)
    → IsTracking m
    → (phase_of m.phase_word ≡ m.sup.tracker.phase)
      × (phase_epoch_of m.phase_word ≡ m.sup.halt_epoch)
published_reads m v = (
  rw v.published (
      phase_of-pack_phase m.sup.tracker.phase m.sup.halt_epoch
        (IsTracked-IsByte m.sup.tracker v.tracked)),
  rw (v.published, phase_epoch_of-pack_phase m.sup.tracker.phase m.sup.halt_epoch)
      (omega (arith, v.small)),
)

tick_standstill_settles :
    (d : ℤ) (m : Module)
    → IsTracking m
    → ltb_ℤ m.contract.standstill_timeout d ≡ true
    → rearm_settled (tick_standstill d m).sup.tracker.phase ≡ true
unfolding tick_standstill rearm_settled advance
tick_standstill_settles d m v h = ground (arith)

tick_keeps :
    (d : ℤ) (m : Module)
    → ((tick_device_ack d (tick_accept d m)).contract ≡ m.contract)
      × ((tick_device_ack d (tick_accept d m)).sup.tracker ≡ m.sup.tracker)
unfolding tick_device_ack tick_accept
tick_keeps d m = ground arith

on_tick_phase :
    (now : ℤ) (m : Module)
    → IsTracking m
    → ltb_ℤ m.contract.standstill_timeout (now -ℤ m.sup.halt_at) ≡ true
    → rearm_settled (on_tick now m).sup.tracker.phase ≡ true
unfolding on_tick rearm_settled
on_tick_phase now m v h =
    let d = now -ℤ m.sup.halt_at in
    let m' = tick_device_ack d (tick_accept d m) in
    let k = tick_keeps d m in
    ground (
      arith,
      tick_standstill_settles d m'
          (tick_device_ack-IsTracking d (tick_accept d m) (tick_accept-IsTracking d m v))
          (ap (λ c. ltb_ℤ c.standstill_timeout d) k.0 ∙ h),
    )

on_tick_keeps :
    (now : ℤ) (m : Module)
    → ((on_tick now m).sup.halt_epoch ≡ m.sup.halt_epoch)
      × ((on_tick now m).gate ≡ m.gate)
      × ((on_tick now m).revokes ≡ m.revokes)
unfolding on_tick tick_accept tick_device_ack tick_standstill
on_tick_keeps now m = ground arith

-- Once the standstill budget of a tracked halt has run out, the next tick leaves a published phase
-- that has settled, under the halt's own epoch: whatever the provider does, the way to a re-arm is
-- not blocked for good. The gate and the lease revocations are left alone.
pub on_tick_settles :
    (now : ℤ) (m : Module)
    → IsTracking m
    → ltb_ℤ m.contract.standstill_timeout (now -ℤ m.sup.halt_at) ≡ true
    → (rearm_settled (phase_of (on_tick now m).phase_word) ≡ true)
      × (phase_epoch_of (on_tick now m).phase_word ≡ m.sup.halt_epoch)
      × ((on_tick now m).gate ≡ m.gate)
      × ((on_tick now m).revokes ≡ m.revokes)
on_tick_settles now m v h =
    let reads = published_reads (on_tick now m) (on_tick-IsTracking now m v) in
    let kept = on_tick_keeps now m in
    (ap rearm_settled reads.0 ∙ on_tick_phase now m v h, reads.1 ∙ kept.0, kept.1, kept.2)

abbrev accept_due : ℤ → Module → Bool
accept_due d m =
    not m.sup.esc.accept_timeout
    && ltb (rank m.sup.tracker.phase) (rank provider_accepted)
    && ltb_ℤ m.contract.provider_accept_timeout d

abbrev ack_due : ℤ → Module → Bool
ack_due d m =
    not m.sup.esc.device_ack_timeout
    && ltb (rank m.sup.tracker.phase) (rank output_disabled)
    && ltb_ℤ m.contract.device_stop_ack_timeout d

module _ (d : ℤ) (m : Module) where
  tick_accept_done : accept_due d (tick_accept d m) ≡ false
  unfolding tick_accept
  tick_accept_done = ground arith

  tick_device_ack_done :
      (ack_due d (tick_device_ack d m) ≡ false)
      × (accept_due d (tick_device_ack d m) ≡ accept_due d m)
      × ((tick_device_ack d m).sup.halt_at ≡ m.sup.halt_at)
  unfolding tick_device_ack
  tick_device_ack_done = ground arith

  tick_accept_halt_at : (tick_accept d m).sup.halt_at ≡ m.sup.halt_at
  unfolding tick_accept
  tick_accept_halt_at = ground arith

  -- The standstill test either ends the halt or is not due.
  tick_standstill_done :
      ((tick_standstill d m).sup.tracker.terminal ≡ true) ⊎ (tick_standstill d m ≡ m)
  unfolding tick_standstill advance is_terminal_fault
  tick_standstill_done = ground arith

  quiet :
      accept_due d m ≡ false
      → ack_due d m ≡ false
      → tick_standstill d m ≡ m
      → tick_standstill d (tick_device_ack d (tick_accept d m)) ≡ m
  unfolding tick_accept tick_device_ack
  quiet a b c = ground arith

on_tick_terminal : (now : ℤ) (m : Module) → m.sup.tracker.terminal ≡ true → on_tick now m ≡ m
unfolding on_tick
on_tick_terminal now m h = ground arith

on_tick_cases :
    (now : ℤ) (m : Module)
    → let d = now -ℤ m.sup.halt_at in
      (on_tick now m ≡ m)
      ⊎ (on_tick now m ≡ tick_standstill d (tick_device_ack d (tick_accept d m)))
unfolding on_tick
on_tick_cases now m = ground arith

on_tick_quiet :
    (now : ℤ) (d : ℤ) (m : Module)
    → d ≡ now -ℤ m.sup.halt_at
    → tick_standstill d (tick_device_ack d (tick_accept d m)) ≡ m
    → on_tick now m ≡ m
unfolding on_tick
on_tick_quiet now d m e h =
    let h' = subst (λ x. tick_standstill x (tick_device_ack x (tick_accept x m)) ≡ m) e h in
    ground arith

ticked_again :
    (now : ℤ) (m : Module)
    → let d = now -ℤ m.sup.halt_at in
      let m' = tick_standstill d (tick_device_ack d (tick_accept d m)) in on_tick now m' ≡ m'
ticked_again now m =
    let d = now -ℤ m.sup.halt_at in
    let m1 = tick_accept d m in
    let m2 = tick_device_ack d m1 in
    let done2 = tick_device_ack_done d m1 in
    elim (tick_standstill_done d m2) [
      | inl stopped ↦ on_tick_terminal now (tick_standstill d m2) stopped
      | inr same ↦ rw same (
          on_tick_quiet now d m2 (ap (λ t. now -ℤ t) (sym (done2.2 ∙ tick_accept_halt_at d m)))
            (quiet d m2 (done2.1 ∙ tick_accept_done d m) done2.0 same))
    ]

-- Ticking twice at one time is ticking once: no escalation of a halt is made or recorded twice.
pub on_tick_twice : (now : ℤ) (m : Module) → on_tick now (on_tick now m) ≡ on_tick now m
on_tick_twice now m = elim (on_tick_cases now m) [
  | inl same ↦ ap (on_tick now) same
  | inr moved ↦ rw moved (ticked_again now m)
]
