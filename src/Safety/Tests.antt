-- ===== src/Safety/Tests.antt =====
-- module.go, supervisor.go, stopprogress.go: the theorems of the Safety module at concrete states.
use nervud.Safety.Interleaved.{moves, start, moves-start-IsFifo, push_settles}
use nervud.Safety.Fifo.{freed, upto}
use nervud.Safety.Ring.{word, size, Move, pushes, publishes, pops, releases, move}
use mathlib.Core.List.{Memᴰ}
use nervud.Base.{
  ◌≤◌, ◌<◌, ◌+◌, ◌%◌, ◌⊎◌, List, arith, refl, ℕ, suc, ◌≤◌, ◌<◌, ◌≡◌, refl, ◌≢◌, ◌⊎◌, true, false,
  List, [], ◌∷◌, ◌+◌, length, arith,
}
use nervud.Base.Int.{pos, ◌-ℤ◌, ltb_ℤ}
use nervud.Gate.Defs.{
  state_normal, state_safety_latched, state_rearm_required, state_of, epoch_of, epoch_mod,
}
use nervud.Gate.Defs as Gate
use nervud.Safety.Phase.{
  unspecified, mcu_acked, of_code, to_code, rank, is_terminal_fault, pack_phase, phase_of,
  phase_epoch_of, rearm_settled, is_confirmed,
}
use nervud.Safety.Contract.{default_contract}
use nervud.Safety.Tracker.{begin, advance}
use nervud.Safety.State.{EventRecord, tripped, rearmed, Module, new, push, set_phase}
use nervud.Safety.Supervisor.{
  begin_halt, reconcile, on_tick, tick_accept, tick_device_ack, tick_standstill,
}
use nervud.Safety.Requests.{trip, deliver_halt, request_recovery, require_rearm, rearm_loaded}
use nervud.Safety.Invariant.{IsTracking, Inv, begin_halt-IsTracking}
use nervud.Safety.History.{
  trips, delivers, recovers, requires_rearm, Call, reconciles, ticks, asks, run, run-new-Inv,
}
use nervud.Safety.InFlight.{not_rearming, World, Turn, asks_for, rearms_on, turns}
use nervud.Safety.Escalation.{on_tick_settles}
use nervud.Safety.Rearm.{rearm_after_revoke, rearm_overtaken, stale_phase_no_rearm}

-- The word (NORMAL, 1).
abbrev gate : ℕ
gate = 72057594037927937

-- A halt, its delivery, its timeouts, and the recovery up to the re-arm.
abbrev halted : List Call
halted =
    asks (trips 1)
    ∷ reconciles (pos 0)
    ∷ asks (delivers true)
    ∷ ticks (pos 2000000000)
    ∷ asks recovers
    ∷ asks requires_rearm
    ∷ []

run-new-Inv_example : Inv (run (new gate default_contract true) halted)
run-new-Inv_example = run-new-Inv gate default_contract true halted

abbrev recovered : Module
recovered = run (new gate default_contract true) halted

recovered_rearms : (rearm_loaded (epoch_of recovered.gate) recovered.phase_word recovered).1 ≡ true
unfolding run new trip reconcile begin_halt deliver_halt on_tick request_recovery require_rearm
    rearm_loaded push set_phase tick_accept tick_device_ack tick_standstill is_terminal_fault
    is_confirmed rank rearm_settled phase_of of_code to_code pack_phase phase_epoch_of state_of
    epoch_of Gate.pack Gate.inc_epoch Gate.trip Gate.begin_recovery Gate.require_rearm Gate.rearm
    Gate.cas1 advance begin ◌-ℤ◌
recovered_rearms = refl

rearm_after_revoke_example :
    (Memᴰ (epoch_of recovered.gate) (run recovered []).revokes)
    × (Memᴰ (epoch_of (run (run recovered []) []).gate) (run recovered []).revokes
        ⊎ epoch_of (run (run recovered []) []).gate ≢ epoch_of recovered.gate)
unfolding run new
rearm_after_revoke_example = rearm_after_revoke gate default_contract halted [] [] recovered_rearms

abbrev asked : List Turn
asked =
    asks_for (delivers false)
    ∷ rearms_on 0
    ∷ rearms_on 0
    ∷ asks_for recovers
    ∷ asks_for requires_rearm
    ∷ rearms_on 1
    ∷ rearms_on 0
    ∷ rearms_on 1
    ∷ asks_for (trips 2)
    ∷ rearms_on 1
    ∷ []

abbrev idle : Module
idle = new gate default_contract true

idle_behind : phase_epoch_of idle.phase_word ≤ epoch_of idle.gate
unfolding new phase_epoch_of epoch_of pack_phase
idle_behind = omega arith

idle_normal : state_of idle.gate ≢ state_safety_latched
unfolding new state_of
idle_normal = omega arith

idle_room : suc (epoch_of idle.gate) + length asked < epoch_mod
unfolding new epoch_of
idle_room = omega arith

abbrev tripping : World
tripping = record { safety = trip 1 idle; flights = λ i. not_rearming }

stale_phase_no_rearm_example : state_of (turns tripping asked).safety.gate ≢ state_normal
stale_phase_no_rearm_example = stale_phase_no_rearm idle 1 asked idle_behind idle_normal idle_room

recovered_facts :
    (phase_epoch_of recovered.phase_word ≡ epoch_of recovered.gate)
    × (rearm_settled (phase_of recovered.phase_word) ≡ true)
    × (state_of recovered.gate ≡ state_rearm_required)
    × (epoch_of recovered.gate ≡ 2)
unfolding run new trip reconcile begin_halt deliver_halt on_tick request_recovery require_rearm push
    set_phase tick_accept tick_device_ack tick_standstill is_terminal_fault is_confirmed rank
    rearm_settled phase_of of_code to_code pack_phase phase_epoch_of state_of epoch_of Gate.pack
    Gate.inc_epoch Gate.trip Gate.begin_recovery Gate.require_rearm Gate.cas1 advance begin ◌-ℤ◌
recovered_facts = (refl, refl, refl, refl)

recovered_latch : state_of recovered.gate ≢ state_safety_latched
recovered_latch = omega (arith, recovered_facts.2)

recovered_room : suc (suc (epoch_of recovered.gate)) < epoch_mod
recovered_room = omega (arith, recovered_facts.3)

abbrev overtaken : Module
overtaken = (require_rearm (trip 3 recovered)).0

recovered_overtaken :
    (epoch_of overtaken.gate ≡ suc (epoch_of recovered.gate))
    × ((rearm_loaded (epoch_of recovered.gate) recovered.phase_word overtaken).1 ≡ true)
    × (state_of (rearm_loaded (epoch_of recovered.gate) recovered.phase_word overtaken).0.gate
        ≡ state_normal)
    × ((rearm_loaded (epoch_of recovered.gate) recovered.phase_word overtaken).0.revokes
        ≡ recovered.revokes)
    × ((rearm_loaded (epoch_of recovered.gate) recovered.phase_word overtaken).0.halts
        ≡ recovered.halts)
recovered_overtaken =
    rearm_overtaken recovered 3 recovered_facts.0 recovered_facts.1 recovered_latch recovered_room

abbrev tracking : Module
tracking = begin_halt 2 (pos 0) idle

tracking-IsTracking : IsTracking tracking
tracking-IsTracking = begin_halt-IsTracking 2 (pos 0) idle (omega arith)

tracking_overdue :
    ltb_ℤ tracking.contract.standstill_timeout (pos 1000000001 -ℤ tracking.sup.halt_at) ≡ true
unfolding begin_halt new ◌-ℤ◌
tracking_overdue = refl

on_tick_settles_example :
    (rearm_settled (phase_of (on_tick (pos 1000000001) tracking).phase_word) ≡ true)
    × (phase_epoch_of (on_tick (pos 1000000001) tracking).phase_word ≡ tracking.sup.halt_epoch)
    × ((on_tick (pos 1000000001) tracking).gate ≡ tracking.gate)
    × ((on_tick (pos 1000000001) tracking).revokes ≡ tracking.revokes)
on_tick_settles_example =
    on_tick_settles (pos 1000000001) tracking tracking-IsTracking tracking_overdue

begun_running : (advance (begin false) mcu_acked).0.terminal ≡ false
unfolding advance begin rank is_terminal_fault is_confirmed
begun_running = refl

abbrev zero_record : EventRecord
zero_record = record { kind = tripped; reason = 0; phase = unspecified; epoch = 0 }

abbrev a_record : EventRecord
a_record = record { kind = rearmed; reason = 0; phase = unspecified; epoch = 3 }

-- The second claim is published before the first, and the consumer waits for the first.
abbrev interleaved : List Move
interleaved =
    pushes a_record
    ∷ pushes zero_record
    ∷ publishes 1
    ∷ pops
    ∷ publishes 0
    ∷ pops
    ∷ releases
    ∷ pops
    ∷ []

moves_popped : (moves interleaved (start zero_record)).popped ≡ a_record ∷ zero_record ∷ []
unfolding moves start
moves_popped = refl

moves-start-IsFifo_example :
    ((moves interleaved (start zero_record)).popped
      ≡ upto
          (moves interleaved (start zero_record)).claimed
          (moves interleaved (start zero_record)).ring.deq_pos)
    × ((moves interleaved (start zero_record)).ring.deq_pos
        ≤ (moves interleaved (start zero_record)).ring.enq_pos)
    × ((moves interleaved (start zero_record)).ring.enq_pos
        ≤ freed (moves interleaved (start zero_record)) + size)
    × (freed (moves interleaved (start zero_record))
        ≤ (moves interleaved (start zero_record)).ring.deq_pos)
    × ((moves interleaved (start zero_record)).ring.deq_pos
        ≤ freed (moves interleaved (start zero_record)) + 1)
moves-start-IsFifo_example = moves-start-IsFifo zero_record interleaved (omega arith)

push_settles_example :
    let s = moves interleaved (start zero_record) in
    let t = move s (pushes a_record) in
    (s.ring.enq_pos < freed s + size)
      × (t.ring.enq_pos ≡ s.ring.enq_pos + 1)
      × (t.claimed s.ring.enq_pos ≡ a_record)
      × (t.ring.dropped ≡ s.ring.dropped)
    ⊎ (s.ring.enq_pos ≡ freed s + size)
      × (t.ring.enq_pos ≡ s.ring.enq_pos)
      × (t.ring.dropped ≡ (s.ring.dropped + 1) % word)
push_settles_example = push_settles zero_record interleaved a_record (omega arith)
