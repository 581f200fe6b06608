-- ===== src/Safety/Rearm.antt =====
-- module.go: what a successful re-arm has behind it, and what it can never do.
use mathlib.Core.List.{Memᴰ}
use nervud.Base.{
  ℕ, suc, ◌+◌, ◌≤◌, ◌<◌, ◌≡◌, refl, ◌∙◌, ◌++◌, ◌≢◌, inl, inr, Bool, true, false, List, [], ◌∷◌,
  arith, length, subst, ◌⊎◌, Bool-cases, ◌==◌,
}
use nervud.Gate.Defs.{
  epoch_of, state_of, state_normal, state_rearm_required, state_safety_latched, epoch_mod,
}
use nervud.Gate.Defs as Gate
use nervud.Gate.Word.{state_of-pack, epoch_of-pack_self, epoch_of-pack_next}
use nervud.Safety.Phase.{phase_of, phase_epoch_of, rearm_settled, phase_epoch_of-pack_phase}
use nervud.Safety.Contract.{Contract}
use nervud.Safety.State.{Module, new}
use nervud.Safety.Requests.{
  trip, deliver_halt, request_recovery, require_rearm, rearm, rearm_loaded,
}
use nervud.Safety.Invariant.{IsTracking, Inv}
use nervud.Safety.History.{
  Request, trips, delivers, recovers, requires_rearm, ask, Call, run, run-Inv, run-new-Inv,
  run-has_revoker,
}
use nervud.Safety.InFlight.{
  Flight, not_rearming, has_epoch, has_both, World, Turn, asks_for, rearms_on, fly, turn, turns,
}

-- Where `Rearm` succeeds, the phase that it loaded belonged to the epoch that it loaded and had
-- settled, and the gate was in REARM_REQUIRED at the end; it is now NORMAL, and nothing else but the
-- wake-up has changed.
rearm_sound :
    (ep word : ℕ) (m : Module)
    → (rearm_loaded ep word m).1 ≡ true
    → (phase_epoch_of word ≡ ep)
      × (rearm_settled (phase_of word) ≡ true)
      × (state_of m.gate ≡ state_rearm_required)
      × ((rearm_loaded ep word m).0 ≡ record m {
        gate = Gate.pack state_normal (Gate.inc_epoch (epoch_of m.gate));
        super_wake = true;
      })
unfolding rearm_loaded Gate.rearm
rearm_sound ep word m h = ground arith

-- It does succeed there.
rearm_complete :
    (m : Module)
    → phase_epoch_of m.phase_word ≡ epoch_of m.gate
    → rearm_settled (phase_of m.phase_word) ≡ true
    → state_of m.gate ≡ state_rearm_required
    → (rearm m).1 ≡ true
unfolding rearm rearm_loaded Gate.rearm
rearm_complete m e s r = ground arith

-- A refused re-arm records one refusal and changes nothing else.
rearm_refused :
    (m : Module)
    → (rearm m).1 ≡ false
    → (rearm m).0 ≡ record m {
      refusals =
          m.refusals
          ++ record {
            phase = phase_of m.phase_word;
            phase_epoch = phase_epoch_of m.phase_word;
            gate_epoch = epoch_of m.gate;
          }
            ∷ [];
    }
unfolding rearm rearm_loaded Gate.rearm
rearm_refused m h = ground arith

settled-IsTracking :
    (m : Module) → Inv m → rearm_settled (phase_of m.phase_word) ≡ true → IsTracking m
unfolding rearm_settled
settled-IsTracking m (inl v) h = absurd (ground (arith, v.nothing))
settled-IsTracking m (inr v) h = v

halt_epoch_published : (m : Module) → IsTracking m → m.sup.halt_epoch ≡ phase_epoch_of m.phase_word
halt_epoch_published m t =
    rw (t.published, phase_epoch_of-pack_phase m.sup.tracker.phase m.sup.halt_epoch) (omega arith)

new-has_revoker : (g : ℕ) (c : Contract) (b : Bool) → (new g c b).has_revoker ≡ b
unfolding new
new-has_revoker g c b = refl

-- In any history of a module with a lease revoker: let a re-arm load the gate's epoch, then, other
-- steps later, the phase, and then, other steps later, succeed. The leases of the epoch that it
-- loaded were revoked before it loaded the phase. So the latch that it lifts is one whose leases
-- were revoked, or the gate has gone on to another epoch since.
pub rearm_after_revoke :
    (g : ℕ) (c : Contract) (cs ds es : List Call)
    → (rearm_loaded
        (epoch_of (run (new g c true) cs).gate)
        (run (run (new g c true) cs) ds).phase_word
        (run (run (run (new g c true) cs) ds) es)).1
      ≡ true
    → (Memᴰ (epoch_of (run (new g c true) cs).gate) (run (run (new g c true) cs) ds).revokes)
      × (Memᴰ
            (epoch_of (run (run (run (new g c true) cs) ds) es).gate)
            (run (run (new g c true) cs) ds).revokes
          ⊎ epoch_of (run (run (run (new g c true) cs) ds) es).gate
            ≢ epoch_of (run (new g c true) cs).gate)
rearm_after_revoke g c cs ds es h =
    let m = run (run (new g c true) cs) ds in
    let s = rearm_sound _ _ _ h in
    let t =
      settled-IsTracking m (run-Inv (run (new g c true) cs) ds (run-new-Inv g c true cs)) s.1 in
    let there : Memᴰ (epoch_of (run (new g c true) cs).gate) m.revokes =
      subst (λ e. Memᴰ e m.revokes) (halt_epoch_published m t ∙ s.0)
        (t.revoked (
          run-has_revoker (run (new g c true) cs) ds
          ∙ run-has_revoker (new g c true) cs
          ∙ new-has_revoker g c true)) in
    (
      there,
      lifted (epoch_of (run (new g c true) cs).gate) (epoch_of (run m es).gate) m.revokes there,
    )
  where
    lifted : (a b : ℕ) (revokes : List ℕ) → Memᴰ a revokes → Memᴰ b revokes ⊎ b ≢ a
    lifted a b revokes here = elim (Bool-cases (a == b)) [
      | inl e ↦ inl (subst (λ x. Memᴰ x revokes) (ground (arith, e)) here)
      | inr e ↦ inr (λ same. ground (arith, e, same))
    ]

-- A re-arm whose check has passed is overtaken: the gate trips again and is brought to
-- REARM_REQUIRED, before the Supervisor or the Stop Lane has run. The re-arm then succeeds and lifts
-- the new latch, of the next epoch, though no lease was revoked and no halt sent since its check.
-- (While the 56-bit epoch lasts.)
pub rearm_overtaken :
    (m : Module) (reason : ℕ)
    → phase_epoch_of m.phase_word ≡ epoch_of m.gate
    → rearm_settled (phase_of m.phase_word) ≡ true
    → state_of m.gate ≢ state_safety_latched
    → suc (suc (epoch_of m.gate)) < epoch_mod
    → (epoch_of (require_rearm (trip reason m)).0.gate ≡ suc (epoch_of m.gate))
      × ((rearm_loaded (epoch_of m.gate) m.phase_word (require_rearm (trip reason m)).0).1 ≡ true)
      × (state_of
            (rearm_loaded (epoch_of m.gate) m.phase_word (require_rearm (trip reason m)).0).0.gate
          ≡ state_normal)
      × ((rearm_loaded (epoch_of m.gate) m.phase_word (require_rearm (trip reason m)).0).0.revokes
          ≡ m.revokes)
      × ((rearm_loaded (epoch_of m.gate) m.phase_word (require_rearm (trip reason m)).0).0.halts
          ≡ m.halts)
unfolding trip require_rearm rearm_loaded Gate.trip Gate.require_rearm Gate.rearm
rearm_overtaken m reason p s n l =
    let w = Gate.pack state_safety_latched (Gate.inc_epoch (epoch_of m.gate)) in
    let e1 = epoch_of-pack_next 2 m.gate (omega arith) in
    let s1 = state_of-pack 2 (Gate.inc_epoch (epoch_of m.gate)) (omega arith) in
    let e2 = epoch_of-pack_self 4 w in
    let s2 = state_of-pack 4 (epoch_of w) (omega arith) in
    let v = Gate.pack state_rearm_required (epoch_of w) in
    let s3 = state_of-pack 1 (Gate.inc_epoch (epoch_of v)) (omega arith) in
    (
      ground (arith, e1, s1, e2),
      ground (arith, p, s, n, s1, s2),
      ground (arith, p, s, n, s1, s2, s3),
      ground (arith, p, s, n, s1, s2),
      ground (arith, p, s, n, s1, s2),
    )

-- The epoch that the published phase belongs to is not ahead of the gate's.
abbrev pub IsBehind : Module → Type 0
IsBehind m = phase_epoch_of m.phase_word < epoch_of m.gate

-- No re-arm under way has a settled phase of the epoch that it has loaded, nor can load one.
abbrev IsStale : Module → Flight → Type 0
IsStale m not_rearming = Unit
IsStale m (has_epoch ep) = phase_epoch_of m.phase_word < ep
IsStale m (has_both ep word) = phase_epoch_of word < ep

record Latched (w : World) : Type 0 where
  behind : IsBehind w.safety
  latched : state_of w.safety.gate ≢ state_normal
  stale : (i : ℕ) → IsStale w.safety (w.flights i)

ask-IsBehind :
    (r : Request) (m : Module)
    → suc (epoch_of m.gate) < epoch_mod
    → IsBehind m
    → state_of m.gate ≢ state_normal
    → (IsBehind (ask r m))
      × (state_of (ask r m).gate ≢ state_normal)
      × (epoch_of (ask r m).gate ≤ suc (epoch_of m.gate))
unfolding trip deliver_halt request_recovery require_rearm Gate.trip Gate.begin_recovery
    Gate.require_rearm
ask-IsBehind (trips reason) m l b n =
    ground
      (arith, state_of-pack 2 (Gate.inc_epoch (epoch_of m.gate)), epoch_of-pack_next 2 m.gate l)
ask-IsBehind (delivers ok) m l b n = ground arith
ask-IsBehind recovers m l b n =
    ground (arith, state_of-pack 3 (epoch_of m.gate), epoch_of-pack_self 3 m.gate)
ask-IsBehind requires_rearm m l b n =
    ground (arith, state_of-pack 4 (epoch_of m.gate), epoch_of-pack_self 4 m.gate)

ask-phase_word : (r : Request) (m : Module) → (ask r m).phase_word ≡ m.phase_word
unfolding trip deliver_halt request_recovery require_rearm
ask-phase_word (trips reason) m = refl
ask-phase_word (delivers ok) m = ground arith
ask-phase_word recovers m = refl
ask-phase_word requires_rearm m = refl

ask-IsStale : (r : Request) (m : Module) (f : Flight) → IsStale m f → IsStale (ask r m) f
ask-IsStale r m not_rearming h = tt
ask-IsStale r m (has_epoch ep) h = rw (ask-phase_word r m) h
ask-IsStale r m (has_both ep word) h = h

-- The next step of a re-arm leaves the gate and the phase alone, and a stale re-arm is left.
fly_lem :
    (f : Flight) (m : Module)
    → IsBehind m
    → IsStale m f
    → ((fly f m).0.gate ≡ m.gate)
      × ((fly f m).0.phase_word ≡ m.phase_word)
      × (IsStale m (fly f m).1)
unfolding fly rearm_loaded
fly_lem not_rearming m b h = (refl, refl, b)
fly_lem (has_epoch ep) m b h = (refl, refl, h)
fly_lem (has_both ep word) m b h = ground arith

kept-IsStale :
    (m m' : Module) (f : Flight) → m'.phase_word ≡ m.phase_word → IsStale m f → IsStale m' f
kept-IsStale m m' not_rearming e h = tt
kept-IsStale m m' (has_epoch ep) e h = rw e h
kept-IsStale m m' (has_both ep word) e h = h

turn-Latched :
    (c : Turn) (w : World)
    → suc (epoch_of w.safety.gate) < epoch_mod
    → Latched w
    → (Latched (turn w c)) × (epoch_of (turn w c).safety.gate ≤ suc (epoch_of w.safety.gate))
unfolding turn
turn-Latched (asks_for r) w l h =
    let (b, n, e) = ask-IsBehind r w.safety l h.behind h.latched in
    (
      record {
        behind = b;
        latched = n;
        stale = λ i. ask-IsStale r w.safety (w.flights i) (h.stale i);
      },
      e,
    )
turn-Latched (rearms_on i) w l h =
    let (g, p, s) = fly_lem (w.flights i) w.safety h.behind (h.stale i) in
    let m' = (fly (w.flights i) w.safety).0 in
    (
      record {
        behind = rw (g, p) h.behind;
        latched = rw g h.latched;
        stale = λ j. elim (Bool-cases (j == i)) [
          | inl y ↦ rw y (kept-IsStale w.safety m' (fly (w.flights i) w.safety).1 p s)
          | inr y ↦ rw y (kept-IsStale w.safety m' (w.flights j) p (h.stale j))
        ];
      },
      rw g (omega arith),
    )

turns_never_normal :
    (cs : List Turn) (w : World)
    → epoch_of w.safety.gate + length cs < epoch_mod
    → Latched w
    → state_of (turns w cs).safety.gate ≢ state_normal
unfolding turns
turns_never_normal [] w l h = h.latched
turns_never_normal (c ∷ cs) w l h =
    let (h', l') = turn-Latched c w (omega arith) h in
    turns_never_normal cs (turn w c) (omega (arith, l')) h'

-- After a trip of a gate that was not latched, the Supervisor not having run yet, no interleaving
-- of trips, deliveries, recovery requests and the steps of any number of re-arms that begin after
-- the trip brings the gate back to NORMAL: the phase that an earlier halt left behind is no evidence
-- for the new one. (While the 56-bit epoch lasts.)
pub stale_phase_no_rearm :
    (m : Module) (reason : ℕ) (cs : List Turn)
    → phase_epoch_of m.phase_word ≤ epoch_of m.gate
    → state_of m.gate ≢ state_safety_latched
    → suc (epoch_of m.gate) + length cs < epoch_mod
    → state_of
        (turns (record { safety = trip reason m; flights = λ i. not_rearming }) cs).safety.gate
      ≢ state_normal
unfolding trip Gate.trip
stale_phase_no_rearm m reason cs b n l =
    let e = epoch_of-pack_next 2 m.gate (omega arith) in
    let s = state_of-pack 2 (Gate.inc_epoch (epoch_of m.gate)) (omega arith) in
    turns_never_normal cs (record { safety = trip reason m; flights = λ i. not_rearming })
      (ground (arith, e))
      (record { behind = ground (arith, e); latched = ground (arith, s); stale = λ i. tt })
