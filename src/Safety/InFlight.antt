-- ===== src/Safety/InFlight.antt =====
-- module.go: `Rearm` as the steps of a goroutine, among the requests of the others.
use nervud.Base.{ℕ, List, [], ◌∷◌, ◌==◌, if◌then◌else◌}
use nervud.Gate.Defs.{epoch_of}
use nervud.Safety.State.{Module}
use nervud.Safety.Requests.{rearm_loaded}
use nervud.Safety.History.{Request, ask}

-- Where a goroutine is in `Rearm`: not in it, past the gate's `Snapshot`, past the load of the
-- phase too.
pub data Flight : Type 0 where
  not_rearming : Flight
  has_epoch : ℕ → Flight
  has_both : ℕ → ℕ → Flight

pub record World : Type 0 where
  pub safety : Module
  pub flights : ℕ → Flight

-- A request, or the next step of a goroutine's `Rearm`.
pub data Turn : Type 0 where
  asks_for : Request → Turn
  rearms_on : ℕ → Turn

unfoldable pub fly : Flight → Module → Module × Flight
unfolding rearm_loaded
fly not_rearming m = (m, has_epoch (epoch_of m.gate))
fly (has_epoch ep) m = (m, has_both ep m.phase_word)
fly (has_both ep word) m = ((rearm_loaded ep word m).0, not_rearming)

unfoldable pub turn : World → Turn → World
unfolding fly
turn w (asks_for r) = record w { safety = ask r w.safety }
turn w (rearms_on i) = record {
  safety = (fly (w.flights i) w.safety).0;
  flights = λ j. if j == i then (fly (w.flights i) w.safety).1 else w.flights j;
}

unfoldable pub turns : World → List Turn → World
unfolding turn
turns w [] = w
turns w (c ∷ cs) = turns (turn w c) cs
