-- ===== src/Kernel/Tests.antt =====
-- kernel.go: the theorems at concrete modules.
use nervud.Base.{ℕ, ◌≡◌, refl, none, some, List, [], ◌∷◌, ◌==◌, if◌then◌else◌}
use nervud.Kernel.Run.{
  starts, stops, cancelled, ended, timed_out, Env, stop_timed_out, start_failed, joined, run,
}
use nervud.Kernel.Order.{HasRun, run-HasRun}

-- Of three modules the last does not start, and the first does not stop in time.
abbrev env : Env
env = record {
  name = λ m. if m == 0 then "audit" else "ipc";
  poll = λ k. none;
  start = λ m. if m == 2 then some "no socket" else none;
  stop = λ m. if m == 0 then timed_out else ended;
  wait = cancelled;
}

abbrev modules : List ℕ
modules = 0 ∷ 1 ∷ 2 ∷ 3 ∷ []

run_rolls_back : run env modules ≡ (
  starts 0 ∷ starts 1 ∷ starts 2 ∷ stops 1 ∷ stops 0 ∷ [],
  some (joined (start_failed "ipc" "no socket") (stop_timed_out "audit" ∷ [])),
)
unfolding run
run_rolls_back = refl

run_planned : run env (1 ∷ 3 ∷ []) ≡ (starts 1 ∷ starts 3 ∷ stops 3 ∷ stops 1 ∷ [], none)
unfolding run
run_planned = refl

run-HasRun_example : HasRun env 0 [] modules (run env modules)
run-HasRun_example = run-HasRun env modules
