-- ===== src/Kernel/Run.antt =====
-- kernel.go: `Run` and what it calls. What the modules, the context and the fatal reports do is the
-- parameter `Env`; the calls of `Start` and `Stop` are collected in a trace.
use nervud.Base.{ℕ, suc, String, Option, none, some, List, [], ◌∷◌, ◌++◌}

-- A module stands as a number.
pub data Action : Type 0 where
  starts stops : ℕ → Action

-- What the selects of `Run` receive: the end of the context, or the failure of a module.
pub data Signal : Type 0 where
  cancelled : Signal
  fatal : String → String → Signal

-- How the wait for one `Stop` ends.
pub data Ending : Type 0 where
  ended timed_out : Ending
  failed : String → Ending

-- `poll k` is what the select before the k-th start finds, `none` its default case; `wait` what
-- the last select receives.
pub record Env : Type 0 where
  pub name : ℕ → String
  pub poll : ℕ → Option Signal
  pub start : ℕ → Option String
  pub stop : ℕ → Ending
  pub wait : Signal

pub data StopError : Type 0 where
  stop_failed : String → String → StopError
  stop_timed_out : String → StopError

pub data Primary : Type 0 where
  failed_at_runtime : String → String → Primary
  start_failed : String → String → Primary

-- The errors of `Run`: with the errors of the shutdown, if any.
pub data Error : Type 0 where
  during_startup completed : List StopError → Error
  joined : Primary → List StopError → Error

-- `Register`.
unfoldable pub register : ℕ → List ℕ → List ℕ
register m modules = modules ++ m ∷ []

module _ (env : Env) where
  unfoldable pub stop_module : ℕ → Option StopError
  stop_module m = elim (env.stop m) [
    | ended ↦ none
    | failed e ↦ some (stop_failed (env.name m) e)
    | timed_out ↦ some (stop_timed_out (env.name m))
  ]

  -- The loop runs from the last module down to the first. No errors are `nil`.
  unfoldable pub stop_all : List ℕ → List Action × List StopError
  unfolding stop_module
  stop_all [] = ([], [])
  stop_all (m ∷ rest) =
      let later = stop_all rest in
      (later.0 ++ stops m ∷ [], later.1 ++ elim (stop_module m) [ none ↦ [] | some e ↦ e ∷ [] ])

  -- The two branches on a signal, with the error that the first gives a failed shutdown.
  unfoldable pub shut_down : (List StopError → Error) → Signal → List ℕ → List Action × Option Error
  unfolding stop_all
  shut_down wrap cancelled started = (
    (stop_all started).0,
    elim (stop_all started).1 [ [] ↦ none | e ∷ es ↦ some (wrap (e ∷ es)) ],
  )
  shut_down wrap (fatal name e) started =
      ((stop_all started).0, some (joined (failed_at_runtime name e) (stop_all started).1))

  -- The loop of `Run` from the k-th module on.
  unfoldable pub run_from : ℕ → List ℕ → List ℕ → List Action × Option Error
  unfolding shut_down
  run_from k started [] = shut_down completed env.wait started
  run_from k started (m ∷ rest) =
      let later = run_from (suc k) (started ++ m ∷ []) rest in
      elim (env.poll k) [
        | some s ↦ shut_down during_startup s started
        | none ↦ elim (env.start m) [
          | some e ↦ (
            starts m ∷ (stop_all started).0,
            some (joined (start_failed (env.name m) e) (stop_all started).1),
          )
          | none ↦ (starts m ∷ later.0, later.1)
        ]
      ]

  unfoldable pub run : List ℕ → List Action × Option Error
  unfolding run_from
  run modules = run_from 0 [] modules
