-- ===== src/Kernel/Order.antt =====
-- kernel.go: the order of the starts and stops, and what the result says of them.
use nervud.Base.{
  ℕ, suc, ◌≤◌, ◌≡◌, refl, ap, sym, ◌∙◌, ◌≢◌, Option, none, some, List, [], ◌∷◌, ◌++◌, map, arith,
  length, All, ◌+◌, ◌⊎◌, subst, Option-cases, inl, inr,
}
use mathlib.Core.List.{reverse, reverse-cons, map-append, append-nil, append_assoc}
use nervud.Kernel.Run.{
  Action, starts, stops, Signal, cancelled, fatal, Env, StopError, Error, during_startup, completed,
  joined, stop_module, stop_all, shut_down, run_from, run,
}

abbrev pub errors_of : Option Error → List StopError
errors_of none = []
errors_of (some (during_startup es)) = es
errors_of (some (completed es)) = es
errors_of (some (joined p es)) = es

module _ (env : Env) where
  -- The stop errors of modules, in their order.
  unfoldable pub failures : List ℕ → List StopError
  unfolding stop_module
  failures [] = []
  failures (m ∷ ms) = elim (stop_module env m) [ none ↦ failures ms | some e ↦ e ∷ failures ms ]

  -- No signal before the starts of modules, the first of them the k-th.
  abbrev pub IsQuiet : ℕ → List ℕ → Type 0
  IsQuiet k [] = Unit
  IsQuiet k (m ∷ ms) = (env.poll k ≡ none) × IsQuiet (suc k) ms

  -- Where a run without a failed start gets its signal: where all modules have started from the
  -- last select, else from the one before the start that does not come.
  abbrev pub IsHeard : ℕ → List ℕ → Signal → Type 0
  IsHeard k left s = ((left ≡ []) × (env.wait ≡ s)) ⊎ ((left ≢ []) × (env.poll k ≡ some s))

  -- How a run from the k-th module on has gone: the modules that started, the one whose start
  -- failed, if any, and those that were not reached.
  pub record HasRun (k : ℕ) (before modules : List ℕ) (result : List Action × Option Error)
      : Type 0 where
    pub started : List ℕ
    pub failed : List ℕ
    pub left : List ℕ
    pub split : modules ≡ started ++ failed ++ left
    pub trace : result.0 ≡ map starts (started ++ failed) ++ map stops (reverse (before ++ started))
    pub well : All (λ m. env.start m ≡ none) started
    pub badly : All (λ m. env.start m ≢ none) failed
    pub one : length failed ≤ 1
    pub collected : errors_of result.1 ≡ failures (reverse (before ++ started))
    pub clean : result.1 ≡ none → failed ≡ []
    pub quiet : IsQuiet k (started ++ failed)
    pub heard :
        failed ≡ []
        → (s : Signal) × (IsHeard (k + length started) left s) × (result.1 ≡ none → s ≡ cancelled)

  failures-append : (xs ys : List ℕ) → failures (xs ++ ys) ≡ failures xs ++ failures ys
  unfolding failures
  failures-append [] ys = refl
  failures-append (x ∷ xs) ys = elim (Option-cases (stop_module env x)) [
    | inl e ↦ ground (arith, e, failures-append xs ys)
    | inr (w, e) ↦ ground (arith, e, failures-append xs ys)
  ]

  stop_all_lem :
      (ms : List ℕ)
      → ((stop_all env ms).0 ≡ map stops (reverse ms))
        × ((stop_all env ms).1 ≡ failures (reverse ms))
  unfolding stop_all failures
  stop_all_lem [] = (refl, refl)
  stop_all_lem (m ∷ ms) = (
    ap (λ t. t ++ stops m ∷ []) (stop_all_lem ms).0
        ∙ sym (map-append (λ x. stops x) (reverse ms) (m ∷ []))
        ∙ ap (map stops) (sym (reverse-cons m ms)),
    ap (λ t. t ++ failures (m ∷ [])) (stop_all_lem ms).1
        ∙ sym (failures-append (reverse ms) (m ∷ []))
        ∙ ap failures (sym (reverse-cons m ms)),
  )

  shut_down-HasRun :
      (wrap : List StopError → Error) (s : Signal) (k : ℕ) (before modules : List ℕ)
      → IsHeard k modules s
      → ((es : List StopError) → errors_of (some (wrap es)) ≡ es)
      → HasRun k before modules (shut_down env wrap s before)
  unfolding shut_down
  shut_down-HasRun wrap s k before modules by wraps = record {
    started = [];
    failed = [];
    left = modules;
    split = refl;
    trace = traced s ∙ (stop_all_lem before).0 ∙ here;
    well = tt;
    badly = tt;
    one = omega arith;
    collected =
        held s ∙ (stop_all_lem before).1 ∙ ap (λ l. failures (reverse l)) (sym (append-nil before));
    clean = λ e. refl;
    quiet = tt;
    heard = λ e. (s, subst (λ j. IsHeard j modules s) (omega arith) by, only s);
  }
    where
      here : map stops (reverse before) ≡ map stops (reverse (before ++ []))
      here = ap (λ l. map stops (reverse l)) (sym (append-nil before))

      only : (s : Signal) → (shut_down env wrap s before).1 ≡ none → s ≡ cancelled
      only cancelled e = refl
      only (fatal n w) e = absurd cc

      traced : (s : Signal) → (shut_down env wrap s before).0 ≡ (stop_all env before).0
      traced cancelled = refl
      traced (fatal n e) = refl

      held : (s : Signal) → errors_of (shut_down env wrap s before).1 ≡ (stop_all env before).1
      held cancelled = kept (stop_all env before).1
        where
          kept :
              (es : List StopError)
              → errors_of
                  (elim es as (λ _. Option Error) [ [] ↦ none | e ∷ r ↦ some (wrap (e ∷ r)) ])
                ≡ es
          kept [] = refl
          kept (e ∷ r) = wraps (e ∷ r)
      held (fatal n e) = refl

  run_from-HasRun :
      (k : ℕ) (before modules : List ℕ) → HasRun k before modules (run_from env k before modules)
  unfolding run_from
  run_from-HasRun k before [] =
      shut_down-HasRun completed env.wait k before [] (inl (refl, refl)) (λ es. refl)
  run_from-HasRun k before (m ∷ rest) = elim (Option-cases (env.poll k)) [
    | inr (s, e) ↦
        rw (e, run_from)
          (shut_down-HasRun during_startup s k before (m ∷ rest) (inr ((λ n. cc), e)) (λ es. refl))
    | inl e ↦ elim (Option-cases (env.start m)) [
      | inr (w, es) ↦
          rw (e, es, run_from)
            (record {
              started = [];
              failed = m ∷ [];
              left = rest;
              split = refl;
              trace =
                  ap (λ t. starts m ∷ t)
                    ((stop_all_lem before).0
                      ∙ ap (λ l. map stops (reverse l)) (sym (append-nil before)));
              well = tt;
              badly = ((λ n. cc), tt);
              one = omega arith;
              collected =
                  (stop_all_lem before).1
                  ∙ ap (λ l. failures (reverse l)) (sym (append-nil before));
              clean = λ n. cc;
              quiet = (e, tt);
              heard = λ n. cc;
            })
      | inl es ↦
          let h = run_from-HasRun (suc k) (before ++ m ∷ []) rest in
          let join : (before ++ m ∷ []) ++ h.started ≡ before ++ m ∷ h.started =
            append_assoc before (m ∷ []) h.started in
          rw (e, es, run_from)
            (record {
              started = m ∷ h.started;
              failed = h.failed;
              left = h.left;
              split = ap (λ l. m ∷ l) h.split;
              trace =
                  ap (λ t. starts m ∷ t) h.trace
                  ∙ ap (λ l. map starts (m ∷ h.started ++ h.failed) ++ map stops (reverse l)) join;
              well = (es, h.well);
              badly = h.badly;
              one = h.one;
              collected = h.collected ∙ ap (λ l. failures (reverse l)) join;
              clean = h.clean;
              quiet = (e, h.quiet);
              heard = λ f.
                  let (s, by, only) = h.heard f in
                  (s, subst (λ j. IsHeard j h.left s) (omega arith) by, only);
            })
    ]
  ]

  -- Over any behaviour of the modules, signals and timeouts: `Run` starts the modules in their
  -- order, finding no signal before any of the starts, up to one that fails or up to a signal, the
  -- one of the last select where all have started. It then stops exactly those whose start
  -- succeeded, each once, in the reverse order, on past a failed or timed out stop, and its result
  -- has the error of every such stop, in that order. It is `nil` only if no start failed and the
  -- signal was the cancellation.
  pub run-HasRun : (modules : List ℕ) → HasRun 0 [] modules (run env modules)
  unfolding run
  run-HasRun modules = run_from-HasRun 0 [] modules
