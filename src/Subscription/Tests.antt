-- ===== src/Subscription/Tests.antt =====
-- subscription.go: the theorems at concrete registries.
use nervud.Base.{
  ◌≢◌, ℕ, ◌<◌, ◌≡◌, refl, Bool, true, false, not, ◌&&◌, List, [], ◌∷◌, ◌==◌, arith, All, map,
  length,
}
use nervud.Subscription.Registry.{
  Bytes, Key, same_key, unspecified, reliable, state, lossy, Event, event_for, Reason, given, new,
  subscribe, publish, in_scope, close_scope, close_provider_endpoint, len,
}
use nervud.Subscription.History.{Call, subscribes, unsubscribes, publishes, run}
use nervud.Subscription.Accounting.{IsCounted, run-new-IsCounted}
use nervud.Subscription.Index.{IsIndexed}
use nervud.Subscription.Scoped.{reports}
use nervud.Subscription.Indexed.{run-new-IsIndexed, Closes, close_scope_reached}
use nervud.Subscription.Handles.{subscribe_fresh, publish-reports}

abbrev key : Key
key = record { provider_conn = 1; endpoint_id = 4; event_id = 2; scope = 30 }

-- Sink 8 takes nothing; every other takes everything.
abbrev slow : ℕ → Event → Bool
slow sink ev = not (sink == 8)

abbrev all_take : ℕ → Event → Bool
all_take sink ev = true

abbrev payload : Bytes
payload = 5 ∷ []

abbrev calls : List Call
calls =
    subscribes 7 8 11 key lossy
    ∷ subscribes 7 9 12 key unspecified
    ∷ publishes slow key payload 100
    ∷ publishes slow key payload 101
    ∷ publishes all_take key payload 102
    ∷ unsubscribes 7 2
    ∷ []

-- The third event says that two were dropped before it.
calls_dropped :
    map (λ s. map (λ e. e.dropped) s.delivered) (run calls new).subs
    ≡ (2 ∷ []) ∷ (0 ∷ 0 ∷ 0 ∷ []) ∷ []
unfolding run new
calls_dropped = refl

calls-len : len (run calls new) ≡ 1
unfolding run new len
calls-len = refl

run-new-IsCounted_example : All IsCounted (run calls new).subs
run-new-IsCounted_example = run-new-IsCounted calls

run-new-IsIndexed_example : IsIndexed (length calls) (run calls new)
run-new-IsIndexed_example = run-new-IsIndexed calls (omega arith)

abbrev scope : Key → Bool
scope = in_scope 1 4 30

abbrev reason : Reason
reason = given 3

close_scope_reached_example :
    (Closes
      (λ k. k.provider_conn == 1 && (k.endpoint_id == 4 && k.scope == 30))
      (run calls new)
      (close_scope 1 4 30 reason (run calls new)))
    × (Closes
        (λ k. k.provider_conn == 1 && k.endpoint_id == 4)
        (run calls new)
        (close_provider_endpoint 1 4 reason (run calls new)))
close_scope_reached_example = close_scope_reached calls 1 4 30 reason (omega arith)

subscribe_fresh_example :
    (subscribe 7 8 11 key lossy new).1
    < (subscribe 7 9 12 key state (run calls (subscribe 7 8 11 key lossy new).0)).1
unfolding new
subscribe_fresh_example =
    subscribe_fresh 7 calls new 8 11 9 12 key key lossy state
      (refl, (refl, (refl, (refl, (refl, (refl, tt)))))) (omega arith)

-- The slow sink has a subscription whose class is not given.
abbrev one_reliable : List Call
one_reliable = subscribes 7 8 11 key unspecified ∷ subscribes 7 9 11 key reliable ∷ []

publish-reports_example :
    All
      (λ s.
        (s.in_key && same_key s.key key) ≡ true
        → s.meta ≢ state
        → s.meta ≢ lossy
        → slow s.sink (event_for key.event_id s payload 7) ≡ false
        → reports (publish slow key payload 7 (run one_reliable new)).1 s ≡ true)
      (run one_reliable new).subs
publish-reports_example = publish-reports slow key payload 7 (run one_reliable new)
