-- ===== src/Subscription/Handles.antt =====
-- subscription.go: handles over a sequence of calls, and the failures that `Publish` reports.
use nervud.Base.{
  ◌≢◌, ℕ, ◌+◌, ◌≤◌, ◌<◌, ◌≡◌, ap, Bool, true, false, not, ◌&&◌, List, [], ◌∷◌, ◌==◌, arith, All,
  All-imp, Bool-cases, inl, inr, length,
}
use nervud.Subscription.Registry.{
  unspecified, reliable, state, lossy, unlisted, Bytes, word, Key, same_key, DeliveryClass,
  is_reliable, delivery_class_of, Event, event_for, Subscription, Registry, subscribe, unsubscribe,
  publish_to, fan_out, publish, close_conn, close_keys, close_scope, close_provider_endpoint,
}
use nervud.Subscription.History.{
  Call, subscribes, unsubscribes, publishes, conn_closes, scope_closes, endpoint_closes, step, run,
}
use nervud.Subscription.Scoped.{reports}

abbrev pub spares : ℕ → Call → Bool
spares conn (conn_closes c) = not (c == conn)
spares conn _ = true

step_handle :
    (conn : ℕ) (r : Registry) (c : Call)
    → spares conn c ≡ true
    → r.next_id conn + 1 < word
    → (r.next_id conn ≤ (step r c).next_id conn) × ((step r c).next_id conn ≤ r.next_id conn + 1)
unfolding step subscribe unsubscribe publish close_conn close_scope close_provider_endpoint
    close_keys
step_handle conn r (subscribes c sink endpoint key meta) kept small =
    elim (Bool-cases (conn == c)) [
      | inl e ↦
          let same : r.next_id conn ≡ r.next_id c = ap r.next_id (ground (arith, e)) in
          ground (arith, e, same, small)
      | inr e ↦ ground (arith, e)
    ]
step_handle conn r (unsubscribes c id) kept small = ground arith
step_handle conn r (publishes deliver key payload now) kept small = ground arith
step_handle conn r (conn_closes c) kept small = ground (arith, kept)
step_handle conn r (scope_closes c endpoint scope why) kept small = ground arith
step_handle conn r (endpoint_closes c endpoint why) kept small = ground arith

run_handle :
    (conn : ℕ) (cs : List Call) (r : Registry)
    → All (λ c. spares conn c ≡ true) cs
    → r.next_id conn + length cs < word
    → (r.next_id conn ≤ (run cs r).next_id conn)
      × ((run cs r).next_id conn ≤ r.next_id conn + length cs)
unfolding run
run_handle conn [] r kept small = omega arith
run_handle conn (c ∷ cs) r kept small =
    let one = step_handle conn r c kept.0 (omega (arith, small)) in
    let rest = run_handle conn cs (step r c) kept.1 (omega (arith, small, one)) in
    omega (arith, one, rest)

-- While a connection is open, and below 2^64 handles: a handle that it gets later is above, so
-- different from, one that it got before, whatever it has given up and whatever happens between.
pub subscribe_fresh :
    (conn : ℕ) (cs : List Call) (r : Registry) (sink endpoint sink' endpoint' : ℕ) (key key' : Key)
    (meta meta' : DeliveryClass)
    → All (λ c. spares conn c ≡ true) cs
    → r.next_id conn + length cs + 2 < word
    → let first = subscribe conn sink endpoint key meta r in
      first.1 < (subscribe conn sink' endpoint' key' meta' (run cs first.0)).1
unfolding subscribe
subscribe_fresh conn cs r sink endpoint sink' endpoint' key key' meta meta' kept small =
    let first = subscribe conn sink endpoint key meta r in
    let got : first.0.next_id conn ≡ r.next_id conn + 1 = ground (arith, small) in
    let later = run_handle conn cs first.0 kept (omega (arith, got, small)) in
    omega (arith, got, later, small)

module _ (deliver : ℕ → Event → Bool) where
  fan_out-reports :
      (key : Key) (payload : Bytes) (now : ℕ) (subs : List Subscription)
      → All
          (λ s.
            (s.in_key && same_key s.key key) ≡ true
            → is_reliable (delivery_class_of s.meta) ≡ true
            → deliver s.sink (event_for key.event_id s payload now) ≡ false
            → reports (fan_out deliver key payload now subs).1 s ≡ true)
          subs
  unfolding fan_out publish_to
  fan_out-reports key payload now [] = tt
  fan_out-reports key payload now (x ∷ subs) = (
    (λ a b c. ground (arith, a, b, c)),
    All-imp
        (λ s.
          (s.in_key && same_key s.key key) ≡ true
          → is_reliable (delivery_class_of s.meta) ≡ true
          → deliver s.sink (event_for key.event_id s payload now) ≡ false
          → reports (fan_out deliver key payload now subs).1 s ≡ true)
        (λ s.
          (s.in_key && same_key s.key key) ≡ true
          → is_reliable (delivery_class_of s.meta) ≡ true
          → deliver s.sink (event_for key.event_id s payload now) ≡ false
          → reports (fan_out deliver key payload now (x ∷ subs)).1 s ≡ true)
        subs (λ s hs a b c. ground (arith, hs a b c)) (fan_out-reports key payload now subs),
  )

-- Every class but STATE and LOSSY is taken for RELIABLE.
delivery_class_of_reliable :
    (c : DeliveryClass) → c ≢ state → c ≢ lossy → is_reliable (delivery_class_of c) ≡ true
unfolding delivery_class_of
delivery_class_of_reliable unspecified n l = ground arith
delivery_class_of_reliable reliable n l = ground arith
delivery_class_of_reliable state n l = absurd (ground (arith, n))
delivery_class_of_reliable lossy n l = absurd (ground (arith, l))
delivery_class_of_reliable (unlisted k) n l = ground arith

-- `Publish` reports for closing every subscription to the key whose sink does not take the event,
-- unless its class is STATE or LOSSY: RELIABLE ones, and those whose class is not given or unknown.
pub publish-reports :
    (deliver : ℕ → Event → Bool) (key : Key) (payload : Bytes) (now : ℕ) (r : Registry)
    → All
        (λ s.
          (s.in_key && same_key s.key key) ≡ true
          → s.meta ≢ state
          → s.meta ≢ lossy
          → deliver s.sink (event_for key.event_id s payload now) ≡ false
          → reports (publish deliver key payload now r).1 s ≡ true)
        r.subs
unfolding publish
publish-reports deliver key payload now r =
    All-imp
      (λ s.
        (s.in_key && same_key s.key key) ≡ true
        → is_reliable (delivery_class_of s.meta) ≡ true
        → deliver s.sink (event_for key.event_id s payload now) ≡ false
        → reports (fan_out deliver key payload now r.subs).1 s ≡ true)
      (λ s.
        (s.in_key && same_key s.key key) ≡ true
        → s.meta ≢ state
        → s.meta ≢ lossy
        → deliver s.sink (event_for key.event_id s payload now) ≡ false
        → reports (fan_out deliver key payload now r.subs).1 s ≡ true)
      r.subs (λ s h a n l c. h a (delivery_class_of_reliable s.meta n l) c)
      (fan_out-reports deliver key payload now r.subs)
