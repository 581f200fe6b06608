-- ===== src/Subscription/Indexed.antt =====
-- subscription.go: the two maps agree over any calls, and handles are not issued again.
use nervud.Base.{
  All-map, ℕ, ◌+◌, ◌%◌, ◌≤◌, ◌<◌, ◌≡◌, refl, ap, sym, subst, ◌∙◌, Bool, true, false, List, [], ◌∷◌,
  ◌++◌, ◌==◌, ◌&&◌, arith, map, All, All-append, All-imp, All-both, Bool-cases, inl, inr, length,
}
use nervud.Subscription.Registry.{
  Bytes, word, Key, same_key, DeliveryClass, delivery_class_of, Event, Subscription, Registry, new,
  subscription, at, subscribe, unsubscribe, names, publish_to, visit, fan_out, publish, belongs,
  leave, close_conn, closed_of, close_keys, in_scope, of_endpoint, close_scope,
  close_provider_endpoint, Closed, Reason, len, count,
}
use nervud.Subscription.History.{
  Call, subscribes, unsubscribes, publishes, conn_closes, scope_closes, endpoint_closes, step, run,
}
use nervud.Subscription.Index.{IsOne, IsIndexed, Keeps, map-IsIndexed, gone_if, gone_if-IsIndexed}
use nervud.Subscription.Closing.{unsubscribe_exact}
use nervud.Subscription.Scoped.{close_keys_exact}

module _ (deliver : ℕ → Event → Bool) where
  visit-Keeps :
      (key : Key) (payload : Bytes) (now : ℕ) (s : Subscription)
      → Keeps s (visit deliver key payload now s).0
  unfolding publish_to delivery_class_of same_key
  visit-Keeps key payload now s = record {
    pointer = ground arith;
    id = ground arith;
    conn = ground arith;
    listed = ground arith;
  }

  visit_flags :
      (key : Key) (payload : Bytes) (now : ℕ) (s : Subscription)
      → s.in_key ≡ s.in_conn
      → (visit deliver key payload now s).0.in_key ≡ (visit deliver key payload now s).0.in_conn
  unfolding publish_to delivery_class_of same_key
  visit_flags key payload now s e = ground (arith, e)

  fan_out-map :
      (key : Key) (payload : Bytes) (now : ℕ) (subs : List Subscription)
      → (fan_out deliver key payload now subs).0
        ≡ map (λ s. (visit deliver key payload now s).0) subs
  unfolding fan_out
  fan_out-map key payload now [] = refl
  fan_out-map key payload now (s ∷ rest) =
      ap (λ l. (visit deliver key payload now s).0 ∷ l) (fan_out-map key payload now rest)

-- Two subscriptions with different identities and handles.
IsOne-apart :
    (t s : Subscription)
    → t.pointer < s.pointer
    → (t.in_conn ≡ true → t.conn ≡ s.conn → t.id < s.id)
    → IsOne t s × IsOne s t
IsOne-apart t s old below = (
  ((λ e. ground (arith, e, old)), (λ a b c d. ground (arith, below a c, d))),
  ((λ e. ground (arith, e, old)), (λ a b c d. ground (arith, below b (sym c), d))),
)

at_same : (conn v : ℕ) (f : ℕ → ℕ) (c : ℕ) → c ≡ conn → at conn v f c ≡ v
at_same conn v f c e = ground (arith, e)

at_other : (conn v : ℕ) (f : ℕ → ℕ) (c : ℕ) → (c == conn) ≡ false → at conn v f c ≡ f c
at_other conn v f c e = ground (arith, e)

-- What raises one entry keeps what was below it.
at_above : (conn v : ℕ) (f : ℕ → ℕ) (c k : ℕ) → f conn ≤ v → k ≤ f c → k ≤ at conn v f c
at_above conn v f c k up h = elim (Bool-cases (c == conn)) [
  | inl e ↦
      let same : c ≡ conn = ground (arith, e) in
      omega (arith, at_same conn v f c same, ap f same, h, up)
  | inr e ↦ omega (arith, at_other conn v f c e, h)
]

at_below : (conn v n : ℕ) (f : ℕ → ℕ) (c : ℕ) → v ≤ n → f c ≤ n → at conn v f c ≤ n
at_below conn v n f c hv hf = ground (arith, hv, hf)

-- An entry for another connection does not change, and the handles grow by one at most.
subscribe-IsIndexed :
    (n conn sink endpoint : ℕ) (key : Key) (meta : DeliveryClass) (r : Registry)
    → n + 1 < word
    → IsIndexed n r
    → IsIndexed (n + 1) (subscribe conn sink endpoint key meta r).0
unfolding subscribe
subscribe-IsIndexed n conn sink endpoint key meta r small h =
    let id = (r.next_id conn + 1) % word in
    let s = subscription r.allocated id conn sink endpoint key meta in
    let next : id ≡ r.next_id conn + 1 = omega (arith, small, h.few conn) in
    record {
      agree = All-append (λ t. t.in_key ≡ t.in_conn) r.subs (s ∷ []) h.agree (refl, tt);
      apart =
          All-append (λ t. All (IsOne t) (r.subs ++ s ∷ [])) r.subs (s ∷ [])
            (All-imp
              (λ t.
                (All (IsOne t) r.subs × (t.pointer < r.allocated))
                × (t.in_conn ≡ true → t.id ≤ r.next_id t.conn))
              (λ t. All (IsOne t) (r.subs ++ s ∷ [])) r.subs
              (λ t ht. All-append (IsOne t) r.subs (s ∷ []) ht.0.0 (
                (IsOne-apart t s ht.0.1 (λ a c. omega (arith, next, ht.1 a, ap r.next_id c))).0,
                tt,
              ))
              (All-both (λ t. All (IsOne t) r.subs × (t.pointer < r.allocated))
                (λ t. t.in_conn ≡ true → t.id ≤ r.next_id t.conn) r.subs
                (All-both (λ t. All (IsOne t) r.subs) (λ t. t.pointer < r.allocated) r.subs h.apart
                  h.older)
                h.issued))
            (
              All-append (IsOne s) r.subs (s ∷ [])
                  (All-imp
                    (λ t. (t.pointer < r.allocated) × (t.in_conn ≡ true → t.id ≤ r.next_id t.conn))
                    (IsOne s) r.subs
                    (λ t ht.
                      (IsOne-apart t s ht.0 (λ a c. omega (arith, next, ht.1 a, ap r.next_id c))).1)
                    (All-both (λ t. t.pointer < r.allocated)
                      (λ t. t.in_conn ≡ true → t.id ≤ r.next_id t.conn) r.subs h.older h.issued))
                  (((λ e. refl), (λ a b c d. refl)), tt),
              tt,
            );
      older =
          All-append (λ t. t.pointer < r.allocated + 1) r.subs (s ∷ [])
            (All-imp (λ t. t.pointer < r.allocated) (λ t. t.pointer < r.allocated + 1) r.subs
              (λ t ht. omega (arith, ht)) h.older)
            (omega arith, tt);
      issued =
          All-append (λ t. t.in_conn ≡ true → t.id ≤ at conn id r.next_id t.conn) r.subs (s ∷ [])
            (All-imp (λ t. t.in_conn ≡ true → t.id ≤ r.next_id t.conn)
              (λ t. t.in_conn ≡ true → t.id ≤ at conn id r.next_id t.conn) r.subs
              (λ t ht a. at_above conn id r.next_id t.conn t.id (omega (arith, next)) (ht a))
              h.issued)
            ((λ a. omega (arith, at_same conn id r.next_id conn refl)), tt);
      few = λ c.
          at_below conn id (n + 1) r.next_id c (omega (arith, next, h.few conn))
            (omega (arith, h.few c));
    }

later-IsIndexed : (n : ℕ) (r : Registry) → IsIndexed n r → IsIndexed (n + 1) r
later-IsIndexed n r h = record {
  agree = h.agree;
  apart = h.apart;
  older = h.older;
  issued = h.issued;
  few = λ c. omega (arith, h.few c);
}

close_conn-IsIndexed :
    (n conn : ℕ) (r : Registry) → IsIndexed n r → IsIndexed n (close_conn conn r).0
unfolding close_conn
close_conn-IsIndexed n conn r h =
    let k = gone_if-IsIndexed n r (belongs conn) h in
    record {
      agree = k.agree;
      apart = k.apart;
      older = k.older;
      issued =
          All-map (λ t. t.in_conn ≡ true → t.id ≤ at conn 0 r.next_id t.conn) (leave conn) r.subs
            (All-imp (λ t. t.in_conn ≡ true → t.id ≤ r.next_id t.conn)
              (λ t.
                (leave conn t).in_conn ≡ true
                → (leave conn t).id ≤ at conn 0 r.next_id (leave conn t).conn)
              r.subs stays h.issued);
      few = λ c. at_below conn 0 n r.next_id c (omega arith) (h.few c);
    }
  where
    stays :
        (t : Subscription)
        → (t.in_conn ≡ true → t.id ≤ r.next_id t.conn)
        → (leave conn t).in_conn ≡ true
        → (leave conn t).id ≤ at conn 0 r.next_id (leave conn t).conn
    stays t old a = ground (arith, old, a)

step-IsIndexed :
    (n : ℕ) (r : Registry) (c : Call) → n + 1 < word → IsIndexed n r → IsIndexed (n + 1) (step r c)
unfolding step publish close_scope close_provider_endpoint
step-IsIndexed n r (subscribes conn sink endpoint key meta) small h =
    subscribe-IsIndexed n conn sink endpoint key meta r small h
step-IsIndexed n r (unsubscribes conn id) small h = later-IsIndexed n (unsubscribe conn id r).0 (
    subst (IsIndexed n) (sym (unsubscribe_exact n conn id r h))
      (gone_if-IsIndexed n r (names conn id) h))
step-IsIndexed n r (publishes deliver key payload now) small h =
    let sees : Subscription → Subscription = λ s. (visit deliver key payload now s).0 in
    subst (λ l. IsIndexed (n + 1) (record r { subs = l }))
      (sym (fan_out-map deliver key payload now r.subs))
      (later-IsIndexed n (record r { subs = map sees r.subs })
        (map-IsIndexed n r sees (visit-Keeps deliver key payload now)
          (visit_flags deliver key payload now) h))
step-IsIndexed n r (conn_closes conn) small h =
    later-IsIndexed n (close_conn conn r).0 (close_conn-IsIndexed n conn r h)
step-IsIndexed n r (scope_closes conn endpoint scope why) small h =
    closes (in_scope conn endpoint scope) why
  where
    closes : (aims : Key → Bool) (why : Reason) → IsIndexed (n + 1) (close_keys aims why r).0
    closes aims why = subst (IsIndexed (n + 1)) (sym (close_keys_exact n aims why r h)) (
        later-IsIndexed n (record r { subs = map (gone_if (λ s. aims s.key)) r.subs })
          (gone_if-IsIndexed n r (λ s. aims s.key) h))
step-IsIndexed n r (endpoint_closes conn endpoint why) small h =
    subst (IsIndexed (n + 1)) (sym (close_keys_exact n (of_endpoint conn endpoint) why r h)) (
      later-IsIndexed n
        (record r { subs = map (gone_if (λ s. of_endpoint conn endpoint s.key)) r.subs })
        (gone_if-IsIndexed n r (λ s. of_endpoint conn endpoint s.key) h))

run-IsIndexed :
    (cs : List Call) (n : ℕ) (r : Registry)
    → n + length cs < word
    → IsIndexed n r
    → IsIndexed (n + length cs) (run cs r)
unfolding run
run-IsIndexed [] n r small h = subst (λ k. IsIndexed k r) (omega arith) h
run-IsIndexed (c ∷ cs) n r small h =
    subst (λ k. IsIndexed k (run cs (step r c))) (omega arith)
      (run-IsIndexed cs (n + 1) (step r c) (omega (arith, small))
        (step-IsIndexed n r c (omega (arith, small)) h))

-- Over fewer than 2^64 calls on an empty registry, the two maps hold the same subscriptions, no two
-- of one connection under one handle, and no handle is above the connection's counter.
pub run-new-IsIndexed : (cs : List Call) → length cs < word → IsIndexed (length cs) (run cs new)
unfolding new
run-new-IsIndexed cs small =
    subst (λ k. IsIndexed k (run cs new)) (omega arith)
      (run-IsIndexed cs 0 new (omega (arith, small))
        (record { agree = tt; apart = tt; older = tt; issued = tt; few = λ c. omega arith }))

count_gone :
    (aims : Key → Bool) (why : Reason) (subs : List Subscription)
    → All (λ s. s.in_key ≡ s.in_conn) subs
    → count (map (gone_if (λ s. aims s.key)) subs) + length (closed_of aims why subs) ≡ count subs
unfolding closed_of
count_gone aims why [] h = omega arith
count_gone aims why (s ∷ subs) h = ground (arith, h.0, count_gone aims why subs h.1)

-- The subscriptions under the selected keys are out of both maps, no other is changed, and as many
-- are reported as the number of subscriptions falls by.
abbrev pub Closes : (Key → Bool) → Registry → Registry × List Closed → Type 0
Closes aims r x =
    (x.0 ≡ record r { subs = map (gone_if (λ s. aims s.key)) r.subs })
    × (len x.0 + length x.1 ≡ len r)

close_keys_reached :
    (cs : List Call) (aims : Key → Bool) (why : Reason)
    → length cs < word
    → Closes aims (run cs new) (close_keys aims why (run cs new))
unfolding len close_keys
close_keys_reached cs aims why small =
    let h = run-new-IsIndexed cs small in
    let exact = close_keys_exact (length cs) aims why (run cs new) h in
    (
      exact,
      ap (λ r. count r.subs + length (close_keys aims why (run cs new)).1) exact
          ∙ closed_count aims why (run cs new) h.agree,
    )
  where
    closed_count :
        (aims : Key → Bool) (why : Reason) (r : Registry)
        → All (λ s. s.in_key ≡ s.in_conn) r.subs
        → count (map (gone_if (λ s. aims s.key)) r.subs) + length (close_keys aims why r).1
          ≡ count r.subs
    closed_count aims why r h = count_gone aims why r.subs h

-- On a registry that is reached by fewer than 2^64 calls: `CloseScope` closes exactly the
-- subscriptions to keys of the provider's connection, the endpoint and the scope, and
-- `CloseProviderEndpoint` exactly those of the connection and the endpoint. Those are out of both
-- maps, no other is changed, and as many are reported as the number of subscriptions falls by.
pub close_scope_reached :
    (cs : List Call) (conn endpoint scope : ℕ) (why : Reason)
    → length cs < word
    → (Closes
        (λ k. k.provider_conn == conn && (k.endpoint_id == endpoint && k.scope == scope))
        (run cs new)
        (close_scope conn endpoint scope why (run cs new)))
      × (Closes
          (λ k. k.provider_conn == conn && k.endpoint_id == endpoint)
          (run cs new)
          (close_provider_endpoint conn endpoint why (run cs new)))
unfolding close_scope close_provider_endpoint
close_scope_reached cs conn endpoint scope why small = (
  close_keys_reached cs (in_scope conn endpoint scope) why small,
  close_keys_reached cs (of_endpoint conn endpoint) why small,
)
