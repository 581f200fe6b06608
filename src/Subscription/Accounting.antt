-- ===== src/Subscription/Accounting.antt =====
-- subscription.go: the sequence numbers and drop counts of the delivered events, over any calls.
use nervud.Base.{
  if◌then◌else◌, ◌==◌, ℕ, ◌+◌, ◌%◌, ◌≡◌, refl, subst, Bool, ◌⊎◌, true, false, ◌&&◌, Option, none,
  some, List, [], ◌∷◌, ◌++◌, arith, map, All, All-append, All-imp, All-map, Bool-cases, inl, inr,
}
use nervud.Subscription.Registry.{
  names, belongs, in_scope, of_endpoint, subscription, took, refuse, reliable, state, lossy,
  unspecified, unlisted, Bytes, word, Key, same_key, DeliveryClass, is_reliable, delivery_class_of,
  Event, Subscription, Registry, new, subscribe, unsubscribe, find_named, unlist,
  remove_from_key_locked, event_for, publish_to, visit, fan_out, publish, close_conn, Closed,
  unlist_all, closed_of, close_keys, close_scope, close_provider_endpoint, Reason,
}
use nervud.Subscription.History.{
  Call, subscribes, unsubscribes, publishes, conn_closes, scope_closes, endpoint_closes, step, run,
}

-- The events count on from a sequence number: each one is as far from the one before it as the
-- number that it says was dropped between them.
abbrev pub IsGapless : ℕ → List Event → Type 0
IsGapless n [] = Unit
IsGapless n (e ∷ es) = (e.sequence ≡ (n + e.dropped + 1) % word) × IsGapless e.sequence es

abbrev pub last_sequence : ℕ → List Event → ℕ
last_sequence n [] = n
last_sequence n (e ∷ es) = last_sequence e.sequence es

abbrev IsOwn : Subscription → Event → Type 0
IsOwn s e =
    (e.subscription_id ≡ s.id)
    × (e.endpoint_id ≡ s.caller_endpoint_id)
    × (e.event_id ≡ s.key.event_id)

-- What a subscriber of a class that may drop events can conclude from those it has.
pub record IsCounted (s : Subscription) : Type 0 where
  pub gapless : is_reliable (delivery_class_of s.meta) ≡ false → IsGapless 0 s.delivered
  pub current :
      is_reliable (delivery_class_of s.meta) ≡ false
      → s.sequence ≡ (last_sequence 0 s.delivered + s.dropped) % word
  pub whole : is_reliable (delivery_class_of s.meta) ≡ true → s.dropped ≡ 0
  pub own : All (IsOwn s) s.delivered

IsGapless-append :
    (n : ℕ) (es : List Event) (e : Event)
    → IsGapless n es
    → e.sequence ≡ (last_sequence n es + e.dropped + 1) % word
    → IsGapless n (es ++ e ∷ [])
IsGapless-append n [] e h he = (he, tt)
IsGapless-append n (x ∷ es) e h he = (h.0, IsGapless-append x.sequence es e h.1 he)

last_sequence-append :
    (n : ℕ) (es : List Event) (e : Event) → last_sequence n (es ++ e ∷ []) ≡ e.sequence
last_sequence-append n [] e = refl
last_sequence-append n (x ∷ es) e = last_sequence-append x.sequence es e

-- A change of the flags alone.
abbrev flagged : Subscription → Bool → Bool → Subscription
flagged s k c = record s { in_key = k; in_conn = c }

flagged-IsCounted : (s : Subscription) (k c : Bool) → IsCounted s → IsCounted (flagged s k c)
flagged-IsCounted s k c h = record {
  gapless = h.gapless;
  current = h.current;
  whole = h.whole;
  own = h.own;
}

took-IsCounted :
    (s : Subscription) (payload : Bytes) (now : ℕ)
    → IsCounted s
    → IsCounted (took (event_for s.key.event_id s payload now) s)
took-IsCounted s payload now h =
    let ev = event_for s.key.event_id s payload now in
    record {
      gapless = λ c. IsGapless-append 0 s.delivered ev (h.gapless c) (omega (arith, h.current c));
      current = λ c. omega (arith, last_sequence-append 0 s.delivered ev);
      whole = λ c. refl;
      own = All-append (IsOwn s) s.delivered (ev ∷ []) h.own ((refl, refl, refl), tt);
    }

delivery_class_of-cases :
    (c : DeliveryClass)
    → (delivery_class_of c ≡ reliable)
      ⊎ (delivery_class_of c ≡ state)
      ⊎ (delivery_class_of c ≡ lossy)
unfolding delivery_class_of
delivery_class_of-cases unspecified = inl refl
delivery_class_of-cases reliable = inl refl
delivery_class_of-cases state = inr (inl refl)
delivery_class_of-cases lossy = inr (inr refl)
delivery_class_of-cases (unlisted n) = inl refl

refuse-IsCounted :
    (c : DeliveryClass) (s : Subscription)
    → c ≡ delivery_class_of s.meta
    → IsCounted s
    → IsCounted (refuse c (record s { sequence = (s.sequence + 1) % word })).0
refuse-IsCounted reliable s e h = record {
  gapless = λ c. ground (arith, c, e);
  current = λ c. ground (arith, c, e);
  whole = h.whole;
  own = h.own;
}
refuse-IsCounted state s e h = record {
  gapless = h.gapless;
  current = λ c. omega (arith, h.current c);
  whole = λ c. ground (arith, c, e);
  own = h.own;
}
refuse-IsCounted lossy s e h = record {
  gapless = h.gapless;
  current = λ c. omega (arith, h.current c);
  whole = λ c. ground (arith, c, e);
  own = h.own;
}
refuse-IsCounted unspecified s e h = ground (arith, delivery_class_of-cases s.meta, e)
refuse-IsCounted (unlisted n) s e h = ground (arith, delivery_class_of-cases s.meta, e)

event_id_of :
    (a b : Key) (listed : Bool) → (listed && same_key a b) ≡ true → a.event_id ≡ b.event_id
unfolding same_key
event_id_of a b listed h = ground (arith, h)

module _ (deliver : ℕ → Event → Bool) where
  publish_to-IsCounted :
      (payload : Bytes) (now : ℕ) (s : Subscription)
      → IsCounted s
      → IsCounted (publish_to deliver s.key.event_id payload now s).0
  unfolding publish_to
  publish_to-IsCounted payload now s h =
      elim (Bool-cases (deliver s.sink (event_for s.key.event_id s payload now))) [
        | inl e ↦ rw (e, publish_to) (took-IsCounted s payload now h)
        | inr e ↦ rw (e, publish_to) (refuse-IsCounted (delivery_class_of s.meta) s refl h)
      ]

  visit-IsCounted :
      (key : Key) (payload : Bytes) (now : ℕ) (s : Subscription)
      → IsCounted s
      → IsCounted (visit deliver key payload now s).0
  visit-IsCounted key payload now s h = elim (Bool-cases (s.in_key && same_key s.key key)) [
    | inr e ↦ rw e h
    | inl e ↦ rw e (
        subst (λ i. IsCounted (publish_to deliver i payload now s).0)
          (event_id_of s.key key s.in_key e) (publish_to-IsCounted payload now s h))
  ]

  fan_out-IsCounted :
      (key : Key) (payload : Bytes) (now : ℕ) (subs : List Subscription)
      → All IsCounted subs
      → All IsCounted (fan_out deliver key payload now subs).0
  unfolding fan_out
  fan_out-IsCounted key payload now [] h = tt
  fan_out-IsCounted key payload now (s ∷ rest) h =
      (visit-IsCounted key payload now s h.0, fan_out-IsCounted key payload now rest h.1)

if-IsCounted :
    (b : Bool) (k c : Bool) (s : Subscription)
    → IsCounted s
    → IsCounted (if b then flagged s k c else s)
if-IsCounted true k c s h = flagged-IsCounted s k c h
if-IsCounted false k c s h = h

-- A pass over the subscriptions that sets flags of some.
flags-IsCounted :
    (f : Subscription → Bool × Bool × Bool) (subs : List Subscription)
    → All IsCounted subs
    → All IsCounted (map (λ s. if (f s).0 then flagged s (f s).1 (f s).2 else s) subs)
flags-IsCounted f subs h =
    All-map IsCounted (λ s. if (f s).0 then flagged s (f s).1 (f s).2 else s) subs
      (All-imp IsCounted (λ s. IsCounted (if (f s).0 then flagged s (f s).1 (f s).2 else s)) subs
        (λ s hs. if-IsCounted (f s).0 (f s).1 (f s).2 s hs) h)

unlist_all-IsCounted :
    (cs : List Closed) (subs : List Subscription)
    → All IsCounted subs
    → All IsCounted (unlist_all cs subs)
unfolding unlist_all
unlist_all-IsCounted [] subs h = h
unlist_all-IsCounted (c ∷ cs) subs h =
    unlist_all-IsCounted cs (map (unlist c.conn c.subscription_id) subs)
      (flags-IsCounted (λ s. (names c.conn c.subscription_id s, s.in_key, false)) subs h)

close_keys-IsCounted :
    (aims : Key → Bool) (why : Reason) (r : Registry)
    → All IsCounted r.subs
    → All IsCounted (close_keys aims why r).0.subs
unfolding close_keys
close_keys-IsCounted aims why r h =
    let closed = closed_of aims why r.subs in
    flags-IsCounted (λ s. (aims s.key, false, s.in_conn)) (unlist_all closed r.subs)
      (unlist_all-IsCounted closed r.subs h)

step-IsCounted : (r : Registry) (c : Call) → All IsCounted r.subs → All IsCounted (step r c).subs
unfolding step subscribe unsubscribe publish close_conn close_scope close_provider_endpoint
    remove_from_key_locked
step-IsCounted r (subscribes conn sink endpoint key meta) h =
    All-append IsCounted r.subs
      (subscription r.allocated ((r.next_id conn + 1) % word) conn sink endpoint key meta ∷ []) h
      (record { gapless = λ c. tt; current = λ c. omega arith; whole = λ c. refl; own = tt }, tt)
step-IsCounted r (unsubscribes conn id) h = go (find_named conn id r.subs)
  where
    go :
        (o : Option Subscription)
        → All IsCounted
            (elim o as (λ _. Registry × Bool) [
              | none ↦ (r, false)
              | some s ↦
                  (record r { subs = remove_from_key_locked s (map (unlist conn id) r.subs) }, true)
            ]).0.subs
    go none = h
    go (some s) =
        flags-IsCounted (λ t. (t.pointer == s.pointer, false, t.in_conn))
          (map (unlist conn id) r.subs)
          (flags-IsCounted (λ t. (names conn id t, t.in_key, false)) r.subs h)
step-IsCounted r (publishes deliver key payload now) h =
    fan_out-IsCounted deliver key payload now r.subs h
step-IsCounted r (conn_closes conn) h =
    flags-IsCounted (λ s. (belongs conn s, false, false)) r.subs h
step-IsCounted r (scope_closes conn endpoint scope why) h =
    close_keys-IsCounted (in_scope conn endpoint scope) why r h
step-IsCounted r (endpoint_closes conn endpoint why) h =
    close_keys-IsCounted (of_endpoint conn endpoint) why r h

run-IsCounted :
    (cs : List Call) (r : Registry) → All IsCounted r.subs → All IsCounted (run cs r).subs
unfolding run
run-IsCounted [] r h = h
run-IsCounted (c ∷ cs) r h = run-IsCounted cs (step r c) (step-IsCounted r c h)

-- Over any calls, from an empty registry, with any answers of the sinks: what each subscription was
-- sent bears its own handles and event id; if its class may drop events, the sequence numbers of
-- the delivered events leave exactly the gaps that the `dropped` of each accounts for, the next one
-- included; if its class is RELIABLE, no drop is ever counted.
pub run-new-IsCounted : (cs : List Call) → All IsCounted (run cs new).subs
unfolding new
run-new-IsCounted cs = run-IsCounted cs new tt
