-- ===== src/Subscription/Registry.antt =====
-- subscription.go: the registry and its operations. The two maps hold pointers to the same
-- subscriptions; here every subscription stands once, in the order of their creation, and says
-- which map holds it. A connection or a sink stands as a number.
use nervud.Base.{
  ℕ, suc, ◌+◌, ◌^◌, ◌%◌, Bool, true, false, ◌&&◌, Option, none, some, List, [], ◌∷◌, ◌++◌, ◌==◌,
  map, if◌then◌else◌,
}

abbrev pub Bytes : Type 0
Bytes = List ℕ

abbrev pub word : ℕ
word = 2 ^ 64

pub record Key : Type 0 where
  pub provider_conn : ℕ
  pub endpoint_id : ℕ
  pub event_id : ℕ
  pub scope : ℕ

unfoldable pub same_key : Key → Key → Bool
same_key a b =
    (a.provider_conn == b.provider_conn && a.endpoint_id == b.endpoint_id)
    && (a.event_id == b.event_id && a.scope == b.scope)

-- The protocol's enumeration; `unlisted` is any other value. A missing `EventMeta` has the class
-- `unspecified`.
pub data DeliveryClass : Type 0 where
  unspecified reliable state lossy : DeliveryClass
  unlisted : ℕ → DeliveryClass

unfoldable pub delivery_class_of : DeliveryClass → DeliveryClass
delivery_class_of reliable = reliable
delivery_class_of state = state
delivery_class_of lossy = lossy
delivery_class_of _ = reliable

abbrev pub is_reliable : DeliveryClass → Bool
is_reliable reliable = true
is_reliable _ = false

pub record Event : Type 0 where
  pub subscription_id : ℕ
  pub sequence : ℕ
  pub endpoint_id : ℕ
  pub event_id : ℕ
  pub payload : Bytes
  pub dropped : ℕ
  pub monotonic_timestamp_nanos : ℕ

-- `pointer` is the identity of the object. `in_key` and `in_conn` say whether `byKey` and `byConn`
-- hold it. The ghost field `delivered` collects the events that its sink took.
pub record Subscription : Type 0 where
  pub pointer : ℕ
  pub id : ℕ
  pub sink : ℕ
  pub conn : ℕ
  pub key : Key
  pub meta : DeliveryClass
  pub sequence : ℕ
  pub dropped : ℕ
  pub caller_endpoint_id : ℕ
  pub in_key : Bool
  pub in_conn : Bool
  pub delivered : List Event

-- `next_id` is 0 at a connection that the map does not hold.
pub record Registry : Type 0 where
  pub subs : List Subscription
  pub next_id : ℕ → ℕ
  pub allocated : ℕ

unfoldable pub new : Registry
new = record { subs = []; next_id = λ _. 0; allocated = 0 }

abbrev pub at : ℕ → ℕ → (ℕ → ℕ) → ℕ → ℕ
at conn v f c = if c == conn then v else f c

abbrev pub subscription : ℕ → ℕ → ℕ → ℕ → ℕ → Key → DeliveryClass → Subscription
subscription pointer id conn sink caller_endpoint_id key meta = record {
  pointer = pointer;
  id = id;
  sink = sink;
  conn = conn;
  key = key;
  meta = meta;
  sequence = 0;
  dropped = 0;
  caller_endpoint_id = caller_endpoint_id;
  in_key = true;
  in_conn = true;
  delivered = [];
}

unfoldable pub subscribe : ℕ → ℕ → ℕ → Key → DeliveryClass → Registry → Registry × ℕ
subscribe caller_conn sink caller_endpoint_id key meta r =
    let id = (r.next_id caller_conn + 1) % word in
    let s = subscription r.allocated id caller_conn sink caller_endpoint_id key meta in
    (
      record {
        subs = r.subs ++ s ∷ [];
        next_id = at caller_conn id r.next_id;
        allocated = r.allocated + 1;
      },
      id,
    )

-- `byConn[callerConn][id]`.
abbrev pub names : ℕ → ℕ → Subscription → Bool
names conn id s = s.in_conn && (s.conn == conn && s.id == id)

unfoldable pub find_named : ℕ → ℕ → List Subscription → Option Subscription
find_named conn id [] = none
find_named conn id (s ∷ rest) =
    let later = find_named conn id rest in if names conn id s then some s else later

abbrev pub unlist : ℕ → ℕ → Subscription → Subscription
unlist conn id s = if names conn id s then record s { in_conn = false } else s

abbrev pub unkey : ℕ → Subscription → Subscription
unkey p s = if s.pointer == p then record s { in_key = false } else s

unfoldable pub remove_from_key_locked : Subscription → List Subscription → List Subscription
remove_from_key_locked s subs = map (unkey s.pointer) subs

unfoldable pub unsubscribe : ℕ → ℕ → Registry → Registry × Bool
unfolding find_named remove_from_key_locked
unsubscribe caller_conn id r = elim (find_named caller_conn id r.subs) [
  | none ↦ (r, false)
  | some s ↦
      (record r { subs = remove_from_key_locked s (map (unlist caller_conn id) r.subs) }, true)
]

pub data Reason : Type 0 where
  backpressure : Reason
  given : ℕ → Reason

pub record Closed : Type 0 where
  pub conn : ℕ
  pub subscription_id : ℕ
  pub reason : Reason

abbrev pub event_for : ℕ → Subscription → Bytes → ℕ → Event
event_for event_id s payload now = record {
  subscription_id = s.id;
  sequence = (s.sequence + 1) % word;
  endpoint_id = s.caller_endpoint_id;
  event_id = event_id;
  payload = payload;
  dropped = s.dropped;
  monotonic_timestamp_nanos = now;
}

-- The sink takes the event.
abbrev pub took : Event → Subscription → Subscription
took ev s = record s { sequence = ev.sequence; dropped = 0; delivered = s.delivered ++ ev ∷ [] }

-- The event does not fit into the queue: the `switch` on the class.
abbrev pub refuse : DeliveryClass → Subscription → Subscription × Option Closed
refuse reliable s =
    (s, some (record { conn = s.conn; subscription_id = s.id; reason = backpressure }))
refuse state s = (record s { dropped = (s.dropped + 1) % word }, none)
refuse lossy s = (record s { dropped = (s.dropped + 1) % word }, none)
refuse _ s = (s, none)

-- What a sink answers to an envelope is the parameter `deliver`.
module _ (deliver : ℕ → Event → Bool) where
  -- One round of the loop of `Publish`.
  unfoldable pub publish_to : ℕ → Bytes → ℕ → Subscription → Subscription × Option Closed
  unfolding delivery_class_of
  publish_to event_id payload now s =
      let ev = event_for event_id s payload now in
      if deliver s.sink ev
      then (took ev s, none)
      else refuse (delivery_class_of s.meta) (record s { sequence = ev.sequence })

  abbrev pub visit : Key → Bytes → ℕ → Subscription → Subscription × Option Closed
  visit key payload now s =
      if s.in_key && same_key s.key key then publish_to key.event_id payload now s else (s, none)

  unfoldable pub fan_out : Key → Bytes → ℕ → List Subscription → List Subscription × List Closed
  unfolding publish_to same_key
  fan_out key payload now [] = ([], [])
  fan_out key payload now (s ∷ rest) =
      let later = fan_out key payload now rest in
      let this = visit key payload now s in
      (this.0 ∷ later.0, elim this.1 [ none ↦ later.1 | some c ↦ c ∷ later.1 ])

  unfoldable pub publish : Key → Bytes → ℕ → Registry → Registry × List Closed
  unfolding fan_out
  publish key payload now r =
      let out = fan_out key payload now r.subs in (record r { subs = out.0 }, out.1)

abbrev pub belongs : ℕ → Subscription → Bool
belongs conn s = s.in_conn && s.conn == conn

unfoldable pub ids_of : ℕ → List Subscription → List ℕ
ids_of conn [] = []
ids_of conn (s ∷ rest) =
    let later = ids_of conn rest in if belongs conn s then s.id ∷ later else later

-- The objects under `byConn[callerConn]` leave both maps.
abbrev pub leave : ℕ → Subscription → Subscription
leave conn s = if belongs conn s then record s { in_key = false; in_conn = false } else s

-- The order of the ids is the order of a map's iteration: here, that of creation.
unfoldable pub close_conn : ℕ → Registry → Registry × List ℕ
unfolding ids_of
close_conn caller_conn r = (
  record r { subs = map (leave caller_conn) r.subs; next_id = at caller_conn 0 r.next_id },
  ids_of caller_conn r.subs,
)

-- The subscriptions under the keys that `aims` selects, as they are reported.
unfoldable pub closed_of : (Key → Bool) → Reason → List Subscription → List Closed
closed_of aims reason [] = []
closed_of aims reason (s ∷ rest) =
    let later = closed_of aims reason rest in
    if s.in_key && aims s.key
    then record { conn = s.conn; subscription_id = s.id; reason = reason } ∷ later
    else later

-- `delete(r.byConn[s.conn], s.id)` for each of them.
unfoldable pub unlist_all : List Closed → List Subscription → List Subscription
unlist_all [] subs = subs
unlist_all (c ∷ rest) subs = unlist_all rest (map (unlist c.conn c.subscription_id) subs)

-- `delete(r.byKey, key)` for the selected keys.
abbrev pub drop_key : (Key → Bool) → Subscription → Subscription
drop_key aims s = if aims s.key then record s { in_key = false } else s

-- The loop that `CloseScope` and `CloseProviderEndpoint` share.
unfoldable pub close_keys : (Key → Bool) → Reason → Registry → Registry × List Closed
unfolding closed_of unlist_all
close_keys aims reason r =
    let closed = closed_of aims reason r.subs in
    (record r { subs = map (drop_key aims) (unlist_all closed r.subs) }, closed)

abbrev pub in_scope : ℕ → ℕ → ℕ → Key → Bool
in_scope provider_conn endpoint_id scope key =
    key.provider_conn == provider_conn && (key.endpoint_id == endpoint_id && key.scope == scope)

abbrev pub of_endpoint : ℕ → ℕ → Key → Bool
of_endpoint provider_conn endpoint_id key =
    key.provider_conn == provider_conn && key.endpoint_id == endpoint_id

unfoldable pub close_scope : ℕ → ℕ → ℕ → Reason → Registry → Registry × List Closed
unfolding close_keys
close_scope provider_conn endpoint_id scope reason r =
    close_keys (in_scope provider_conn endpoint_id scope) reason r

unfoldable pub close_provider_endpoint : ℕ → ℕ → Reason → Registry → Registry × List Closed
unfolding close_keys
close_provider_endpoint provider_conn endpoint_id reason r =
    close_keys (of_endpoint provider_conn endpoint_id) reason r

-- The entries of `byConn`.
abbrev pub count : List Subscription → ℕ
count [] = 0
count (s ∷ rest) = let later = count rest in if s.in_conn then suc later else later

unfoldable pub len : Registry → ℕ
len r = count r.subs
