-- ===== src/Subscription/History.antt =====
-- subscription.go: sequences of calls on a registry.
use nervud.Base.{ℕ, List, [], ◌∷◌, Bool}
use nervud.Subscription.Registry.{
  Bytes, Key, DeliveryClass, Event, Reason, Registry, subscribe, unsubscribe, publish, close_conn,
  close_scope, close_provider_endpoint,
}

-- A publication comes with the answers of the sinks at that time.
pub data Call : Type 0 where
  subscribes : ℕ → ℕ → ℕ → Key → DeliveryClass → Call
  unsubscribes : ℕ → ℕ → Call
  publishes : (ℕ → Event → Bool) → Key → Bytes → ℕ → Call
  conn_closes : ℕ → Call
  scope_closes : ℕ → ℕ → ℕ → Reason → Call
  endpoint_closes : ℕ → ℕ → Reason → Call

unfoldable pub step : Registry → Call → Registry
unfolding subscribe unsubscribe publish close_conn close_scope close_provider_endpoint
step r (subscribes conn sink endpoint key meta) = (subscribe conn sink endpoint key meta r).0
step r (unsubscribes conn id) = (unsubscribe conn id r).0
step r (publishes deliver key payload now) = (publish deliver key payload now r).0
step r (conn_closes conn) = (close_conn conn r).0
step r (scope_closes conn endpoint scope why) = (close_scope conn endpoint scope why r).0
step r (endpoint_closes conn endpoint why) = (close_provider_endpoint conn endpoint why r).0

unfoldable pub run : List Call → Registry → Registry
unfolding step
run [] r = r
run (c ∷ cs) r = run cs (step r c)
