-- ===== src/Transfer/Manager.antt =====
-- manager.go, listener.go, relay.go: the operations of the transfer manager. An id that does not
-- parse is `none`; whether the route's token is open is an argument.
use nervud.Base.{
  ℕ, ◌+◌, ◌-◌, String, Bool, true, false, not, ◌&&◌, ◌||◌, Option, none, some, List, [], ◌∷◌, ◌++◌,
  ◌==◌, str_eq, leb, if◌then◌else◌,
}
use nervud.Base.Int.{ℤ, ltb_ℤ}
use nervud.Transfer.Types.{
  LifecycleState, prepared, committed, active, closed, TerminalReason, explicit_abort, route_failed,
  expired, peer_closed, revoked, stopped, Record, is_closed, relay_directions, Ledger, Manager,
}
use nervud.Transfer.Budget.{exhausted, reserve_locked, release_buffer_locked, close_locked}

-- The status codes that these operations answer with, and `ErrInvalidHandle`.
pub data Code : Type 0 where
  ok invalid_argument not_found failed_precondition internal deadline_exceeded resource_exhausted
        unauthenticated invalid_handle :
      Code

-- What a loop over the records does with one of them.
abbrev pub Visit : Type 0
Visit = Record → Ledger → Record × Ledger

unfoldable pub each : Visit → List Record → Ledger → List Record × Ledger
each v [] l = ([], l)
each v (r ∷ rest) l =
    let this = v r l in let later = each v rest this.1 in (this.0 ∷ later.0, later.1)

abbrev pub on_each : Visit → Manager → Manager
on_each v m = record m {
  records = (each v m.records m.ledger).0;
  ledger = (each v m.records m.ledger).1;
}

abbrev pub close_if : (Record → Bool) → TerminalReason → ℤ → Visit
close_if p reason now r l = if p r then close_locked reason now r l else (r, l)

-- The loops that close what is not closed yet.
unfoldable pub close_all : (Record → Bool) → TerminalReason → ℤ → Manager → Manager
unfolding each close_locked
close_all p reason now m = on_each (close_if p reason now) m

unfoldable pub find_record : ℕ → List Record → Option Record
find_record id [] = none
find_record id (r ∷ rest) = let later = find_record id rest in if r.id == id then some r else later

abbrev pub has_id : ℕ → Record → Bool
has_id id r = r.id == id

-- The record under an id is changed.
unfoldable pub change_first : ℕ → (Record → Record) → List Record → List Record
change_first id f [] = []
change_first id f (r ∷ rest) =
    let later = change_first id f rest in if r.id == id then f r ∷ rest else r ∷ later

unfoldable pub change : ℕ → (Record → Record) → Manager → Manager
unfolding change_first
change id f m = record m { records = change_first id f m.records }

unfoldable pub count_route : ℕ → List Record → ℕ
count_route route [] = 0
count_route route (r ∷ rest) =
    let later = count_route route rest in if r.route_id == route then later + 1 else later

-- The fields that every new record starts with.
abbrev pub fresh : Record → Record
fresh r = record r {
  state = prepared;
  origin_finished = false;
  retained = false;
  ever_committed = false;
  relay_started = false;
  budgeted = true;
  buffer_budgeted = true;
  relay_workers = 0;
}

-- `Begin` from its lock on, for the other fields that it has prepared. The token is looked at when
-- the lock is taken, and once more at the end.
unfoldable pub begin_locked : Record → ℕ → Bool → Bool → ℤ → Manager → Manager × Code
unfolding exhausted reserve_locked find_record count_route close_all
begin_locked new max_streams open_before open_after now m =
    let r = fresh new in
    if not m.started || (m.stopping || not open_before)
    then (m, failed_precondition)
    else elim (find_record r.id m.records) [
      | some other ↦ (m, internal)
      | none ↦
          if leb max_streams (count_route r.route_id m.records)
          then (m, resource_exhausted)
          else if exhausted m.limits r m.ledger
          then (m, resource_exhausted)
          else let added = record m {
            records = m.records ++ r ∷ [];
            ledger = reserve_locked r m.ledger;
          } in
            if open_after
            then (added, ok)
            else (close_all (has_id r.id) route_failed now added, failed_precondition)
    ]

abbrev pub commits : Record → Record
commits r = record r { state = committed; ever_committed = true }

unfoldable pub commit : ℕ → Option ℕ → Bool → ℤ → Manager → Manager × Code
unfolding find_record close_all change
commit provider none token_open now m = (m, invalid_argument)
commit provider (some id) token_open now m = elim (find_record id m.records) [
  | none ↦ (m, not_found)
  | some r ↦ if not (r.provider.owner.conn_id == provider) then (m, not_found) else elim r.state [
    | committed ↦ (m, ok)
    | active ↦ (m, ok)
    | closed ↦ (m, if r.ever_committed then ok else failed_precondition)
    | prepared ↦
        if not token_open || (not (ltb_ℤ now r.deadline) || not (ltb_ℤ now r.caller.expires_at))
        then (close_all (has_id id) expired now m, deadline_exceeded)
        else if r.provider.conn == 0 || not r.provider.consumed
        then (m, failed_precondition)
        else (change id commits m, ok)
  ]
]

abbrev pub is_explicit_abort : TerminalReason → Bool
is_explicit_abort explicit_abort = true
is_explicit_abort _ = false

unfoldable pub abort : ℕ → Option ℕ → ℤ → Manager → Manager × Code
unfolding find_record close_all is_closed
abort provider none now m = (m, invalid_argument)
abort provider (some id) now m = elim (find_record id m.records) [
  | none ↦ (m, not_found)
  | some r ↦
      if not (r.provider.owner.conn_id == provider)
      then (m, not_found)
      else if is_closed r.state
      then (m, if is_explicit_abort r.terminal then ok else failed_precondition)
      else (close_all (has_id id) explicit_abort now m, ok)
]

unfoldable pub close_route : ℕ → ℤ → Manager → Manager
unfolding close_all
close_route route now m = close_all (λ r. r.route_id == route) route_failed now m

unfoldable pub conn_closed : ℕ → ℤ → Manager → Manager
unfolding close_all
conn_closed conn now m =
    close_all (λ r. r.provider.owner.conn_id == conn || r.caller.owner.conn_id == conn) peer_closed
      now m

unfoldable pub endpoint_revoked : ℕ → ℕ → ℕ → ℤ → Manager → Manager
unfolding close_all
endpoint_revoked provider endpoint generation now m =
    close_all
      (λ r.
        r.provider.owner.conn_id == provider
        && (r.endpoint_id == endpoint && (generation == 0 || r.generation == generation)))
      revoked now m

unfoldable pub revoke_package : String → ℤ → Manager → Manager
unfolding close_all
revoke_package package_id now m =
    close_all
      (λ r.
        str_eq r.provider.owner.package_id package_id
        || str_eq r.caller.owner.package_id package_id)
      revoked now m

unfoldable pub contains_string : List String → String → Bool
contains_string [] want = false
contains_string (v ∷ vs) want = let later = contains_string vs want in str_eq v want || later

unfoldable pub revoke_permission : String → String → ℤ → Manager → Manager
unfolding close_all contains_string
revoke_permission package_id permission now m =
    close_all
      (λ r. str_eq r.caller.owner.package_id package_id && contains_string r.permissions permission)
      revoked now m

unfoldable pub revoke_resource : String → ℕ → ℤ → Manager → Manager
unfolding close_all
revoke_resource resource generation now m =
    close_all (λ r. str_eq r.resource resource && r.resource_gen == generation) revoked now m

unfoldable pub revoke_control : ℕ → String → ℤ → Manager → Manager
unfolding close_all
revoke_control caller resource now m =
    close_all
      (λ r. r.requires_lease && (r.caller.owner.conn_id == caller && str_eq r.resource resource))
      revoked now m

-- `Stop`, up to its wait for the goroutines.
unfoldable pub stop : ℤ → Manager → Manager
unfolding close_all
stop now m =
    if m.stopping then m else close_all (λ r. true) stopped now (record m { stopping = true })

unfoldable pub close_id : ℕ → TerminalReason → ℤ → Manager → Manager
unfolding close_all
close_id id reason now m = close_all (has_id id) reason now m

abbrev pub is_active : LifecycleState → Bool
is_active active = true
is_active _ = false

-- A record that its relay can start on.
abbrev pub can_relay : Record → Bool
can_relay r =
    is_active r.state
    && (not r.relay_started && (not (r.provider.conn == 0) && not (r.caller.conn == 0)))

abbrev pub relays : Record → Record
relays r = record r { relay_started = true; relay_workers = relay_directions r.direction }

unfoldable pub start_relay : ℕ → Manager → Manager
unfolding change find_record relay_directions
start_relay id m = elim (find_record id m.records) [
  | none ↦ m
  | some r ↦ if can_relay r then change id relays m else m
]

abbrev pub one_less : Record → Record
one_less r = record r { relay_workers = r.relay_workers - 1 }

abbrev pub worker_ends : ℕ → Visit
worker_ends id r l =
    if has_id id r && not (r.relay_workers == 0)
    then if r.relay_workers - 1 == 0 then release_buffer_locked (one_less r) l else (one_less r, l)
    else (r, l)

unfoldable pub relay_done : ℕ → Manager → Manager
unfolding each release_buffer_locked
relay_done id m = on_each (worker_ends id) m
