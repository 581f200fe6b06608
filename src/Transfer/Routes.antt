-- ===== src/Transfer/Routes.antt =====
-- manager.go, listener.go: the end of a route, the attachment of a peer, and the reaper.
use nervud.Base.{
  ℕ, ◌-◌, String, Bool, true, false, not, ◌&&◌, ◌||◌, Option, none, some, List, [], ◌∷◌, ◌==◌,
  str_eq, if◌then◌else◌,
}
use nervud.Base.Int.{ℤ, ◌-ℤ◌, ltb_ℤ}
use nervud.Transfer.Types.{
  Limits, LifecycleState, prepared, committed, active, expired, protocol, unreferenced,
  route_failed, TransferSide, Record, is_closed, Ledger, Manager, Handle,
}
use nervud.Transfer.Budget.{close_locked}
use nervud.Transfer.Manager.{
  Code, ok, failed_precondition, deadline_exceeded, unauthenticated, invalid_handle, Visit, each,
  on_each, close_all, find_record, has_id, change,
}

abbrev pub in_use : LifecycleState → Bool
in_use committed = true
in_use active = true
in_use _ = false

unfoldable pub handle_matches : Record → Handle → String → Bool
handle_matches r h endpoint =
    (elim h.digest [ none ↦ false | some d ↦ d == r.caller.ticket_digest ]
      && (h.role == r.caller.role && h.mode == r.mode))
    && (h.expires_mono == r.caller.expires_mono && str_eq h.endpoint endpoint)

unfoldable pub holds : ℕ → List ℕ → Bool
holds id [] = false
holds id (k ∷ ks) = let later = holds id ks in k == id || later

-- The loop over the handles of the response: the ids to keep, or `none` for an invalid one.
unfoldable pub keep_from : ℕ → Manager → List ℕ → List Handle → Option (List ℕ)
unfolding holds find_record handle_matches
keep_from route m keep [] = some keep
keep_from route m keep (h ∷ hs) = elim h.id [
  | none ↦ none
  | some id ↦
      let later = keep_from route m (id ∷ keep) hs in
      if holds id keep then none else elim (find_record id m.records) [
        | none ↦ none
        | some r ↦
            if r.route_id == route && (in_use r.state && handle_matches r h m.sock_path)
            then later
            else none
      ]
]

abbrev pub kept : Record → Record
kept r = record r { origin_finished = true; retained = true }

-- What the last loop does with one record of the route.
abbrev pub finish_one : ℕ → List ℕ → ℤ → Visit
finish_one route keep now r l =
    if r.route_id == route && not (is_closed r.state)
    then if holds r.id keep then (kept r, l) else close_locked unreferenced now r l
    else (r, l)

unfoldable pub finish_route : ℕ → Bool → List Handle → ℤ → Manager → Manager × Code
unfolding keep_from close_all each close_locked holds is_closed
finish_route route success referenced now m =
    if not success
    then (close_all (λ r. r.route_id == route) route_failed now m, ok)
    else elim (keep_from route m [] referenced) [
      | none ↦ (close_all (λ r. r.route_id == route) protocol now m, invalid_handle)
      | some keep ↦ (on_each (finish_one route keep now) m, ok)
    ]

abbrev pub provider_joins : ℕ → Record → Record
provider_joins conn r = record r { provider = record (r.provider) { consumed = true; conn = conn } }

abbrev pub caller_joins : ℕ → Record → Record
caller_joins conn r = record r {
  caller = record (r.caller) { consumed = true; conn = conn };
  state = active;
}

-- The credential of the peer stands as whether it is the owner's.
unfoldable pub attach_side :
    Bool → TransferSide → ℕ → Bool → ℕ → ℤ → Record → Manager → Manager × Code
unfolding close_all change
attach_side is_provider side role owns conn now r m =
    if (side.consumed || not (side.conn == 0)) || (not (role == side.role) || not owns)
    then (m, unauthenticated)
    else if not (ltb_ℤ now side.expires_at)
    then (close_all (has_id r.id) expired now m, deadline_exceeded)
    else if is_provider
    then elim r.state [
      | prepared ↦ (change r.id (provider_joins conn) m, ok)
      | _ ↦ (m, failed_precondition)
    ]
    else elim r.state [
      | committed ↦ (change r.id (caller_joins conn) m, ok)
      | _ ↦ (m, failed_precondition)
    ]

-- `attach`, with the digest of the ticket if that has 32 bytes at least. `owns` compares the
-- peer's credential with that of a side's owner.
unfoldable pub attach :
    Option ℕ → Option ℕ → ℕ → (TransferSide → Bool) → ℕ → ℤ → Manager → Manager × Code
unfolding attach_side find_record is_closed
attach none digest role owns conn now m = (m, unauthenticated)
attach (some id) none role owns conn now m = (m, unauthenticated)
attach (some id) (some digest) role owns conn now m = elim (find_record id m.records) [
  | none ↦ (m, unauthenticated)
  | some r ↦
      if is_closed r.state || m.stopping
      then (m, unauthenticated)
      else if digest == r.provider.ticket_digest && not (digest == r.caller.ticket_digest)
      then attach_side true r.provider role (owns r.provider) conn now r m
      else if digest == r.caller.ticket_digest && not (digest == r.provider.ticket_digest)
      then attach_side false r.caller role (owns r.caller) conn now r m
      else (m, unauthenticated)
]

abbrev pub is_due : ℤ → Record → Bool
is_due now r = elim r.state [
  | prepared ↦ not (ltb_ℤ now r.provider.expires_at) || not (ltb_ℤ now r.deadline)
  | committed ↦ not (ltb_ℤ now r.caller.expires_at)
  | _ ↦ false
]

abbrev pub is_old : Limits → ℤ → Record → Bool
is_old lim now r = is_closed r.state && not (ltb_ℤ (now -ℤ r.terminal_at) lim.tombstone_ttl)

-- The loop of `reap`: a transfer past its time is closed, a tombstone past its own is removed.
unfoldable pub reap_from : Limits → ℤ → List Record → Ledger → List Record × Ledger
unfolding close_locked is_closed
reap_from lim now [] l = ([], l)
reap_from lim now (r ∷ rest) l =
    let this =
      if is_old lim now r
      then (r, record l { tombstones = l.tombstones - 1 })
      else if is_due now r
      then close_locked expired now r l
      else (r, l) in
    let later = reap_from lim now rest this.1 in
    (if is_old lim now r then later.0 else this.0 ∷ later.0, later.1)

unfoldable pub reap : ℤ → Manager → Manager
unfolding reap_from
reap now m = record m {
  records = (reap_from m.limits now m.records m.ledger).0;
  ledger = (reap_from m.limits now m.records m.ledger).1;
}
