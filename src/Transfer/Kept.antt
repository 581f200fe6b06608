-- ===== src/Transfer/Kept.antt =====
-- manager.go, listener.go, relay.go: every call keeps what the single steps keep.
use nervud.Base.{
  subst, sym, ℕ, ◌≡◌, refl, Bool, true, false, not, ◌&&◌, ◌||◌, Option, none, some, List, [], ◌∷◌,
  ◌++◌, ◌==◌, leb, if◌then◌else◌, Option-cases, inl, inr,
}
use nervud.Base.Int.{ℤ, ltb_ℤ}
use nervud.Transfer.Types.{
  LifecycleState, prepared, committed, active, closed, Record, TransferSide, is_closed, Manager,
  Handle, expired, explicit_abort, route_failed, revoked, peer_closed, stopped, protocol,
}
use nervud.Transfer.Budget.{exhausted, reserve_locked}
use nervud.Transfer.Manager.{
  invalid_handle, Code, ok, failed_precondition, internal, deadline_exceeded, resource_exhausted,
  on_each, close_all, find_record, has_id, change, fresh, commits, relays, can_relay, count_route,
  begin_locked, commit, abort, close_route, conn_closed, endpoint_revoked, revoke_package,
  revoke_permission, revoke_resource, revoke_control, stop, close_id, start_relay, relay_done,
}
use nervud.Transfer.Routes.{
  finish_one, finish_route, keep_from, provider_joins, caller_joins, attach_side, attach,
}
use nervud.Transfer.Calls.{
  Call, begins, commits_by, aborts, finishes, closes_route, conn_closes, revokes_endpoint,
  revokes_package, revokes_permission, revokes_resource, revokes_control, attaches, relay_starts,
  relay_ends, closes_id, reaps, stops, step, run, IsKept, IsSame-open, still, find_record-id,
}

module _ (P : Manager → Type 0) (kept : IsKept P) where
  abbrev Keeps : Manager × Code → Type 0
  Keeps x = P x.0

  -- Either of two results.
  chosen :
      (b : Bool) (x y : Manager × Code)
      → (b ≡ true → Keeps x)
      → (b ≡ false → Keeps y)
      → Keeps (if b then x else y)
  chosen true x y hx hy = hx refl
  chosen false x y hx hy = hy refl

  begin-keeps :
      (new : Record) (streams : ℕ) (before after : Bool) (now : ℤ) (m : Manager)
      → P m
      → Keeps (begin_locked new streams before after now m)
  unfolding begin_locked
  begin-keeps new streams before after now m h =
      chosen (not m.started || (m.stopping || not before)) _ _ (λ _. h)
        (λ _. go (find_record new.id m.records))
    where
      added : Manager
      added = record m {
        records = m.records ++ fresh new ∷ [];
        ledger = reserve_locked (fresh new) m.ledger;
      }

      admitted : Keeps (
          if leb streams (count_route new.route_id m.records)
          then (m, resource_exhausted)
          else if exhausted m.limits (fresh new) m.ledger
          then (m, resource_exhausted)
          else if after
          then (added, ok)
          else (close_all (has_id new.id) route_failed now added, failed_precondition))
      admitted =
          chosen (leb streams (count_route new.route_id m.records)) _ _ (λ _. h)
            (λ _.
              chosen (exhausted m.limits (fresh new) m.ledger) _ _ (λ _. h)
                (λ fits.
                  chosen after _ _ (λ _. kept.reserves new m fits h)
                    (λ _.
                      kept.closes (has_id new.id) route_failed now added
                        (kept.reserves new m fits h))))

      go :
          (o : Option Record)
          → Keeps (elim o as (λ _. Manager × Code) [
            | some other ↦ (m, internal)
            | none ↦
                if leb streams (count_route new.route_id m.records)
                then (m, resource_exhausted)
                else if exhausted m.limits (fresh new) m.ledger
                then (m, resource_exhausted)
                else if after
                then (added, ok)
                else (close_all (has_id new.id) route_failed now added, failed_precondition)
          ])
      go (some other) = h
      go none = admitted

  commit-keeps :
      (provider : ℕ) (id : Option ℕ) (token_open : Bool) (now : ℤ) (m : Manager)
      → P m
      → Keeps (commit provider id token_open now m)
  unfolding commit
  commit-keeps provider none token_open now m h = h
  commit-keeps provider (some id) token_open now m h =
      elim (Option-cases (find_record id m.records)) [
        | inl e ↦ rw (e, commit) h
        | inr (r, e) ↦
            rw (e, commit)
              (chosen (not (r.provider.owner.conn_id == provider)) _ _ (λ _. h)
                (λ _. go r e r.state refl))
      ]
    where
      go :
          (r : Record)
          → find_record id m.records ≡ some r
          → (s : LifecycleState) → r.state ≡ s
          → Keeps (elim s as (λ _. Manager × Code) [
            | committed ↦ (m, ok)
            | active ↦ (m, ok)
            | closed ↦ (m, if r.ever_committed then ok else failed_precondition)
            | prepared ↦
                if not token_open
                  || (not (ltb_ℤ now r.deadline) || not (ltb_ℤ now r.caller.expires_at))
                then (close_all (has_id id) expired now m, deadline_exceeded)
                else if r.provider.conn == 0 || not r.provider.consumed
                then (m, failed_precondition)
                else (change id commits m, ok)
          ])
      go r e committed es = h
      go r e active es = h
      go r e closed es = h
      go r e prepared es =
          chosen
            (not token_open || (not (ltb_ℤ now r.deadline) || not (ltb_ℤ now r.caller.expires_at)))
            _ _ (λ _. kept.closes (has_id id) expired now m h)
            (λ _.
              chosen (r.provider.conn == 0 || not r.provider.consumed) _ _ (λ _. h)
                (λ _.
                  kept.changes id commits m r e
                    (IsSame-open r prepared (commits r) es (refl, refl, refl, refl, refl, refl)
                      (still r))
                    h))

  abort-keeps :
      (provider : ℕ) (id : Option ℕ) (now : ℤ) (m : Manager) → P m → Keeps (abort provider id now m)
  unfolding abort
  abort-keeps provider none now m h = h
  abort-keeps provider (some id) now m h = elim (Option-cases (find_record id m.records)) [
    | inl e ↦ rw (e, abort) h
    | inr (r, e) ↦
        rw (e, abort)
          (chosen (not (r.provider.owner.conn_id == provider)) _ _ (λ _. h)
            (λ _.
              chosen (is_closed r.state) _ _ (λ _. h)
                (λ _. kept.closes (has_id id) explicit_abort now m h)))
  ]

  finish-keeps :
      (route : ℕ) (success : Bool) (handles : List Handle) (now : ℤ) (m : Manager)
      → P m
      → Keeps (finish_route route success handles now m)
  unfolding finish_route
  finish-keeps route success handles now m h =
      chosen (not success) _ _ (λ _. kept.closes (λ r. r.route_id == route) route_failed now m h)
        (λ _. go (keep_from route m [] handles))
    where
      go :
          (o : Option (List ℕ))
          → Keeps (elim o as (λ _. Manager × Code) [
            | none ↦ (close_all (λ r. r.route_id == route) protocol now m, invalid_handle)
            | some keep ↦ (on_each (finish_one route keep now) m, ok)
          ])
      go none = kept.closes (λ r. r.route_id == route) protocol now m h
      go (some keep) = kept.finishes route keep now m h

  attach_side-keeps :
      (is_provider : Bool) (side : TransferSide) (role : ℕ) (owns : Bool) (conn : ℕ) (now : ℤ)
      (r : Record) (m : Manager)
      → find_record r.id m.records ≡ some r
      → P m
      → Keeps (attach_side is_provider side role owns conn now r m)
  unfolding attach_side is_closed
  attach_side-keeps is_provider side role owns conn now r m e h =
      chosen ((side.consumed || not (side.conn == 0)) || (not (role == side.role) || not owns)) _ _
        (λ _. h)
        (λ _.
          chosen (not (ltb_ℤ now side.expires_at)) _ _
            (λ _. kept.closes (has_id r.id) expired now m h)
            (λ _. chosen is_provider _ _ (λ _. joins r.state refl) (λ _. calls r.state refl)))
    where
      joins :
          (s : LifecycleState)
          → r.state ≡ s
          → Keeps (elim s as (λ _. Manager × Code) [
            | prepared ↦ (change r.id (provider_joins conn) m, ok)
            | _ ↦ (m, failed_precondition)
          ])
      joins prepared es =
          kept.changes r.id (provider_joins conn) m r e
            (IsSame-open r r.state (provider_joins conn r) refl (refl, refl, refl, refl, refl, refl)
              refl)
            h
      joins committed es = h
      joins active es = h
      joins closed es = h

      calls :
          (s : LifecycleState)
          → r.state ≡ s
          → Keeps (elim s as (λ _. Manager × Code) [
            | committed ↦ (change r.id (caller_joins conn) m, ok)
            | _ ↦ (m, failed_precondition)
          ])
      calls committed es =
          kept.changes r.id (caller_joins conn) m r e
            (IsSame-open r committed (caller_joins conn r) es (refl, refl, refl, refl, refl, refl)
              refl)
            h
      calls prepared es = h
      calls active es = h
      calls closed es = h

  attach-keeps :
      (id digest : Option ℕ) (role : ℕ) (owns : TransferSide → Bool) (conn : ℕ) (now : ℤ)
      (m : Manager)
      → P m
      → Keeps (attach id digest role owns conn now m)
  unfolding attach
  attach-keeps none digest role owns conn now m h = h
  attach-keeps (some id) none role owns conn now m h = h
  attach-keeps (some id) (some digest) role owns conn now m h =
      elim (Option-cases (find_record id m.records)) [
        | inl e ↦ rw (e, attach) h
        | inr (r, e) ↦
            let at : find_record r.id m.records ≡ some r =
              subst (λ k. find_record k m.records ≡ some r) (sym (find_record-id id m.records r e))
                e in
            rw (e, attach)
              (chosen (is_closed r.state || m.stopping) _ _ (λ _. h)
                (λ _.
                  chosen
                    (digest == r.provider.ticket_digest && not (digest == r.caller.ticket_digest)) _
                    _
                    (λ _.
                      attach_side-keeps true r.provider role (owns r.provider) conn now r m at h)
                    (λ _.
                      chosen
                        (digest == r.caller.ticket_digest
                          && not (digest == r.provider.ticket_digest))
                        _ _
                        (λ _.
                          attach_side-keeps false r.caller role (owns r.caller) conn now r m at h)
                        (λ _. h))))
      ]

  start_relay-keeps : (id : ℕ) (m : Manager) → P m → P (start_relay id m)
  unfolding start_relay
  start_relay-keeps id m h = elim (Option-cases (find_record id m.records)) [
    | inl e ↦ rw (e, start_relay) h
    | inr (r, e) ↦
        rw (e, start_relay)
          (pick (can_relay r) (
            kept.changes id relays m r e
              (IsSame-open r r.state (relays r) refl (refl, refl, refl, refl, refl, refl) refl) h))
  ]
    where
      pick : (b : Bool) → P (change id relays m) → P (if b then change id relays m else m)
      pick true x = x
      pick false x = h

  stop-keeps : (now : ℤ) (m : Manager) → P m → P (stop now m)
  unfolding stop
  stop-keeps now m h = pick m.stopping
    where
      pick :
          (b : Bool)
          → P (if b then m else close_all (λ r. true) stopped now (record m { stopping = true }))
      pick true = h
      pick false =
          kept.closes (λ r. true) stopped now (record m { stopping = true }) (kept.flags m true h)

  step-keeps : (m : Manager) (c : Call) → P m → P (step m c)
  unfolding step close_route conn_closed endpoint_revoked revoke_package revoke_permission
      revoke_resource revoke_control relay_done close_id
  step-keeps m (begins r streams before after now) h = begin-keeps r streams before after now m h
  step-keeps m (commits_by provider id token_open now) h =
      commit-keeps provider id token_open now m h
  step-keeps m (aborts provider id now) h = abort-keeps provider id now m h
  step-keeps m (finishes route success handles now) h = finish-keeps route success handles now m h
  step-keeps m (closes_route route now) h = kept.closes _ route_failed now m h
  step-keeps m (conn_closes conn now) h = kept.closes _ peer_closed now m h
  step-keeps m (revokes_endpoint p e g now) h = kept.closes _ revoked now m h
  step-keeps m (revokes_package p now) h = kept.closes _ revoked now m h
  step-keeps m (revokes_permission p perm now) h = kept.closes _ revoked now m h
  step-keeps m (revokes_resource r g now) h = kept.closes _ revoked now m h
  step-keeps m (revokes_control c r now) h = kept.closes _ revoked now m h
  step-keeps m (attaches id digest role owns conn now) h =
      attach-keeps id digest role owns conn now m h
  step-keeps m (relay_starts id) h = start_relay-keeps id m h
  step-keeps m (relay_ends id) h = kept.works id m h
  step-keeps m (closes_id id why now) h = kept.closes (has_id id) why now m h
  step-keeps m (reaps now) h = kept.reaps now m h
  step-keeps m (stops now) h = stop-keeps now m h

  -- Over any calls.
  pub run-keeps : (cs : List Call) (m : Manager) → P m → P (run cs m)
  unfolding run
  run-keeps [] m h = h
  run-keeps (c ∷ cs) m h = run-keeps cs (step m c) (step-keeps m c h)
