-- ===== src/Transfer/Calls.antt =====
-- manager.go, listener.go, relay.go: sequences of calls on the transfer manager.
use nervud.Base.{
  ap, sym, ◌∙◌, ℕ, String, ◌≡◌, refl, Bool, false, Option, some, List, [], ◌∷◌, ◌++◌, ◌==◌,
  Bool-cases, inl, inr, arith,
}
use nervud.Base.Int.{ℤ}
use nervud.Transfer.Types.{
  LifecycleState, prepared, TerminalReason, Record, TransferSide, is_closed, Manager, Handle,
}
use nervud.Transfer.Budget.{exhausted, reserve_locked}
use nervud.Transfer.Manager.{
  on_each, close_all, find_record, change, fresh, commits, begin_locked, commit, abort, close_route,
  conn_closed, endpoint_revoked, revoke_package, revoke_permission, revoke_resource, revoke_control,
  stop, close_id, start_relay, relay_done, worker_ends,
}
use nervud.Transfer.Routes.{finish_one, finish_route, attach, reap}
use nervud.Transfer.Balance.{IsSame}

pub data Call : Type 0 where
  begins : Record → ℕ → Bool → Bool → ℤ → Call
  commits_by : ℕ → Option ℕ → Bool → ℤ → Call
  aborts : ℕ → Option ℕ → ℤ → Call
  finishes : ℕ → Bool → List Handle → ℤ → Call
  closes_route : ℕ → ℤ → Call
  conn_closes : ℕ → ℤ → Call
  revokes_endpoint : ℕ → ℕ → ℕ → ℤ → Call
  revokes_package : String → ℤ → Call
  revokes_permission : String → String → ℤ → Call
  revokes_resource : String → ℕ → ℤ → Call
  revokes_control : ℕ → String → ℤ → Call
  attaches : Option ℕ → Option ℕ → ℕ → (TransferSide → Bool) → ℕ → ℤ → Call
  relay_starts relay_ends : ℕ → Call
  closes_id : ℕ → TerminalReason → ℤ → Call
  reaps stops : ℤ → Call

unfoldable pub step : Manager → Call → Manager
unfolding begin_locked commit abort finish_route close_route conn_closed endpoint_revoked
    revoke_package revoke_permission revoke_resource revoke_control attach start_relay relay_done
    close_id reap stop
step m (begins r streams before after now) = (begin_locked r streams before after now m).0
step m (commits_by provider id token_open now) = (commit provider id token_open now m).0
step m (aborts provider id now) = (abort provider id now m).0
step m (finishes route success handles now) = (finish_route route success handles now m).0
step m (closes_route route now) = close_route route now m
step m (conn_closes conn now) = conn_closed conn now m
step m (revokes_endpoint p e g now) = endpoint_revoked p e g now m
step m (revokes_package p now) = revoke_package p now m
step m (revokes_permission p perm now) = revoke_permission p perm now m
step m (revokes_resource r g now) = revoke_resource r g now m
step m (revokes_control c r now) = revoke_control c r now m
step m (attaches id digest role owns conn now) = (attach id digest role owns conn now m).0
step m (relay_starts id) = start_relay id m
step m (relay_ends id) = relay_done id m
step m (closes_id id why now) = close_id id why now m
step m (reaps now) = reap now m
step m (stops now) = stop now m

unfoldable pub run : List Call → Manager → Manager
unfolding step
run [] m = m
run (c ∷ cs) m = run cs (step m c)

-- A change of an open record that leaves it open.
pub IsSame-open :
    (r : Record) (s : LifecycleState) (t : Record)
    → r.state ≡ s
    → (t.budgeted ≡ r.budgeted)
      × (t.max_bps ≡ r.max_bps)
      × (t.provider.owner.uid ≡ r.provider.owner.uid)
      × (t.caller.owner.uid ≡ r.caller.owner.uid)
      × (t.buffer_budgeted ≡ r.buffer_budgeted)
      × (t.buffer_reservation ≡ r.buffer_reservation)
    → is_closed t.state ≡ is_closed s
    → IsSame t r
IsSame-open r s t es (b, m, p, c, f, v) et = record {
  budgeted = b;
  bps = m;
  provider = p;
  caller = c;
  ended = et ∙ ap is_closed (sym es);
  buffered = f;
  reservation = v;
}

pub still : (r : Record) → is_closed (commits r).state ≡ is_closed prepared
unfolding is_closed
still r = refl

pub find_record-id :
    (id : ℕ) (rs : List Record) (r : Record) → find_record id rs ≡ some r → r.id ≡ id
unfolding find_record
find_record-id id [] r e = cc
find_record-id id (x ∷ rs) r e = elim (Bool-cases (x.id == id)) [
  | inl ex ↦ let eq : x ≡ r = ground (arith, e, ex) in ap (λ y. y.id) (sym eq) ∙ ground (arith, ex)
  | inr ex ↦ find_record-id id rs r (ground (arith, e, ex))
]

-- What a statement about the manager must stand for all calls to keep it.
pub record IsKept (P : Manager → Type 0) : Type 0 where
  pub closes :
      (p : Record → Bool) (reason : TerminalReason) (now : ℤ) (m : Manager)
      → P m
      → P (close_all p reason now m)
  pub changes :
      (id : ℕ) (f : Record → Record) (m : Manager) (r : Record)
      → find_record id m.records ≡ some r
      → IsSame (f r) r
      → P m
      → P (change id f m)
  pub reserves :
      (new : Record) (m : Manager)
      → exhausted m.limits (fresh new) m.ledger ≡ false
      → P m
      → P (record m {
        records = m.records ++ fresh new ∷ [];
        ledger = reserve_locked (fresh new) m.ledger;
      })
  pub finishes :
      (route : ℕ) (keep : List ℕ) (now : ℤ) (m : Manager)
      → P m
      → P (on_each (finish_one route keep now) m)
  pub works : (id : ℕ) (m : Manager) → P m → P (on_each (worker_ends id) m)
  pub reaps : (now : ℤ) (m : Manager) → P m → P (reap now m)
  pub flags : (m : Manager) (b : Bool) → P m → P (record m { stopping = b })
