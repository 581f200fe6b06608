-- ===== src/Transfer/Balance.antt =====
-- manager.go, listener.go, relay.go: the counters of the manager against its records, over any calls.
use nervud.Base.{
  ℕ, ◌+◌, ◌-◌, ◌≡◌, refl, sym, subst, ◌∙◌, Bool, true, false, not, ◌&&◌, some, List, [], ◌∷◌, ◌++◌,
  ◌==◌, if◌then◌else◌, arith, total, total-append, Bool-cases, inl, inr, All, All-append,
}
use nervud.Base.Int.{ℤ}
use nervud.Transfer.Types.{
  unreferenced, TerminalReason, Record, is_closed, peer_uids, Ledger, Manager,
}
use nervud.Transfer.Budget.{
  sub_u64, add_uids, reserve_locked, release_buffer_locked, release_locked, close_locked,
}
use nervud.Transfer.Manager.{
  one_less, Visit, each, on_each, close_if, close_all, find_record, has_id, change_first, change,
  fresh, worker_ends,
}
use nervud.Transfer.Routes.{kept, holds, finish_one}
use nervud.Transfer.Accounts.{
  each-total, takes_live, takes_bps, has_uid, takes_uid, takes_uid_bps, is_tombstone, close_live,
  close_bps, close_tombstones, close_uid, close_uid_bps,
}

abbrev pub IsSpent : Record → Type 0
IsSpent r = is_closed r.state ≡ true → r.budgeted ≡ false

-- The counters are the sums over the records, and a closed record takes nothing.
pub record IsBalanced (m : Manager) : Type 0 where
  pub live : m.ledger.live_count ≡ total takes_live m.records
  pub bps : m.ledger.reserved_bps ≡ total takes_bps m.records
  pub tombstones : m.ledger.tombstones ≡ total is_tombstone m.records
  pub uids : (u : ℕ) → m.ledger.per_uid_count u ≡ total (takes_uid u) m.records
  pub uid_bps : (u : ℕ) → m.ledger.per_uid_bps u ≡ total (takes_uid_bps u) m.records
  pub spent : All IsSpent m.records

pub record FairAt (r : Record) (l : Ledger) (x : Record × Ledger) : Type 0 where
  pub live : (k : ℕ) → l.live_count ≡ k + takes_live r → x.1.live_count ≡ k + takes_live x.0
  pub bps : (k : ℕ) → l.reserved_bps ≡ k + takes_bps r → x.1.reserved_bps ≡ k + takes_bps x.0
  pub tombstones :
      (k : ℕ) → l.tombstones ≡ k + is_tombstone r → x.1.tombstones ≡ k + is_tombstone x.0
  pub uids :
      (u k : ℕ) → l.per_uid_count u ≡ k + takes_uid u r → x.1.per_uid_count u ≡ k + takes_uid u x.0
  pub uid_bps :
      (u k : ℕ)
      → l.per_uid_bps u ≡ k + takes_uid_bps u r
      → x.1.per_uid_bps u ≡ k + takes_uid_bps u x.0
  pub spent : IsSpent r → IsSpent x.0

abbrev pub AllFair : Visit → Type 0
AllFair v = (r : Record) (l : Ledger) → FairAt r l (v r l)

each-IsSpent :
    (v : Visit) (f : AllFair v) (rs : List Record) (l : Ledger)
    → All IsSpent rs
    → All IsSpent (each v rs l).0
unfolding each
each-IsSpent v f [] l h = tt
each-IsSpent v f (r ∷ rest) l h = ((f r l).spent h.0, each-IsSpent v f rest (v r l).1 h.1)

pub on_each-IsBalanced :
    (v : Visit) (m : Manager) → AllFair v → IsBalanced m → IsBalanced (on_each v m)
on_each-IsBalanced v m f h = record {
  live =
      each-total (λ l. l.live_count) takes_live v (λ r l. (f r l).live) m.records m.ledger h.live;
  bps = each-total (λ l. l.reserved_bps) takes_bps v (λ r l. (f r l).bps) m.records m.ledger h.bps;
  tombstones =
      each-total (λ l. l.tombstones) is_tombstone v (λ r l. (f r l).tombstones) m.records m.ledger
        h.tombstones;
  uids = λ u.
      each-total (λ l. l.per_uid_count u) (takes_uid u) v (λ r l. (f r l).uids u) m.records m.ledger
        (h.uids u);
  uid_bps = λ u.
      each-total (λ l. l.per_uid_bps u) (takes_uid_bps u) v (λ r l. (f r l).uid_bps u) m.records
        m.ledger (h.uid_bps u);
  spent = each-IsSpent v f m.records m.ledger h.spent;
}

close-IsSpent :
    (reason : TerminalReason) (now : ℤ) (r : Record) (l : Ledger)
    → IsSpent r
    → IsSpent (close_locked reason now r l).0
unfolding close_locked release_locked release_buffer_locked is_closed
close-IsSpent reason now r l h = ground (arith, h)

pub close-AllFair : (reason : TerminalReason) (now : ℤ) → AllFair (close_locked reason now)
close-AllFair reason now r l = record {
  live = close_live reason now r l;
  bps = close_bps reason now r l;
  tombstones = close_tombstones reason now r l;
  uids = λ u. close_uid reason now u r l;
  uid_bps = λ u. close_uid_bps reason now u r l;
  spent = close-IsSpent reason now r l;
}

pub either :
    (r : Record) (l : Ledger) (b : Bool) (x y : Record × Ledger)
    → FairAt r l x
    → FairAt r l y
    → FairAt r l (if b then x else y)
either r l true x y hx hy = hx
either r l false x y hx hy = hy

-- What changes neither the counters, the buffers' aside, nor what they count.
pub stays :
    (r : Record) (l : Ledger) (s : Record) (n : ℕ)
    → s.budgeted ≡ r.budgeted
    → s.max_bps ≡ r.max_bps
    → s.provider.owner.uid ≡ r.provider.owner.uid
    → s.caller.owner.uid ≡ r.caller.owner.uid
    → is_closed s.state ≡ is_closed r.state
    → FairAt r l (s, record l { reserved_buffers = n })
stays r l s n eb em ep ec es = record {
  live = λ k h. ground (arith, eb, h);
  bps = λ k h. ground (arith, eb, em, h);
  tombstones = λ k h. ground (arith, es, h);
  uids = λ u k h. ground (arith, eb, ep, ec, h);
  uid_bps = λ u k h. ground (arith, eb, em, ep, ec, h);
  spent = λ h c. eb ∙ h (sym es ∙ c);
}

pub same-FairAt : (r : Record) (l : Ledger) → FairAt r l (r, l)
same-FairAt r l = stays r l r l.reserved_buffers refl refl refl refl refl

close_if-AllFair :
    (p : Record → Bool) (reason : TerminalReason) (now : ℤ) → AllFair (close_if p reason now)
close_if-AllFair p reason now r l =
    either r l (p r) (close_locked reason now r l) (r, l) (close-AllFair reason now r l)
      (same-FairAt r l)

pub close_all-IsBalanced :
    (p : Record → Bool) (reason : TerminalReason) (now : ℤ) (m : Manager)
    → IsBalanced m
    → IsBalanced (close_all p reason now m)
unfolding close_all
close_all-IsBalanced p reason now m h =
    on_each-IsBalanced (close_if p reason now) m (close_if-AllFair p reason now) h

pub finish_one-AllFair : (route : ℕ) (keep : List ℕ) (now : ℤ) → AllFair (finish_one route keep now)
finish_one-AllFair route keep now r l =
    either r l (r.route_id == route && not (is_closed r.state))
      (if holds r.id keep then (kept r, l) else close_locked unreferenced now r l) (r, l)
      (either r l (holds r.id keep) (kept r, l) (close_locked unreferenced now r l)
        (stays r l (kept r) l.reserved_buffers refl refl refl refl refl)
        (close-AllFair unreferenced now r l))
      (same-FairAt r l)

pub worker_ends-AllFair : (id : ℕ) → AllFair (worker_ends id)
unfolding release_buffer_locked
worker_ends-AllFair id r l =
    let less = one_less r in
    either r l (has_id id r && not (r.relay_workers == 0))
      (if r.relay_workers - 1 == 0 then release_buffer_locked less l else (less, l)) (r, l)
      (either r l (r.relay_workers - 1 == 0) (release_buffer_locked less l) (less, l)
        (either r l (not r.buffer_budgeted) (less, l)
          (
            record less { buffer_budgeted = false },
            record l { reserved_buffers = sub_u64 l.reserved_buffers r.buffer_reservation },
          )
          (stays r l less l.reserved_buffers refl refl refl refl refl)
          (stays r l (record less { buffer_budgeted = false })
            (sub_u64 l.reserved_buffers r.buffer_reservation) refl refl refl refl refl))
        (stays r l less l.reserved_buffers refl refl refl refl refl))
      (same-FairAt r l)

-- A change of a record that is found, which keeps what it takes.
pub change-total :
    (w : Record → ℕ) (id : ℕ) (f : Record → Record) (rs : List Record) (r : Record)
    → find_record id rs ≡ some r
    → w (f r) ≡ w r
    → total w (change_first id f rs) ≡ total w rs
unfolding find_record change_first
change-total w id f [] r found same = refl
change-total w id f (x ∷ rest) r found same = elim (Bool-cases (x.id == id)) [
  | inl e ↦
      let eq : x ≡ r = ground (arith, e, found) in
      let at : w (f x) ≡ w x = subst (λ y. w (f y) ≡ w y) (sym eq) same in ground (arith, e, at)
  | inr e ↦ ground (arith, e, change-total w id f rest r (ground (arith, e, found)) same)
]

change-IsSpent :
    (id : ℕ) (f : Record → Record) (rs : List Record) (r : Record)
    → find_record id rs ≡ some r
    → (IsSpent r → IsSpent (f r))
    → All IsSpent rs
    → All IsSpent (change_first id f rs)
unfolding find_record change_first
change-IsSpent id f [] r found keep h = tt
change-IsSpent id f (x ∷ rest) r found keep h = elim (Bool-cases (x.id == id)) [
  | inl e ↦
      let eq : x ≡ r = ground (arith, e, found) in
      rw (e, change_first) (subst (λ y. IsSpent y → IsSpent (f y)) (sym eq) keep h.0, h.1)
  | inr e ↦
      rw (e, change_first) (h.0, change-IsSpent id f rest r (ground (arith, e, found)) keep h.1)
]

-- What a record takes is told by these fields.
pub record IsSame (s r : Record) : Type 0 where
  pub budgeted : s.budgeted ≡ r.budgeted
  pub bps : s.max_bps ≡ r.max_bps
  pub provider : s.provider.owner.uid ≡ r.provider.owner.uid
  pub caller : s.caller.owner.uid ≡ r.caller.owner.uid
  pub ended : is_closed s.state ≡ is_closed r.state
  pub buffered : s.buffer_budgeted ≡ r.buffer_budgeted
  pub reservation : s.buffer_reservation ≡ r.buffer_reservation

pub change-IsBalanced :
    (id : ℕ) (f : Record → Record) (m : Manager) (r : Record)
    → find_record id m.records ≡ some r
    → IsSame (f r) r
    → IsBalanced m
    → IsBalanced (change id f m)
unfolding change
change-IsBalanced id f m r found q h =
    let eb = q.budgeted in
    let em = q.bps in
    let ep = q.provider in
    let ec = q.caller in
    let es = q.ended in
    let rs = m.records in
    record {
      live = h.live ∙ sym (change-total takes_live id f rs r found (ground (arith, eb)));
      bps = h.bps ∙ sym (change-total takes_bps id f rs r found (ground (arith, eb, em)));
      tombstones =
          h.tombstones ∙ sym (change-total is_tombstone id f rs r found (ground (arith, es)));
      uids = λ u.
          h.uids u ∙ sym (change-total (takes_uid u) id f rs r found (ground (arith, eb, ep, ec)));
      uid_bps = λ u.
          h.uid_bps u
          ∙ sym (change-total (takes_uid_bps u) id f rs r found (ground (arith, eb, em, ep, ec)));
      spent = change-IsSpent id f rs r found (λ spent c. eb ∙ spent (sym es ∙ c)) h.spent;
    }

-- A reservation adds what the record takes.
pub add_uids_lem :
    (u bps : ℕ) (r : Record) (l : Ledger)
    → ((add_uids bps (peer_uids r) l).per_uid_count u
        ≡ l.per_uid_count u + (if has_uid u r then 1 else 0))
      × ((add_uids bps (peer_uids r) l).per_uid_bps u
          ≡ l.per_uid_bps u + (if has_uid u r then bps else 0))
unfolding add_uids peer_uids
add_uids_lem u bps r l = ground arith

pub add_uids_rest :
    (bps : ℕ) (r : Record) (l : Ledger)
    → ((add_uids bps (peer_uids r) l).live_count ≡ l.live_count)
      × ((add_uids bps (peer_uids r) l).reserved_bps ≡ l.reserved_bps)
      × ((add_uids bps (peer_uids r) l).tombstones ≡ l.tombstones)
unfolding add_uids peer_uids
add_uids_rest bps r l = ground arith

abbrev pub heavier : Record → Ledger → Ledger
heavier r l = record l {
  live_count = l.live_count + 1;
  reserved_bps = l.reserved_bps + r.max_bps;
  reserved_buffers = l.reserved_buffers + r.buffer_reservation;
}

pub reserve-IsBalanced :
    (new : Record) (m : Manager)
    → IsBalanced m
    → IsBalanced (record m {
      records = m.records ++ fresh new ∷ [];
      ledger = reserve_locked (fresh new) m.ledger;
    })
unfolding reserve_locked is_closed
reserve-IsBalanced new m h =
    let r = fresh new in
    let l = heavier r m.ledger in
    let rest = add_uids_rest r.max_bps r l in
    record {
      live = omega (arith, rest.0, h.live, total-append takes_live m.records (r ∷ []));
      bps = omega (arith, rest.1, h.bps, total-append takes_bps m.records (r ∷ []));
      tombstones =
          omega (arith, rest.2, h.tombstones, total-append is_tombstone m.records (r ∷ []));
      uids = λ u. omega (
        arith,
        (add_uids_lem u r.max_bps r l).0,
        h.uids u,
        total-append (takes_uid u) m.records (r ∷ []),
      );
      uid_bps = λ u. omega (
        arith,
        (add_uids_lem u r.max_bps r l).1,
        h.uid_bps u,
        total-append (takes_uid_bps u) m.records (r ∷ []),
      );
      spent = All-append IsSpent m.records (r ∷ []) h.spent ((λ c. cc), tt);
    }
