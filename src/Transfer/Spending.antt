-- ===== src/Transfer/Spending.antt =====
-- manager.go, listener.go, relay.go: what holds of the budgets over any calls.
use nervud.Base.{
  some, total, total-append, subst, ℕ, ◌+◌, ◌-◌, ◌≤◌, ◌≡◌, ap, Bool, true, false, not, ◌&&◌, List,
  [], ◌∷◌, ◌++◌, ◌==◌, if◌then◌else◌, arith, Bool-cases, inl, inr,
}
use nervud.Base.Int.{ℤ}
use nervud.Transfer.Types.{
  Limits, closed, TerminalReason, Record, is_closed, peer_uids, Ledger, Manager, unreferenced,
  expired,
}
use nervud.Transfer.Budget.{
  exhausted, uid_exhausted, uids_exhausted, add_uids, reserve_locked, release_buffer_locked,
  release_locked, drop_uids, close_locked,
}
use nervud.Transfer.Manager.{
  Visit, each, on_each, close_if, close_all, find_record, change, fresh, worker_ends,
}
use nervud.Transfer.Routes.{finish_one, reap_from, reap, is_old, is_due, kept, holds}
use nervud.Transfer.Accounts.{has_uid, release_tally, takes_bps, takes_buffers}
use nervud.Transfer.Balance.{
  IsBalanced, close_all-IsBalanced, change-IsBalanced, reserve-IsBalanced, on_each-IsBalanced,
  finish_one-AllFair, worker_ends-AllFair, add_uids_lem, add_uids_rest, heavier, IsSame,
  change-total,
}
use nervud.Transfer.Reaped.{reap-IsBalanced}
use nervud.Transfer.Calls.{Call, run, IsKept}
use nervud.Transfer.Kept.{run-keeps}

IsBalanced-IsKept : IsKept IsBalanced
IsBalanced-IsKept = record {
  closes = close_all-IsBalanced;
  changes = change-IsBalanced;
  reserves = λ new m fits h. reserve-IsBalanced new m h;
  finishes = λ route keep now m h.
      on_each-IsBalanced (finish_one route keep now) m (finish_one-AllFair route keep now) h;
  works = λ id m h. on_each-IsBalanced (worker_ends id) m (worker_ends-AllFair id) h;
  reaps = reap-IsBalanced;
  flags = λ m b h. record {
    live = h.live;
    bps = h.bps;
    tombstones = h.tombstones;
    uids = h.uids;
    uid_bps = h.uid_bps;
    spent = h.spent;
  };
}

-- Over any calls, from the peers, the relays and the reaper, on a balanced manager, as a new one is:
-- the number of transfers, the tombstones and the reserved rate, in all and for each uid, stay the
-- sums over the records, and a closed transfer takes nothing of them.
pub run-IsBalanced : (cs : List Call) (m : Manager) → IsBalanced m → IsBalanced (run cs m)
run-IsBalanced cs m h = run-keeps IsBalanced IsBalanced-IsKept cs m h

-- What is reserved is within the limits.
pub record IsWithin (m : Manager) : Type 0 where
  pub live : m.ledger.live_count ≤ m.limits.max_transfers
  pub bps : m.ledger.reserved_bps ≤ m.limits.max_reserved_bytes_per_second
  pub buffers : m.ledger.reserved_buffers ≤ m.limits.max_relay_buffer_bytes
  pub uids : (u : ℕ) → m.ledger.per_uid_count u ≤ m.limits.max_transfers_per_uid
  pub uid_bps : (u : ℕ) → m.ledger.per_uid_bps u ≤ m.limits.max_reserved_bytes_per_second_per_uid

-- From one ledger to the next no count and no share of a uid rises; what the records take of the
-- rate falls from `bps` to `bps'`; and what they take of the buffers, from `buf` to `buf'`, stays
-- covered by what is reserved, which does not rise.
record Eases (bps buf : ℕ) (l : Ledger) (bps' buf' : ℕ) (k : Ledger) : Type 0 where
  live : k.live_count ≤ l.live_count
  uids : (u : ℕ) → k.per_uid_count u ≤ l.per_uid_count u
  uid_bps : (u : ℕ) → k.per_uid_bps u ≤ l.per_uid_bps u
  rate : bps' ≤ bps
  buffers :
      (n : ℕ)
      → n + buf ≤ l.reserved_buffers
      → (n + buf' ≤ k.reserved_buffers) × (k.reserved_buffers ≤ l.reserved_buffers)

-- Of one record, and of all.
abbrev EasesAt : Record → Ledger → Record × Ledger → Type 0
EasesAt r l x = Eases (takes_bps r) (takes_buffers r) l (takes_bps x.0) (takes_buffers x.0) x.1

abbrev EasesAll : List Record → Ledger → List Record × Ledger → Type 0
EasesAll rs l x =
    Eases (total takes_bps rs) (total takes_buffers rs) l (total takes_bps x.0)
      (total takes_buffers x.0) x.1

Eases-cons :
    (a b c d a' b' c' d' : ℕ) (l k j : Ledger)
    → Eases a b l a' b' k
    → Eases c d k c' d' j
    → Eases (a + c) (b + d) l (a' + c') (b' + d') j
Eases-cons a b c d a' b' c' d' l k j p q = record {
  live = omega (arith, p.live, q.live);
  uids = λ u. omega (arith, p.uids u, q.uids u);
  uid_bps = λ u. omega (arith, p.uid_bps u, q.uid_bps u);
  rate = omega (arith, p.rate, q.rate);
  buffers = λ n h.
      let this = p.buffers (n + d) (omega (arith, h)) in
      let next = q.buffers (n + b') (omega (arith, this.0)) in
      (omega (arith, next.0), omega (arith, next.1, this.1));
}

Eases-drop :
    (a b c d c' d' : ℕ) (l k j : Ledger)
    → Eases a b l 0 0 k
    → Eases c d k c' d' j
    → Eases (a + c) (b + d) l c' d' j
Eases-drop a b c d c' d' l k j p q =
    subst (λ x. Eases (a + c) (b + d) l x d' j) (omega arith)
      (subst (λ y. Eases (a + c) (b + d) l (0 + c') y j) (omega arith)
        (Eases-cons a b c d 0 0 c' d' l k j p q))

-- Nothing but the tombstones and what nothing is taken for.
Eases-same :
    (a b c d n : ℕ) (l : Ledger) → c ≤ a → d ≤ b → Eases a b l c d (record l { tombstones = n })
Eases-same a b c d n l p q = record {
  live = omega arith;
  uids = λ u. omega arith;
  uid_bps = λ u. omega arith;
  rate = p;
  buffers = λ i h. (omega (arith, h), omega arith);
}

same-EasesAt : (r : Record) (l : Ledger) → EasesAt r l (r, l)
same-EasesAt r l =
    Eases-same (takes_bps r) (takes_buffers r) (takes_bps r) (takes_buffers r) l.tombstones l
      (omega arith) (omega arith)

release-EasesAt : (r : Record) (l : Ledger) → EasesAt r l (release_locked r l)
unfolding release_locked release_buffer_locked drop_uids peer_uids
release-EasesAt r l = record {
  live = ground arith;
  uids = λ u. ground (arith, (release_tally u r l).0);
  uid_bps = λ u. ground (arith, (release_tally u r l).1);
  rate = ground arith;
  buffers = λ n h. (ground (arith, h), ground (arith, h));
}

close-EasesAt :
    (reason : TerminalReason) (now : ℤ) (r : Record) (l : Ledger)
    → EasesAt r l (close_locked reason now r l)
unfolding close_locked
close-EasesAt reason now r l =
    let s = record r { state = closed; terminal = reason; terminal_at = now } in
    let k = record l { tombstones = l.tombstones + 1 } in
    let h = release-EasesAt s k in
    record {
      live = ground (arith, h.live);
      uids = λ u. ground (arith, h.uids u);
      uid_bps = λ u. ground (arith, h.uid_bps u);
      rate = ground (arith, h.rate);
      buffers = λ n e. (ground (arith, e, h.buffers n e), ground (arith, e, h.buffers n e));
    }

either-EasesAt :
    (r : Record) (l : Ledger) (b : Bool) (x y : Record × Ledger)
    → EasesAt r l x
    → EasesAt r l y
    → EasesAt r l (if b then x else y)
either-EasesAt r l true x y hx hy = hx
either-EasesAt r l false x y hx hy = hy

each-EasesAll :
    (v : Visit)
    → ((r : Record) (l : Ledger) → EasesAt r l (v r l))
    → (rs : List Record) (l : Ledger) → EasesAll rs l (each v rs l)
unfolding each
each-EasesAll v f [] l = Eases-same 0 0 0 0 l.tombstones l (omega arith) (omega arith)
each-EasesAll v f (r ∷ rest) l =
    let x = v r l in
    let y = each v rest x.1 in
    Eases-cons (takes_bps r) (takes_buffers r) (total takes_bps rest) (total takes_buffers rest)
      (takes_bps x.0) (takes_buffers x.0) (total takes_bps y.0) (total takes_buffers y.0) l x.1 y.1
      (f r l) (each-EasesAll v f rest x.1)

reap-EasesAll :
    (lim : Limits) (now : ℤ) (rs : List Record) (l : Ledger)
    → EasesAll rs l (reap_from lim now rs l)
unfolding reap_from
reap-EasesAll lim now [] l = Eases-same 0 0 0 0 l.tombstones l (omega arith) (omega arith)
reap-EasesAll lim now (r ∷ rest) l = elim (Bool-cases (is_old lim now r)) [
  | inl e ↦
      let k = record l { tombstones = l.tombstones - 1 } in
      let y = reap_from lim now rest k in
      rw (e, reap_from)
        (Eases-drop (takes_bps r) (takes_buffers r) (total takes_bps rest)
          (total takes_buffers rest) (total takes_bps y.0) (total takes_buffers y.0) l k y.1
          (Eases-same (takes_bps r) (takes_buffers r) 0 0 (l.tombstones - 1) l (omega arith)
            (omega arith))
          (reap-EasesAll lim now rest k))
  | inr e ↦
      let x = if is_due now r then close_locked expired now r l else (r, l) in
      let y = reap_from lim now rest x.1 in
      rw (e, reap_from)
        (Eases-cons (takes_bps r) (takes_buffers r) (total takes_bps rest)
          (total takes_buffers rest) (takes_bps x.0) (takes_buffers x.0) (total takes_bps y.0)
          (total takes_buffers y.0) l x.1 y.1
          (either-EasesAt r l (is_due now r) (close_locked expired now r l) (r, l)
            (close-EasesAt expired now r l) (same-EasesAt r l))
          (reap-EasesAll lim now rest x.1))
]

-- The buffers that the records take are reserved.
abbrev pub IsCovered : Manager → Type 0
IsCovered m = total takes_buffers m.records ≤ m.ledger.reserved_buffers

record IsSound (m : Manager) : Type 0 where
  balanced : IsBalanced m
  covered : IsCovered m
  within : IsWithin m

eased :
    (m : Manager) (rs : List Record) (l : Ledger)
    → EasesAll m.records m.ledger (rs, l)
    → IsBalanced (record m { records = rs; ledger = l })
    → IsSound m
    → IsSound (record m { records = rs; ledger = l })
eased m rs l q b h =
    let kept_buffers = q.buffers 0 (omega (arith, h.covered)) in
    record {
      balanced = b;
      covered = omega (arith, kept_buffers.0);
      within = record {
        live = omega (arith, q.live, h.within.live);
        bps = omega (arith, q.rate, b.bps, h.balanced.bps, h.within.bps);
        buffers = omega (arith, kept_buffers.1, h.within.buffers);
        uids = λ u. omega (arith, q.uids u, h.within.uids u);
        uid_bps = λ u. omega (arith, q.uid_bps u, h.within.uid_bps u);
      };
    }

visit-IsSound :
    (v : Visit) (m : Manager)
    → ((r : Record) (l : Ledger) → EasesAt r l (v r l))
    → IsBalanced (on_each v m)
    → IsSound m
    → IsSound (on_each v m)
visit-IsSound v m f b h =
    eased m (each v m.records m.ledger).0 (each v m.records m.ledger).1
      (each-EasesAll v f m.records m.ledger) b h

close_if-EasesAt :
    (p : Record → Bool) (reason : TerminalReason) (now : ℤ) (r : Record) (l : Ledger)
    → EasesAt r l (close_if p reason now r l)
close_if-EasesAt p reason now r l =
    either-EasesAt r l (p r) (close_locked reason now r l) (r, l) (close-EasesAt reason now r l)
      (same-EasesAt r l)

finish-EasesAt :
    (route : ℕ) (keep : List ℕ) (now : ℤ) (r : Record) (l : Ledger)
    → EasesAt r l (finish_one route keep now r l)
finish-EasesAt route keep now r l =
    either-EasesAt r l (r.route_id == route && not (is_closed r.state))
      (if holds r.id keep then (kept r, l) else close_locked unreferenced now r l) (r, l)
      (either-EasesAt r l (holds r.id keep) (kept r, l) (close_locked unreferenced now r l)
        (same-EasesAt r l) (close-EasesAt unreferenced now r l))
      (same-EasesAt r l)

work-EasesAt : (id : ℕ) (r : Record) (l : Ledger) → EasesAt r l (worker_ends id r l)
unfolding release_buffer_locked
work-EasesAt id r l = record {
  live = ground arith;
  uids = λ u. ground arith;
  uid_bps = λ u. ground arith;
  rate = ground arith;
  buffers = λ n h. (ground (arith, h), ground (arith, h));
}

-- What is not exhausted has room for the record.
room :
    (lim : Limits) (r : Record) (l : Ledger)
    → exhausted lim r l ≡ false
    → (l.live_count + 1 ≤ lim.max_transfers)
      × (l.reserved_bps + r.max_bps ≤ lim.max_reserved_bytes_per_second)
      × (l.reserved_buffers + r.buffer_reservation ≤ lim.max_relay_buffer_bytes)
unfolding exhausted
room lim r l e = ground (arith, e)

uid_room :
    (lim : Limits) (r : Record) (l : Ledger) (u : ℕ)
    → exhausted lim r l ≡ false
    → has_uid u r ≡ true
    → (l.per_uid_count u + 1 ≤ lim.max_transfers_per_uid)
      × (l.per_uid_bps u + r.max_bps ≤ lim.max_reserved_bytes_per_second_per_uid)
unfolding exhausted uids_exhausted uid_exhausted peer_uids
uid_room lim r l u e has = elim (Bool-cases (r.provider.owner.uid == u)) [
  | inl eu ↦
      let same : r.provider.owner.uid ≡ u = ground (arith, eu) in
      ground (arith, e, ap l.per_uid_count same, ap l.per_uid_bps same)
  | inr eu ↦
      let same : r.caller.owner.uid ≡ u = ground (arith, eu, has) in
      ground (arith, e, eu, ap l.per_uid_count same, ap l.per_uid_bps same)
]

add_uids_buffers :
    (bps : ℕ) (r : Record) (l : Ledger)
    → (add_uids bps (peer_uids r) l).reserved_buffers ≡ l.reserved_buffers
unfolding add_uids peer_uids
add_uids_buffers bps r l = ground arith

reserve-IsWithin :
    (new : Record) (m : Manager)
    → exhausted m.limits (fresh new) m.ledger ≡ false
    → IsWithin m
    → IsWithin (record m {
      records = m.records ++ fresh new ∷ [];
      ledger = reserve_locked (fresh new) m.ledger;
    })
unfolding reserve_locked
reserve-IsWithin new m fits h =
    let r = fresh new in
    let l = heavier r m.ledger in
    let free = room m.limits r m.ledger fits in
    let rest = add_uids_rest r.max_bps r l in
    record {
      live = omega (arith, free.0, rest.0);
      bps = omega (arith, free.1, rest.1);
      buffers = omega (arith, free.2, add_uids_buffers r.max_bps r l);
      uids = λ u. elim (Bool-cases (has_uid u r)) [
        | inl e ↦
            ground (
              arith,
              e,
              (uid_room m.limits r m.ledger u fits e).0,
              (add_uids_lem u r.max_bps r l).0,
            )
        | inr e ↦ ground (arith, e, h.uids u, (add_uids_lem u r.max_bps r l).0)
      ];
      uid_bps = λ u. elim (Bool-cases (has_uid u r)) [
        | inl e ↦
            ground (
              arith,
              e,
              (uid_room m.limits r m.ledger u fits e).1,
              (add_uids_lem u r.max_bps r l).1,
            )
        | inr e ↦ ground (arith, e, h.uid_bps u, (add_uids_lem u r.max_bps r l).1)
      ];
    }

reserve-IsCovered :
    (new : Record) (m : Manager)
    → IsCovered m
    → IsCovered (record m {
      records = m.records ++ fresh new ∷ [];
      ledger = reserve_locked (fresh new) m.ledger;
    })
unfolding reserve_locked
reserve-IsCovered new m h =
    let r = fresh new in
    let l = heavier r m.ledger in
    omega (arith, h, add_uids_buffers r.max_bps r l, total-append takes_buffers m.records (r ∷ []))

change-IsSound :
    (id : ℕ) (f : Record → Record) (m : Manager) (r : Record)
    → find_record id m.records ≡ some r
    → IsSame (f r) r
    → IsSound m
    → IsSound (change id f m)
unfolding change
change-IsSound id f m r found same h =
    let takes =
      change-total takes_buffers id f m.records r found
        (ground (arith, same.buffered, same.reservation)) in
    record {
      balanced = change-IsBalanced id f m r found same h.balanced;
      covered = omega (arith, takes, h.covered);
      within = record {
        live = h.within.live;
        bps = h.within.bps;
        buffers = h.within.buffers;
        uids = h.within.uids;
        uid_bps = h.within.uid_bps;
      };
    }

IsSound-IsKept : IsKept IsSound
unfolding close_all reap
IsSound-IsKept = record {
  closes = λ p reason now m h.
      visit-IsSound (close_if p reason now) m (close_if-EasesAt p reason now)
        (close_all-IsBalanced p reason now m h.balanced) h;
  changes = change-IsSound;
  reserves = λ new m fits h. record {
    balanced = reserve-IsBalanced new m h.balanced;
    covered = reserve-IsCovered new m h.covered;
    within = reserve-IsWithin new m fits h.within;
  };
  finishes = λ route keep now m h.
      visit-IsSound (finish_one route keep now) m (finish-EasesAt route keep now)
        (IsBalanced-IsKept.finishes route keep now m h.balanced) h;
  works = λ id m h.
      visit-IsSound (worker_ends id) m (work-EasesAt id) (IsBalanced-IsKept.works id m h.balanced)
        h;
  reaps = λ now m h.
      eased m (reap_from m.limits now m.records m.ledger).0
        (reap_from m.limits now m.records m.ledger).1
        (reap-EasesAll m.limits now m.records m.ledger) (reap-IsBalanced now m h.balanced) h;
  flags = λ m b h. record {
    balanced = IsBalanced-IsKept.flags m b h.balanced;
    covered = h.covered;
    within = record {
      live = h.within.live;
      bps = h.within.bps;
      buffers = h.within.buffers;
      uids = h.within.uids;
      uid_bps = h.within.uid_bps;
    };
  };
}

-- Over any calls on a manager that is balanced, within its limits, and has reserved the buffers that
-- its records take: the number of transfers, the reserved rate and the reserved buffers never exceed
-- the limits, nor does any uid exceed its share; and the buffers that records take stay reserved, so
-- that none is given back twice.
pub run-IsWithin :
    (cs : List Call) (m : Manager)
    → IsBalanced m
    → IsCovered m
    → IsWithin m
    → IsWithin (run cs m) × IsCovered (run cs m)
run-IsWithin cs m b c w =
    let h =
      run-keeps IsSound IsSound-IsKept cs m (record { balanced = b; covered = c; within = w }) in
    (h.within, h.covered)
