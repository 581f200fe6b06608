-- ===== src/Transfer/Reaped.antt =====
-- listener.go: the reaper against the counters.
use nervud.Base.{
  ℕ, ◌+◌, ◌-◌, ◌≡◌, true, List, [], ◌∷◌, if◌then◌else◌, arith, total, Bool-cases, inl, inr, All,
}
use nervud.Base.Int.{ℤ}
use nervud.Transfer.Types.{expired, Limits, Record, is_closed, Ledger, Manager}
use nervud.Transfer.Budget.{close_locked}
use nervud.Transfer.Manager.{Visit}
use nervud.Transfer.Routes.{reap_from, reap, is_old, is_due}
use nervud.Transfer.Accounts.{takes_live, takes_bps, takes_uid, takes_uid_bps, is_tombstone, IsFair}
use nervud.Transfer.Balance.{IsSpent, IsBalanced, AllFair, either, close-AllFair, same-FairAt}

-- A tombstone takes nothing, so its removal changes no counter but one.
abbrev forgets : Ledger → Ledger
forgets l = record l { tombstones = l.tombstones - 1 }

abbrev IsForgotten : (Ledger → ℕ) → (Record → ℕ) → Type 0
IsForgotten x w =
    (r : Record) (l : Ledger) (k : ℕ)
    → is_closed r.state ≡ true
    → IsSpent r
    → x l ≡ k + w r
    → x (forgets l) ≡ k

abbrev reap_visit : ℤ → Visit
reap_visit now r l = if is_due now r then close_locked expired now r l else (r, l)

old_closed :
    (lim : Limits) (now : ℤ) (r : Record) → is_old lim now r ≡ true → is_closed r.state ≡ true
old_closed lim now r e = ground (arith, e)

reap-total :
    (x : Ledger → ℕ) (w : Record → ℕ) (lim : Limits) (now : ℤ)
    → IsForgotten x w
    → IsFair x w (reap_visit now)
    → (rs : List Record) (l : Ledger) (k : ℕ) → All IsSpent rs
    → x l ≡ k + total w rs
    → x (reap_from lim now rs l).1 ≡ k + total w (reap_from lim now rs l).0
unfolding reap_from
reap-total x w lim now gone stay [] l k s h = h
reap-total x w lim now gone stay (r ∷ rest) l k s h = elim (Bool-cases (is_old lim now r)) [
  | inl e ↦
      let this = gone r l (k + total w rest) (old_closed lim now r e) s.0 (omega (arith, h)) in
      let later = reap-total x w lim now gone stay rest (forgets l) k s.1 (omega (arith, this)) in
      rw (e, reap_from) later
  | inr e ↦
      let v = reap_visit now r l in
      let this = stay r l (k + total w rest) (omega (arith, h)) in
      let later = reap-total x w lim now gone stay rest v.1 (k + w v.0) s.1 (omega (arith, this)) in
      rw (e, reap_from) (omega (arith, later))
]

reap_visit-AllFair : (now : ℤ) → AllFair (reap_visit now)
reap_visit-AllFair now r l =
    either r l (is_due now r) (close_locked expired now r l) (r, l) (close-AllFair expired now r l)
      (same-FairAt r l)

reap-IsSpent :
    (lim : Limits) (now : ℤ) (rs : List Record) (l : Ledger)
    → All IsSpent rs
    → All IsSpent (reap_from lim now rs l).0
unfolding reap_from
reap-IsSpent lim now [] l h = tt
reap-IsSpent lim now (r ∷ rest) l h = elim (Bool-cases (is_old lim now r)) [
  | inl e ↦ rw (e, reap_from) (reap-IsSpent lim now rest (forgets l) h.1)
  | inr e ↦
      rw (e, reap_from)
        (
          (reap_visit-AllFair now r l).spent h.0,
          reap-IsSpent lim now rest (reap_visit now r l).1 h.1,
        )
]

-- Without a share from elsewhere.
reap-balance :
    (x : Ledger → ℕ) (w : Record → ℕ) (m : Manager) (now : ℤ)
    → IsForgotten x w
    → IsFair x w (reap_visit now)
    → All IsSpent m.records
    → x m.ledger ≡ total w m.records
    → x (reap now m).ledger ≡ total w (reap now m).records
unfolding reap
reap-balance x w m now gone stay s h =
    omega (arith, reap-total x w m.limits now gone stay m.records m.ledger 0 s (omega (arith, h)))

pub reap-IsBalanced : (now : ℤ) (m : Manager) → IsBalanced m → IsBalanced (reap now m)
unfolding reap
reap-IsBalanced now m h =
    let fair = reap_visit-AllFair now in
    record {
      live =
          reap-balance (λ l. l.live_count) takes_live m now (λ r l k c s e. ground (arith, s c, e))
            (λ r l. (fair r l).live) h.spent h.live;
      bps =
          reap-balance (λ l. l.reserved_bps) takes_bps m now (λ r l k c s e. ground (arith, s c, e))
            (λ r l. (fair r l).bps) h.spent h.bps;
      tombstones =
          reap-balance (λ l. l.tombstones) is_tombstone m now (λ r l k c s e. ground (arith, c, e))
            (λ r l. (fair r l).tombstones) h.spent h.tombstones;
      uids = λ u.
          reap-balance (λ l. l.per_uid_count u) (takes_uid u) m now
            (λ r l k c s e. ground (arith, s c, e)) (λ r l. (fair r l).uids u) h.spent (h.uids u);
      uid_bps = λ u.
          reap-balance (λ l. l.per_uid_bps u) (takes_uid_bps u) m now
            (λ r l k c s e. ground (arith, s c, e)) (λ r l. (fair r l).uid_bps u) h.spent
            (h.uid_bps u);
      spent = reap-IsSpent m.limits now m.records m.ledger h.spent;
    }
