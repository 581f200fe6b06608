-- ===== src/Transfer/Guarded.antt =====
-- manager.go: what a revocation closes, and what a commit has seen.
use nervud.Base.{
  ℕ, ◌≡◌, refl, ◌≢◌, String, Bool, true, false, ◌||◌, some, List, [], ◌∷◌, str_eq, arith, All,
  if◌then◌else◌,
}
use nervud.Base.Int.{ℤ, ltb_ℤ}
use nervud.Transfer.Types.{TerminalReason, revoked, prepared, Record, is_closed, Ledger, Manager}
use nervud.Transfer.Budget.{close_locked, release_locked, release_buffer_locked}
use nervud.Transfer.Manager.{
  ok, each, close_if, close_all, find_record, commit, commits, change, revoke_package,
}

close_locked_closes :
    (reason : TerminalReason) (now : ℤ) (r : Record) (l : Ledger)
    → is_closed (close_locked reason now r l).0.state ≡ true
unfolding close_locked release_locked release_buffer_locked is_closed
close_locked_closes reason now r l = ground arith

abbrev Closed : (Record → Bool) → Record → Type 0
Closed p s = p s ≡ true → is_closed s.state ≡ true

passed :
    (p : Record → Bool) (reason : TerminalReason) (now : ℤ) (r : Record) (l : Ledger) (b : Bool)
    → p r ≡ b
    → Closed p (if b then close_locked reason now r l else (r, l)).0
passed p reason now r l true e h = close_locked_closes reason now r l
passed p reason now r l false e h = ground (arith, e, h)

each_closes :
    (p : Record → Bool) (reason : TerminalReason) (now : ℤ) (rs : List Record) (l : Ledger)
    → All (Closed p) (each (close_if p reason now) rs l).0
unfolding each
each_closes p reason now [] l = tt
each_closes p reason now (r ∷ rest) l = (
  passed p reason now r l (p r) refl,
  each_closes p reason now rest (close_if p reason now r l).1,
)

-- After the revocation of a package no transfer of it, as the provider's side or the caller's, is
-- open.
pub revoke_package_closes :
    (package_id : String) (now : ℤ) (m : Manager)
    → All
        (λ s.
          (str_eq s.provider.owner.package_id package_id
              || str_eq s.caller.owner.package_id package_id)
            ≡ true
          → is_closed s.state ≡ true)
        (revoke_package package_id now m).records
unfolding revoke_package close_all
revoke_package_closes package_id now m =
    each_closes
      (λ r.
        str_eq r.provider.owner.package_id package_id
        || str_eq r.caller.owner.package_id package_id)
      revoked now m.records m.ledger

-- A commit that succeeds on a transfer that is prepared comes from its provider, which has
-- attached, with the route's token open and before the deadline and the caller's expiry.
pub commit_sound :
    (provider id : ℕ) (token_open : Bool) (now : ℤ) (m : Manager) (r : Record)
    → find_record id m.records ≡ some r
    → r.state ≡ prepared
    → (commit provider (some id) token_open now m).1 ≡ ok
    → (r.provider.owner.conn_id ≡ provider)
      × (token_open ≡ true)
      × (ltb_ℤ now r.deadline ≡ true)
      × (ltb_ℤ now r.caller.expires_at ≡ true)
      × (r.provider.conn ≢ 0)
      × (r.provider.consumed ≡ true)
      × ((commit provider (some id) token_open now m).0 ≡ change id commits m)
unfolding commit
commit_sound provider id token_open now m r e es h = (
  ground (arith, e, es, h),
  ground (arith, e, es, h),
  ground (arith, e, es, h),
  ground (arith, e, es, h),
  (λ z. ground (arith, e, es, h, z)),
  ground (arith, e, es, h),
  ground (arith, e, es, h),
)
