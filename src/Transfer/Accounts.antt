-- ===== src/Transfer/Accounts.antt =====
-- manager.go: the budgets against the records that they are reserved for.
use nervud.Base.{
  ℕ, ◌+◌, ◌-◌, ◌≡◌, ◌∙◌, Bool, false, ◌&&◌, ◌||◌, List, [], ◌∷◌, ◌==◌, leb, if◌then◌else◌, arith,
  total, Bool-cases, inl, inr,
}
use nervud.Base.Int.{ℤ}
use nervud.Transfer.Types.{closed, TerminalReason, Record, is_closed, peer_uids, Ledger}
use nervud.Transfer.Budget.{sub_u64, release_buffer_locked, drop_uids, release_locked, close_locked}
use nervud.Transfer.Manager.{Visit, each}

-- What one record takes of each budget.
abbrev pub takes_live : Record → ℕ
takes_live r = if r.budgeted then 1 else 0

abbrev pub takes_bps : Record → ℕ
takes_bps r = if r.budgeted then r.max_bps else 0

abbrev pub takes_buffers : Record → ℕ
takes_buffers r = if r.buffer_budgeted then r.buffer_reservation else 0

abbrev pub has_uid : ℕ → Record → Bool
has_uid u r = r.provider.owner.uid == u || r.caller.owner.uid == u

abbrev pub takes_uid : ℕ → Record → ℕ
takes_uid u r = if r.budgeted && has_uid u r then 1 else 0

abbrev pub takes_uid_bps : ℕ → Record → ℕ
takes_uid_bps u r = if r.budgeted && has_uid u r then r.max_bps else 0

abbrev pub is_tombstone : Record → ℕ
is_tombstone r = if is_closed r.state then 1 else 0

-- A counter that counts what the records weigh, with `k` from elsewhere, keeps doing so.
abbrev pub IsFair : (Ledger → ℕ) → (Record → ℕ) → Visit → Type 0
IsFair x w v = (r : Record) (l : Ledger) (k : ℕ) → x l ≡ k + w r → x (v r l).1 ≡ k + w (v r l).0

pub each-IsFair :
    (x : Ledger → ℕ) (w : Record → ℕ) (v : Visit)
    → IsFair x w v
    → (rs : List Record) (l : Ledger) (k : ℕ) → x l ≡ k + total w rs
    → x (each v rs l).1 ≡ k + total w (each v rs l).0
unfolding each
each-IsFair x w v fair [] l k h = h
each-IsFair x w v fair (r ∷ rest) l k h =
    let this = fair r l (k + total w rest) (omega (arith, h)) in
    let later = each-IsFair x w v fair rest (v r l).1 (k + w (v r l).0) (omega (arith, this)) in
    omega (arith, later)

pub each-total :
    (x : Ledger → ℕ) (w : Record → ℕ) (v : Visit)
    → IsFair x w v
    → (rs : List Record) (l : Ledger) → x l ≡ total w rs
    → x (each v rs l).1 ≡ total w (each v rs l).0
each-total x w v fair rs l h = omega (arith, each-IsFair x w v fair rs l 0 (omega (arith, h)))

module _ (reason : TerminalReason) (now : ℤ) where
  pub close_live : IsFair (λ l. l.live_count) takes_live (close_locked reason now)
  unfolding close_locked release_locked release_buffer_locked drop_uids peer_uids is_closed
  close_live r l k h = ground (arith, h)

  pub close_bps : IsFair (λ l. l.reserved_bps) takes_bps (close_locked reason now)
  unfolding close_locked release_locked release_buffer_locked drop_uids peer_uids is_closed
  close_bps r l k h = ground (arith, h)

  pub close_tombstones : IsFair (λ l. l.tombstones) is_tombstone (close_locked reason now)
  unfolding close_locked release_locked release_buffer_locked drop_uids peer_uids is_closed
  close_tombstones r l k h = ground (arith, h)

abbrev pub less : ℕ → ℕ → ℕ
less n by = if leb n by then 0 else n - by

drop_uids_tally :
    (u bps : ℕ) (r : Record) (l : Ledger)
    → (drop_uids bps (peer_uids r) l).per_uid_count u
      ≡ (if has_uid u r then less (l.per_uid_count u) 1 else l.per_uid_count u)
unfolding drop_uids peer_uids
drop_uids_tally u bps r l = ground arith

drop_uids_rate :
    (u bps : ℕ) (r : Record) (l : Ledger)
    → (drop_uids bps (peer_uids r) l).per_uid_bps u
      ≡ (if has_uid u r then less (l.per_uid_bps u) bps else l.per_uid_bps u)
unfolding drop_uids peer_uids
drop_uids_rate u bps r l = ground arith

-- The step of `releaseLocked` on the buffers leaves the uids alone.
abbrev after_buffers : Record → Ledger → Record × Ledger
after_buffers s k = if s.relay_workers == 0 then release_buffer_locked s k else (s, k)

after_buffers_lem :
    (u : ℕ) (s : Record) (k : Ledger)
    → ((after_buffers s k).1.per_uid_count u ≡ k.per_uid_count u)
      × ((after_buffers s k).1.per_uid_bps u ≡ k.per_uid_bps u)
unfolding release_buffer_locked
after_buffers_lem u s k = ground arith

abbrev unbudgeted : Record → Record
unbudgeted r = record r { budgeted = false }

abbrev lighter : Record → Ledger → Ledger
lighter r l = record l {
  live_count = l.live_count - 1;
  reserved_bps = sub_u64 l.reserved_bps r.max_bps;
}

pub release_tally :
    (u : ℕ) (r : Record) (l : Ledger)
    → ((release_locked r l).1.per_uid_count u
        ≡ (if r.budgeted && has_uid u r then less (l.per_uid_count u) 1 else l.per_uid_count u))
      × ((release_locked r l).1.per_uid_bps u ≡ (
          if r.budgeted && has_uid u r then less (l.per_uid_bps u) r.max_bps else l.per_uid_bps u))
unfolding release_locked
release_tally u r l = elim (Bool-cases r.budgeted) [
  | inr e ↦ (ground (arith, e), ground (arith, e))
  | inl e ↦
      let b = after_buffers (unbudgeted r) (lighter r l) in
      let kept = after_buffers_lem u (unbudgeted r) (lighter r l) in
      (
        ground (arith, e, kept.0, drop_uids_tally u r.max_bps r b.1),
        ground (arith, e, kept.1, drop_uids_rate u r.max_bps r b.1),
      )
]

left_over : (b : Bool) (n m k : ℕ) → n ≡ k + (if b then m else 0) → (if b then less n m else n) ≡ k
left_over b n m k h = ground (arith, h)

released : (r : Record) (l : Ledger) → (release_locked r l).0.budgeted ≡ false
unfolding release_locked release_buffer_locked
released r l = ground arith

module _ (reason : TerminalReason) (now : ℤ) where
  abbrev ends : Record → Record
  ends r = record r { state = closed; terminal = reason; terminal_at = now }

  abbrev counted : Ledger → Ledger
  counted l = record l { tombstones = l.tombstones + 1 }

  pub close_uid : (u : ℕ) → IsFair (λ l. l.per_uid_count u) (takes_uid u) (close_locked reason now)
  unfolding close_locked
  close_uid u r l k h = elim (Bool-cases (is_closed r.state)) [
    | inl e ↦ ground (arith, e, h)
    | inr e ↦
        let t = (release_tally u (ends r) (counted l)).0 in
        let off = released (ends r) (counted l) in
        let left : (release_locked (ends r) (counted l)).1.per_uid_count u ≡ k =
          t ∙ left_over (r.budgeted && has_uid u r) (l.per_uid_count u) 1 k h in
        ground (arith, e, left, off)
  ]

  pub close_uid_bps :
      (u : ℕ) → IsFair (λ l. l.per_uid_bps u) (takes_uid_bps u) (close_locked reason now)
  unfolding close_locked
  close_uid_bps u r l k h = elim (Bool-cases (is_closed r.state)) [
    | inl e ↦ ground (arith, e, h)
    | inr e ↦
        let t = (release_tally u (ends r) (counted l)).1 in
        let off = released (ends r) (counted l) in
        let left : (release_locked (ends r) (counted l)).1.per_uid_bps u ≡ k =
          t ∙ left_over (r.budgeted && has_uid u r) (l.per_uid_bps u) r.max_bps k h in
        ground (arith, e, left, off)
  ]
