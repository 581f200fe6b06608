-- ===== src/Transfer/Budget.antt =====
-- manager.go: the reservations of a transfer, and how a transfer is closed.
use nervud.Base.{
  ℕ, ◌+◌, ◌-◌, Bool, false, not, ◌||◌, List, [], ◌∷◌, ◌++◌, ◌==◌, ltb, leb, if◌then◌else◌,
}
use nervud.Base.Int.{ℤ}
use nervud.Transfer.Types.{Limits, closed, TerminalReason, Record, is_closed, peer_uids, Ledger}

abbrev pub entry : ℕ → ℕ → (ℕ → ℕ) → ℕ → ℕ
entry uid n f u = if u == uid then n else f u

-- What the loop of `reserveLocked` refuses.
unfoldable pub uid_exhausted : Limits → Ledger → ℕ → ℕ → Bool
uid_exhausted lim l bps uid =
    leb lim.max_transfers_per_uid (l.per_uid_count uid)
    || (ltb lim.max_reserved_bytes_per_second_per_uid bps
        || ltb (lim.max_reserved_bytes_per_second_per_uid - bps) (l.per_uid_bps uid))

unfoldable pub uids_exhausted : Limits → Ledger → ℕ → List ℕ → Bool
unfolding uid_exhausted
uids_exhausted lim l bps [] = false
uids_exhausted lim l bps (uid ∷ uids) =
    let later = uids_exhausted lim l bps uids in uid_exhausted lim l bps uid || later

unfoldable pub exhausted : Limits → Record → Ledger → Bool
unfolding uids_exhausted peer_uids
exhausted lim r l =
    (leb lim.max_transfers l.live_count || leb lim.max_tombstones l.tombstones)
    || ((ltb lim.max_reserved_bytes_per_second r.max_bps
          || ltb (lim.max_reserved_bytes_per_second - r.max_bps) l.reserved_bps)
        || ((ltb lim.max_relay_buffer_bytes r.buffer_reservation
              || ltb (lim.max_relay_buffer_bytes - r.buffer_reservation) l.reserved_buffers)
            || uids_exhausted lim l r.max_bps (peer_uids r)))

unfoldable pub add_uids : ℕ → List ℕ → Ledger → Ledger
add_uids bps [] l = l
add_uids bps (uid ∷ uids) l = add_uids bps uids (record l {
  per_uid_count = entry uid (l.per_uid_count uid + 1) l.per_uid_count;
  per_uid_bps = entry uid (l.per_uid_bps uid + bps) l.per_uid_bps;
})

-- `reserveLocked`, once it refuses nothing.
unfoldable pub reserve_locked : Record → Ledger → Ledger
unfolding add_uids peer_uids
reserve_locked r l = add_uids r.max_bps (peer_uids r) (record l {
  live_count = l.live_count + 1;
  reserved_bps = l.reserved_bps + r.max_bps;
  reserved_buffers = l.reserved_buffers + r.buffer_reservation;
})

-- The subtraction of uint64. (The additions of `reserve_locked` are of what was compared with a
-- limit, a uint64 itself.)
abbrev pub sub_u64 : ℕ → ℕ → ℕ
sub_u64 x y = if leb y x then x - y else x + 18446744073709551616 - y

unfoldable pub release_buffer_locked : Record → Ledger → Record × Ledger
release_buffer_locked r l = if not r.buffer_budgeted then (r, l) else (
  record r { buffer_budgeted = false },
  record l { reserved_buffers = sub_u64 l.reserved_buffers r.buffer_reservation },
)

unfoldable pub drop_uids : ℕ → List ℕ → Ledger → Ledger
drop_uids bps [] l = l
drop_uids bps (uid ∷ uids) l = drop_uids bps uids (record l {
  per_uid_count =
      entry uid (if leb (l.per_uid_count uid) 1 then 0 else l.per_uid_count uid - 1)
        l.per_uid_count;
  per_uid_bps =
      entry uid (if leb (l.per_uid_bps uid) bps then 0 else l.per_uid_bps uid - bps) l.per_uid_bps;
})

unfoldable pub release_locked : Record → Ledger → Record × Ledger
unfolding release_buffer_locked drop_uids peer_uids
release_locked r l =
    if not r.budgeted
    then (r, l)
    else let s = record r { budgeted = false } in
      let k = record l {
        live_count = l.live_count - 1;
        reserved_bps = sub_u64 l.reserved_bps r.max_bps;
      } in
      let b = if r.relay_workers == 0 then release_buffer_locked s k else (s, k) in
      (b.0, drop_uids r.max_bps (peer_uids r) b.1)

abbrev pub conn_list : ℕ → List ℕ
conn_list c = if c == 0 then [] else c ∷ []

unfoldable pub close_locked : TerminalReason → ℤ → Record → Ledger → Record × Ledger
unfolding is_closed release_locked
close_locked reason now r l =
    if is_closed r.state
    then (r, l)
    else let s = record r { state = closed; terminal = reason; terminal_at = now } in
      let b = release_locked s (record l { tombstones = l.tombstones + 1 }) in
      (
        record (b.0) {
          has_ring = false;
          provider = record (r.provider) { conn = 0 };
          caller = record (r.caller) { conn = 0 };
        },
        record (b.1) {
          hung_up = b.1.hung_up ++ conn_list r.provider.conn ++ conn_list r.caller.conn;
        },
      )
