-- ===== src/Transfer/Types.antt =====
-- model.go, types.go, limits.go: the records of the transfer manager. A connection is a number, 0
-- being `nil`; a transfer's id, a digest or a role is a number; a time is in nanoseconds.
use nervud.Base.{true, false, ℕ, String, Bool, Option, List, [], ◌∷◌, ◌==◌, if◌then◌else◌}
use nervud.Base.Int.{ℤ}

pub record Limits : Type 0 where
  pub max_transfers : ℕ
  pub max_transfers_per_uid : ℕ
  pub max_tombstones : ℕ
  pub max_reserved_bytes_per_second : ℕ
  pub max_reserved_bytes_per_second_per_uid : ℕ
  pub max_relay_buffer_bytes : ℕ
  pub tombstone_ttl : ℤ

pub data LifecycleState : Type 0 where
  prepared committed active closed : LifecycleState

pub data TerminalReason : Type 0 where
  none explicit_abort route_failed unreferenced expired peer_closed protocol revoked stopped :
      TerminalReason

pub data Direction : Type 0 where
  provider_to_caller caller_to_provider bidirectional : Direction

-- Of the credential, the uid.
pub record Peer : Type 0 where
  pub conn_id : ℕ
  pub package_id : String
  pub uid : ℕ

pub record TransferSide : Type 0 where
  pub owner : Peer
  pub role : ℕ
  pub ticket_digest : ℕ
  pub expires_at : ℤ
  pub expires_mono : ℕ
  pub consumed : Bool
  pub conn : ℕ

pub record Record : Type 0 where
  pub id : ℕ
  pub route_id : ℕ
  pub deadline : ℤ
  pub endpoint_id : ℕ
  pub generation : ℕ
  pub resource : String
  pub resource_gen : ℕ
  pub permissions : List String
  pub requires_lease : Bool
  pub direction : Direction
  pub mode : ℕ
  pub has_ring : Bool
  pub max_bps : ℕ
  pub buffer_reservation : ℕ
  pub provider : TransferSide
  pub caller : TransferSide
  pub state : LifecycleState
  pub origin_finished : Bool
  pub retained : Bool
  pub ever_committed : Bool
  pub relay_started : Bool
  pub terminal : TerminalReason
  pub terminal_at : ℤ
  pub budgeted : Bool
  pub buffer_budgeted : Bool
  pub relay_workers : ℕ

unfoldable pub is_closed : LifecycleState → Bool
is_closed closed = true
is_closed _ = false

unfoldable pub peer_uids : Record → List ℕ
peer_uids r =
    if r.provider.owner.uid == r.caller.owner.uid
    then r.provider.owner.uid ∷ []
    else r.provider.owner.uid ∷ r.caller.owner.uid ∷ []

unfoldable pub relay_directions : Direction → ℕ
relay_directions bidirectional = 2
relay_directions _ = 1

-- The counters of the manager. A uid that a map does not hold counts as 0. `hung_up` collects the
-- connections that are closed.
pub record Ledger : Type 0 where
  pub live_count : ℕ
  pub tombstones : ℕ
  pub reserved_bps : ℕ
  pub reserved_buffers : ℕ
  pub per_uid_count : ℕ → ℕ
  pub per_uid_bps : ℕ → ℕ
  pub hung_up : List ℕ

-- `byRoute` holds, for a route, the ids of the records that name it.
pub record Manager : Type 0 where
  pub limits : Limits
  pub sock_path : String
  pub started : Bool
  pub stopping : Bool
  pub records : List Record
  pub ledger : Ledger

-- A handle in a response: its id if it has 16 bytes, and the digest of its ticket if that has 32
-- bytes at least.
pub record Handle : Type 0 where
  pub id : Option ℕ
  pub digest : Option ℕ
  pub role : ℕ
  pub mode : ℕ
  pub expires_mono : ℕ
  pub endpoint : String
