-- ===== src/Transfer/Tests.antt =====
-- manager.go: the theorems at concrete managers.
use nervud.Base.{
  ℕ, ◌≡◌, ◌≢◌, refl, String, Bool, true, false, ◌||◌, some, List, [], ◌∷◌, str_eq, arith, All,
}
use nervud.Base.Int.{pos, ltb_ℤ}
use nervud.Transfer.Types as Types
use nervud.Transfer.Types.{
  Limits, prepared, provider_to_caller, Peer, TransferSide, Record, is_closed, Manager,
}
use nervud.Transfer.Manager.{ok, find_record, commit, commits, change, revoke_package}
use nervud.Transfer.Calls.{Call, begins, attaches, run}
use nervud.Transfer.Balance.{IsBalanced}
use nervud.Transfer.Spending.{run-IsBalanced, IsWithin, IsCovered, run-IsWithin}
use nervud.Transfer.Guarded.{revoke_package_closes, commit_sound}

abbrev limits : Limits
limits = record {
  max_transfers = 2;
  max_transfers_per_uid = 2;
  max_tombstones = 4;
  max_reserved_bytes_per_second = 100;
  max_reserved_bytes_per_second_per_uid = 70;
  max_relay_buffer_bytes = 64;
  tombstone_ttl = pos 30;
}

abbrev empty : Manager
empty = record {
  limits = limits;
  sock_path = "/run/x.sock";
  started = true;
  stopping = false;
  records = [];
  ledger = record {
    live_count = 0;
    tombstones = 0;
    reserved_bps = 0;
    reserved_buffers = 0;
    per_uid_count = λ u. 0;
    per_uid_bps = λ u. 0;
    hung_up = [];
  };
}

abbrev camera : String
camera = "camera"

abbrev side : ℕ → String → ℕ → ℕ → TransferSide
side conn package_id uid digest = record {
  owner = record { conn_id = conn; package_id = package_id; uid = uid };
  role = 1;
  ticket_digest = digest;
  expires_at = pos 50;
  expires_mono = 50;
  consumed = false;
  conn = 0;
}

abbrev transfer : ℕ → ℕ → Record
transfer id bps = record {
  id = id;
  route_id = 5;
  deadline = pos 60;
  endpoint_id = 1;
  generation = 1;
  resource = "";
  resource_gen = 0;
  permissions = [];
  requires_lease = false;
  direction = provider_to_caller;
  mode = 1;
  has_ring = false;
  max_bps = bps;
  buffer_reservation = 16;
  provider = side 1 camera 1000 71;
  caller = side 2 "viewer" 1001 72;
  state = prepared;
  origin_finished = false;
  retained = false;
  ever_committed = false;
  relay_started = false;
  terminal = Types.none;
  terminal_at = pos 0;
  budgeted = true;
  buffer_budgeted = true;
  relay_workers = 0;
}

abbrev any_owner : TransferSide → Bool
any_owner s = true

-- The second transfer does not fit into the rate of a uid.
abbrev calls : List Call
calls =
    begins (transfer 1 40) 4 true true (pos 10)
    ∷ begins (transfer 2 40) 4 true true (pos 11)
    ∷ begins (transfer 3 20) 4 true true (pos 12)
    ∷ attaches (some 1) (some 71) 1 any_owner 9 (pos 13)
    ∷ []

calls_live : (run calls empty).ledger.live_count ≡ 2
unfolding run
calls_live = refl

empty-IsBalanced : IsBalanced empty
empty-IsBalanced = record {
  live = refl;
  bps = refl;
  tombstones = refl;
  uids = λ u. refl;
  uid_bps = λ u. refl;
  spent = tt;
}

empty-IsWithin : IsWithin empty
empty-IsWithin = record {
  live = omega arith;
  bps = omega arith;
  buffers = omega arith;
  uids = λ u. omega arith;
  uid_bps = λ u. omega arith;
}

run-IsBalanced_example : IsBalanced (run calls empty)
run-IsBalanced_example = run-IsBalanced calls empty empty-IsBalanced

run-IsWithin_example : IsWithin (run calls empty) × IsCovered (run calls empty)
run-IsWithin_example = run-IsWithin calls empty empty-IsBalanced (omega arith) empty-IsWithin

revoke_package_closes_example :
    All
      (λ s.
        (str_eq s.provider.owner.package_id camera || str_eq s.caller.owner.package_id camera)
          ≡ true
        → is_closed s.state ≡ true)
      (revoke_package camera (pos 20) (run calls empty)).records
revoke_package_closes_example = revoke_package_closes camera (pos 20) (run calls empty)

-- The first transfer, its provider attached.
abbrev attached : Record
attached = record (transfer 1 40) {
  provider = record (side 1 camera 1000 71) { consumed = true; conn = 9 };
}

abbrev waiting : Manager
waiting = record empty { records = attached ∷ [] }

waiting_found : find_record 1 waiting.records ≡ some attached
unfolding find_record
waiting_found = refl

waiting-commits : (commit 1 (some 1) true (pos 20) waiting).1 ≡ ok
unfolding commit
waiting-commits = refl

commit_sound_example :
    (attached.provider.owner.conn_id ≡ 1)
    × (true ≡ true)
    × (ltb_ℤ (pos 20) attached.deadline ≡ true)
    × (ltb_ℤ (pos 20) attached.caller.expires_at ≡ true)
    × (attached.provider.conn ≢ 0)
    × (attached.provider.consumed ≡ true)
    × ((commit 1 (some 1) true (pos 20) waiting).0 ≡ change 1 commits waiting)
commit_sound_example =
    commit_sound 1 1 true (pos 20) waiting attached waiting_found refl waiting-commits
