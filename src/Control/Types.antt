-- ===== src/Control/Types.antt =====
-- lease.go, module.go, slot.go: leases, slots and the state of the control module.
use nervud.Base.{ℕ, String, Bool, false, Option, none, List, [], ◌∷◌}
use nervud.Base.Int.{ℤ, pos}
use nervud.Control.Policy.{Class, Cause, Policy}

-- An immutable lease. `addr` is the address of its allocation: the slots' atomic pointers are
-- compared by it. An `ID` of 16 bytes stands as a number; of the owner, `package_id`.
pub record Lease : Type 0 where
  pub addr : ℕ
  pub id : ℕ
  pub conn : ℕ
  pub class : Class
  pub resource : String
  pub generation : ℕ
  pub owner : String
  pub issued_at : ℤ
  pub deadline : ℤ
  pub ttl : ℤ
  pub epoch : ℕ
  pub deadman : ℤ

pub record Request : Type 0 where
  pub conn : ℕ
  pub class : Class
  pub resource : String
  pub generation : ℕ
  pub owner : String
  pub ttl : ℤ
  pub deadman : ℤ
  pub requested_ttl : ℤ

pub record LeaseProof : Type 0 where
  pub id : ℕ
  pub class : Class
  pub resource : String
  pub generation : ℕ
  pub deadline : ℤ
  pub epoch : ℕ

pub record Slot : Type 0 where
  pub resource : String
  pub cur : Option Lease
  pub fresh : ℤ
  pub revoked : Option Lease
  pub revoked_epoch : ℕ

pub data Action : Type 0 where
  granted renewed released preempted expired deadman_lapsed revoked : Action

-- What leaves the module: a notification of the lease observer, or a record of the audit log.
pub data Event : Type 0 where
  ended : Lease → Event
  recorded : Action → Lease → Option Cause → Event
  denied : Request → Cause → Event

pub record Module : Type 0 where
  pub gate : ℕ
  pub policy : Policy
  -- The slot directory, oldest first. A slot is found by its resource.
  pub slots : List Slot
  -- The monotonic base of `fresh`.
  pub base : ℤ
  pub revoke_seq : ℕ
  pub safety_floor : ℕ
  pub rev_pending : ℕ
  pub observed : Bool
  pub stopped : Bool
  pub next_addr : ℕ
  -- Oldest first.
  pub log : List Event

abbrev pub max_resource_slots : ℕ
max_resource_slots = 1024

abbrev pub resource_base_main : String
resource_base_main = "base.main"

abbrev pub empty_slot : String → Slot
empty_slot r = record { resource = r; cur = none; fresh = pos 0; revoked = none; revoked_epoch = 0 }

unfoldable pub new : ℕ → Policy → ℤ → Module
new gate policy base = record {
  gate = gate;
  policy = policy;
  slots = empty_slot resource_base_main ∷ [];
  base = base;
  revoke_seq = 0;
  safety_floor = 0;
  rev_pending = 0;
  observed = false;
  stopped = false;
  next_addr = 0;
  log = [];
}
