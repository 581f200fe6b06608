-- ===== src/Operation/Types.antt =====
-- operation.go, manager.go: the records of the operation manager.
use nervud.Base.{ℕ, String, Bool, false, Option, none, some, List, [], ◌∷◌, ◌==◌, if◌then◌else◌}
use nervud.Base.Int.{ℤ}
use nervud.Operation.State.{State}

abbrev pub Bytes : Type 0
Bytes = List ℕ

-- The status codes of the IPC protocol that the package names. `unlisted` is any other.
pub data StatusCode : Type 0 where
  unspecified_code ok_code accepted cancelled_code internal invalid_argument failed_precondition
        deadline_code unavailable resource_exhausted not_found permission_denied unauthenticated :
      StatusCode
  unlisted : ℕ → StatusCode

-- The package's sentinel errors, and the two reasons of manager.go and reporter.go that reach only
-- the audit log.
pub data Error : Type 0 where
  err_not_found illegal_transition already_terminal stale_epoch superseded deadline_exceeded
        provider_contract not_running shutting_down conn_closed provider_failed :
      Error

-- The Action names of the audit log. A rejected creation has a record of its own.
pub data Action : Type 0 where
  created cancel_asked accepts succeeds fails cancels illegal safety_superseded deadline_passed
        conn_gone shutdown :
      Action

pub record OriginBinding : Type 0 where
  pub interface_id : String
  pub iface_major : ℕ
  pub iface_minor : ℕ
  pub method_id : ℕ
  pub schema_hash : Bytes

-- A connection stands as a number, 0 being `nil`. A time is in nanoseconds after the zero `Time`.
-- Of the caller, `package_id`.
pub record Operation : Type 0 where
  pub id : ℕ
  pub origin : OriginBinding
  pub caller : String
  pub resources : List String
  pub lease_id : ℕ
  pub motion_epoch : ℕ
  pub deadline : ℤ
  pub state : State
  pub terminal_status : StatusCode
  pub terminal_result : Bytes
  pub terminal_error : Bytes
  pub created_at : ℤ
  pub updated_at : ℤ
  pub conn : ℕ
  pub provider_conn : ℕ

pub data EventKind : Type 0 where
  event_progress event_state : EventKind

pub record Event : Type 0 where
  pub operation_id : ℕ
  pub kind : EventKind
  pub state : State
  pub origin : OriginBinding
  pub payload : Bytes
  pub terminal_status : StatusCode
  pub terminal_result : Bytes
  pub terminal_error : Bytes

-- A subscription: its channel's buffer, oldest first, and whether `m.subs` still lists it.
pub record Subscription : Type 0 where
  pub handle : ℕ
  pub operation : ℕ
  pub queue : List Event
  pub listed : Bool
  pub closed : Bool

pub data Record : Type 0 where
  of_operation : Action → Operation → Option Error → Record
  rejected : String → List String → ℕ → StatusCode → Record

pub record Manager : Type 0 where
  -- The validators, `none` where they are `nil`.
  pub res : Option (String → Bool)
  pub lease : Option (ℕ → ℕ → ℕ → String → Bool)
  -- The map of the operations, one entry for each id.
  pub ops : List Operation
  pub subs : List Subscription
  pub next_handle : ℕ
  -- Whether an observer is installed, and what it has been given.
  pub observer : Bool
  pub observed : List Event
  pub next_id : ℕ
  pub supersede_epoch : ℕ
  pub wake : Bool
  pub stopping : Bool
  pub audit : List Record

unfoldable pub new : Option (String → Bool) → Option (ℕ → ℕ → ℕ → String → Bool) → Manager
new res lease = record {
  res = res;
  lease = lease;
  ops = [];
  subs = [];
  next_handle = 0;
  observer = false;
  observed = [];
  next_id = 0;
  supersede_epoch = 0;
  wake = false;
  stopping = false;
  audit = [];
}

-- `m.ops[id]`.
unfoldable pub find_op : ℕ → List Operation → Option Operation
find_op id [] = none
find_op id (o ∷ os) = if o.id == id then some o else find_op id os

-- `m.ops[op.id] = op`, and a change of the operation that is there.
unfoldable pub put_op : Operation → List Operation → List Operation
put_op op [] = op ∷ []
put_op op (o ∷ os) = if o.id == op.id then op ∷ os else o ∷ put_op op os

unfoldable pub delete_op : ℕ → List Operation → List Operation
delete_op id [] = []
delete_op id (o ∷ os) = if o.id == id then delete_op id os else o ∷ delete_op id os
