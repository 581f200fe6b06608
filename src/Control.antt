-- ===== src/Control.antt =====
-- internal/control: the control leases of HUMAN and AI controllers, one slot for each resource.
pub mod Policy
pub mod Types
pub mod Slots
pub mod Boundary
pub mod Supervised
pub mod Lookup
pub mod Acquire
pub mod Revoke
pub mod Lane
pub mod Budget
pub mod Checked
pub mod Race
pub mod Issue
pub mod Tally
pub mod Ledger
pub mod Grant
pub mod Issued
pub mod Whole
pub mod Takeover
pub mod Revoked
pub mod Moves
pub mod Tests
