-- ===== src/Operation.antt =====
-- internal/operation: the records of long tasks, their state machine, and who may move them.
pub mod State
pub mod Types
pub mod Locked
pub mod Surface
pub mod Reports
pub mod Store
pub mod Sweep
pub mod Moves
pub mod Follow
pub mod Frame
pub mod Absent
pub mod History
pub mod Endings
pub mod Overruled
pub mod Admission
pub mod Tests
