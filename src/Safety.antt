-- ===== src/Safety.antt =====
-- internal/safety: the Safety module around the motion gate.
pub mod Phase
pub mod Contract
pub mod Tracker
pub mod State
pub mod Supervisor
pub mod Requests
pub mod Invariant
pub mod History
pub mod InFlight
pub mod Escalation
pub mod Rearm
pub mod Tests
pub mod Ring
pub mod Fifo
pub mod Interleaved
