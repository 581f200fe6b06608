-- ===== src/Transfer.antt =====
-- internal/transfer: the lifecycle of the data transfers that a route hands out, and their budgets.
pub mod Types
pub mod Budget
pub mod Manager
pub mod Routes
pub mod Accounts
pub mod Balance
pub mod Reaped
pub mod Calls
pub mod Kept
pub mod Spending
pub mod Guarded
mod Tests
