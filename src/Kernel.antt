-- ===== src/Kernel.antt =====
-- internal/kernel: the modules' ordered start and their shutdown in reverse.
pub mod Run
pub mod Order
mod Tests
