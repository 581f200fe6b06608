-- ===== src/Gate.antt =====
-- internal/motiongate: the shared Safety gate, one 64-bit word with the state in its high 8 bits
-- and the motion epoch in its low 56 bits. A method is the transition that its compare-and-swap
-- loop commits; Gate.Cas has the loop itself.
pub mod Defs
pub mod Word
pub mod Moves
pub mod Cas
pub mod Tests
