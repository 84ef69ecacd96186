-- ===== src/Follower.antt =====
-- local/postgres/lib/qpg/follower.py: the schema follower.
pub mod Lsn
pub mod Types
pub mod Effects
pub mod Shape
pub mod Machine
pub mod Halting
pub mod Stalls
pub mod Cycle
pub mod Loop
