-- ===== src/Examples.antt =====
-- The theorems at concrete inputs.
pub mod Pages
pub mod Deliveries
pub mod Replays
pub mod Drifts
pub mod Slots
pub mod Catalogs
pub mod Accounts
pub mod Plans
pub mod Loops
pub mod Positions
