-- ===== src/Relay.antt =====
-- aws/lambdas/operator_pager_relay/handler.py
pub mod Types
pub mod Reasons
pub mod Drill
pub mod Parse
pub mod Render
pub mod Deliver
pub mod Record
pub mod Handler
