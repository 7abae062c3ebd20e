-- ===== src/Tests.antt =====
-- Runs of the modelled code on concrete inputs, where the conditions of the theorems hold.
pub mod Maps
pub mod Limits
pub mod Clients
pub mod Sources
pub mod Leases
pub mod Requests
pub mod Schedules
pub mod Sessions
pub mod Rewrites
pub mod Access
