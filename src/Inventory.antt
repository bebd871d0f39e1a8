-- ===== src/Inventory.antt =====
-- The inventory service.
pub mod Events
pub mod Publisher
pub mod Tables
pub mod Server
pub mod Stock
pub mod Contract
pub mod History
pub mod Accounts
pub mod Negative
pub mod Metrics
pub mod Repository
pub mod Handler
pub mod Samples
mod Examples
pub mod Search
