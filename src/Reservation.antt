-- ===== src/Reservation.antt =====
-- The reservation service.
pub mod Events
pub mod Tables
pub mod Remote
pub mod Server
pub mod Compensation
pub mod Create
pub mod Queries
pub mod Publisher
pub mod Background
pub mod Ledger
pub mod Calls
pub mod Accounts
pub mod Integration
pub mod Replay
pub mod Walk
pub mod Metrics
pub mod Lost
pub mod Concurrent
pub mod Samples
mod Examples
