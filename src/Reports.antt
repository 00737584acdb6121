-- ===== src/Reports.antt =====
-- Scheduled reports, backend/app/reports/.
pub mod Calendar
pub mod Records
pub mod Delivery
pub mod Session
pub mod Execute
pub mod Queue
pub mod Heartbeat
pub mod Recipients
pub mod Claim
pub mod Cycle
pub mod Tests
mod GuardedTests
mod QueueTests
mod RecipientTests
