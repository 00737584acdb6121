-- ===== src/Execution.antt =====
-- Running validated SQL with a result cache and an audit, backend/app/query_execution/.
pub mod Fingerprint
pub mod Cache
pub mod Service
mod Tests
