-- ===== src/Guardrails.antt =====
-- The SQL guardrails, backend/app/semantic/sql_validator.py.
pub mod Patterns
pub mod Decision
pub mod Statement
pub mod Check
pub mod Validator
pub mod Ensure
pub mod Tests
