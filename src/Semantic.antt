-- ===== src/Semantic.antt =====
-- The semantic layer, backend/app/semantic: the governed catalog, its validation and administration,
-- and the planner and compiler that turn an interpretation into SQL. A key, a name and a fragment of
-- SQL is a text.
pub mod Errors
pub mod Template
pub mod Catalog
pub mod Literals
pub mod Request
pub mod Clauses
pub mod Dedupe
pub mod Loops
pub mod Planner
pub mod Compiler
pub mod Fragments
pub mod Validators
pub mod Uncrashed
pub mod Store
pub mod Admin
pub mod Linked
pub mod Layer
pub mod Mapped
mod Tests
