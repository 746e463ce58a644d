-- ===== src/Assignment.antt =====
-- The assignment engine (api/app/services/assignment.py, api/app/models/assignment.py).
pub mod Rows
pub mod Engine
pub mod Matching
pub mod Candidates
pub mod Cursor
pub mod Decision
pub mod Strategy
pub mod Stored
