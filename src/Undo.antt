-- ===== src/Undo.antt =====
-- Reversing a changeset (api/app/services/undo.py).
pub mod Plan
pub mod Conflicts
pub mod Preview
pub mod Service
pub mod Values
pub mod Tracks
pub mod Roundtrip
pub mod Kept
pub mod Safety
