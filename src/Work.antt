-- ===== src/Work.antt =====
-- Labels and tasks (api/app/services/work.py).
pub mod Labels
pub mod Tidy
