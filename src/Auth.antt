-- ===== src/Auth.antt =====
-- Login, refresh rotation and logout (api/app/services/auth.py, api/app/auth/tokens.py).
pub mod Sessions
pub mod Replay
pub mod Limits
