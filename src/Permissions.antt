-- ===== src/Permissions.antt =====
-- The field permissions (api/app/permissions/projection.py).
pub mod Projection
pub mod Grants
