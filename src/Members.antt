-- ===== src/Members.antt =====
-- The member lifecycle of one workspace (api/app/services/members.py).
pub mod Hierarchy
pub mod Defs
pub mod Serving
pub mod Seats
pub mod Reporting
pub mod Organised
pub mod Requests
pub mod Deactivation
