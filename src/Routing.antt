-- ===== src/Routing.antt =====
-- Who gets which leads (api/app/services/routing.py): sales groups, assignment rules, redistribution.
pub mod Groups
pub mod Replaced
pub mod Rules
pub mod Reordered
pub mod Priorities
pub mod Restart
pub mod Distribution
pub mod Dealing
pub mod Fair
pub mod Eligible
