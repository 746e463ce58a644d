-- ===== src/LeadOwnership.antt =====
-- api/app/services/lead_ownership.py: the open pipeline that a member holds, and its transfer.
pub mod Defs
pub mod Transfer
pub mod Recorded
