-- ===== src/Leads.antt =====
-- Edits of leads (api/app/services/leads.py, api/app/fields/values.py).
pub mod Values
pub mod Merge
pub mod Update
pub mod Written
pub mod Recorded
pub mod Undone
pub mod Bulk
pub mod Batch
pub mod Selected
pub mod Reversible
pub mod Create
pub mod Identity
pub mod Unique
pub mod Identities
