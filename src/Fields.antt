-- ===== src/Fields.antt =====
-- The types of fields (api/app/fields).
pub mod Dates
pub mod Calendar
pub mod Recurrence
pub mod Occurrences
pub mod Normalise
pub mod Stable
