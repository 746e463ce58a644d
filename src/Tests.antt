-- ===== src/Tests.antt =====
-- Concrete runs of the modelled services, and the theorems applied to them.
mod Team
mod Dealing
mod Access
mod Queue
mod Taxonomy
mod Routing
mod History
mod Edits
mod Throttle
mod Batches
mod Values
mod Tags
