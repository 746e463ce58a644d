-- ===== src/Events.antt =====
-- The outbound event bus (api/app/events, api/app/models/integration.py): the rows and their types.
pub mod Outbox
pub mod Dispatcher
pub mod Delivery
pub mod Settled
pub mod Reclaim
pub mod Attempts
