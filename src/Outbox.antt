-- ===== src/Outbox.antt =====
-- internal/outbox: the worker's side of the outbox.
pub mod Processor
pub mod Backoff
pub mod Selected
pub mod Order
pub mod Claims
pub mod Delivery
pub mod Batch
pub mod Worker
