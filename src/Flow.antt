-- ===== src/Flow.antt =====
-- The whole way of a notification: a request of the API, the relay or the scheduler publishes its
-- message, and the deliveries of this message to the worker bring it to its end.
pub mod Message
pub mod Request
pub mod Tickets
pub mod Batch
pub mod Relay
pub mod Parked
pub mod Stuck
pub mod Orphan
