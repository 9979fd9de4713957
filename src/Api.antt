-- ===== src/Api.antt =====
-- The handlers of internal/api.
pub mod Answer
pub mod Response
pub mod Create
pub mod Notification
pub mod Cursor
pub mod Listing
pub mod Template
pub mod Hub
pub mod Origin
pub mod Broadcast
pub mod Router
