-- ===== src/Delivery.antt =====
-- The package internal/delivery: the request to the provider and what its answer means.
pub mod Outbound
pub mod Webhook
