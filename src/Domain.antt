-- ===== src/Domain.antt =====
-- The package internal/domain: the data of a notification, the validation of a request item, the
-- queue priority and the rendering of templates.
pub mod Types
pub mod Validate
pub mod Template
