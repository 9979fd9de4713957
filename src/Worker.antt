-- ===== src/Worker.antt =====
-- cmd/worker/main.go: what the worker does with a delivery, and how long it waits.
pub mod Timing
pub mod Envelope
pub mod Handle
pub mod Queue
