-- ===== src/Tests.antt =====
-- Concrete inputs, and the theorems applied to them.
mod Fixtures
mod Runs
mod Values
mod Store
mod Checks
mod Pages
mod Services
mod Retries
mod Flows
mod Batches
mod Processes
