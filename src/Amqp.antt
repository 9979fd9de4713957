-- ===== src/Amqp.antt =====
-- The package internal/amqp: the retry header, the message envelope, the topology, publishing and the
-- consumer loop.
pub mod Headers
pub mod Topology
pub mod Publish
pub mod Client
pub mod Connection
pub mod Trace
