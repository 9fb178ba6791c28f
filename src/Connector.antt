-- ===== src/Connector.antt =====
-- nats-mq/core/connector.go, connect.go and the eight connectors: how a connector opens and closes
-- its resources, and how it handles messages.
pub mod Services
pub mod Steps
pub mod Kinds
pub mod Create
pub mod Listen
pub mod Polling
pub mod Polled
pub mod Ledger
pub mod Returning
pub mod Locked
pub mod Delivery
mod Tests
pub mod Lifecycle
pub mod Release
pub mod Acquired
pub mod Balance
