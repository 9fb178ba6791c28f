-- ===== src/Convert.antt =====
-- nats-mq/core/msgconv.go: the conversion between MQ messages and NATS messages.
pub mod Mqmd
pub mod Bytes
pub mod Header
pub mod Reply
pub mod Properties
pub mod Messages
pub mod RoundTrip
pub mod Order
pub mod Journey
pub mod Relay
mod Tests
