-- ===== src/Message.antt =====
-- message/message.go: the message that travels on the NATS side, its header and its typed
-- properties. The types are in `Message/Data.antt`, the operations on properties in
-- `Message/Property.antt`, and what they guarantee in the modules after these.
pub mod Data
pub mod Property
pub mod Narrow
pub mod RoundTrip
pub mod Panics
pub mod Wire
mod Tests
