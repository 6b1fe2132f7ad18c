-- ===== src/Transport.antt =====
-- packages/core/src/transport/websocket.
pub mod Storage
pub mod Incoming
pub mod Queue
pub mod Shared
pub mod Direct
pub mod Outgoing
pub mod History
pub mod Delivery
pub mod Footprint
