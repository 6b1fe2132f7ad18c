-- ===== src/Transport/Delivery.antt =====
-- The messages of one sender on one channel, from its `publish` to the receiver's listeners.
pub mod Sent
pub mod Received
pub mod Recovery
pub mod Arrivals
pub mod Others
