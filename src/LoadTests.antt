-- ===== src/LoadTests.antt =====
-- apps/load-tests/src: the load generator's clients, scenarios and statistics.
pub mod Stats
pub mod Connection
pub mod Messaging
pub mod RampUp
pub mod Exchange
pub mod SteadyState
pub mod RealisticSession
pub mod AsyncDelivery
pub mod Aggregate
