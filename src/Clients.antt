-- ===== src/Clients.antt =====
-- crates/ferroly/src/clients: the circuit breaker and the retry driver.
pub mod Breaker
pub mod Retry
