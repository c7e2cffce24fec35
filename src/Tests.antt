-- ===== src/Tests.antt =====
-- Runs of the model on small inputs, and the theorems at concrete inputs.
mod Clients
mod Codec
mod Lifecycle
mod Routing
mod Sockets
mod Turbo
