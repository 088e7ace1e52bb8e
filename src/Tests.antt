-- ===== src/Tests.antt =====
-- The theorems at concrete inputs, and runs of the definitions.
mod Auth
mod Signaling
mod Desk
mod Sharing
mod Sessions
mod Desktop
mod Devices
mod Naming
mod Server
mod Clients
mod Certificate
