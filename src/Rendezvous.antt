-- ===== src/Rendezvous.antt =====
-- nc-rendezvous (cmd/nc-rendezvous): the signaling hub and who may use it.
pub mod Token
pub mod Auth
pub mod Hub
pub mod Proxy
pub mod Certificate
pub mod Start
pub mod Routes
