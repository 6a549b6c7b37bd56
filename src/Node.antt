-- ===== src/Node.antt =====
-- modules/node: the protocol between a companion device and the gateway.
mod Examples
pub mod Protocol
pub mod Pairing
pub mod Server
