-- ===== src/Channel.antt =====
-- modules/channel/pairing.go: the pairing store, its codes and the gate for direct messages.
mod Examples
pub mod Pairing
pub mod Code
