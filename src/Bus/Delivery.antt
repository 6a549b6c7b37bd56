-- ===== src/Bus/Delivery.antt =====
-- kernel/ipc/bus.go: where a request stands, from its send to its reply, and runs of the bus.
pub mod Events
mod Moves
pub mod Kept
pub mod Replies
