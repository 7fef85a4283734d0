-- ===== src/Connection.antt =====
-- Connection.cpp of the router: the queue of messages to send with the coroutine that writes them,
-- and the coroutine that reads.
pub mod Sending
pub mod Receiving
pub mod Order
mod Examples
