-- ===== src/Client.antt =====
-- miio/miioprotocol.py: the client's side of the protocol, over a network that is a script of what
-- each use of a socket will meet.
pub mod Network
pub mod State
pub mod Discovery
pub mod Request
pub mod Send
pub mod Bounds
pub mod Handshake
pub mod Errors
pub mod Ids
pub mod Delivery
pub mod Retries
