-- ===== src/Protocol.antt =====
-- miio/protocol.py: the encryption of payloads and the layout of packets.
pub mod Backend
pub mod ByteScan
pub mod Crypt
pub mod Payload
pub mod Message
pub mod RoundTrip
pub mod Packet
pub mod Integrity
pub mod Concrete
pub mod BuildErrors
