-- ===== src/PushServer.antt =====
-- miio/push_server/server.py and miio/push_server/serverprotocol.py.
pub mod Registry
pub mod Registering
pub mod Datagrams
pub mod Answering
pub mod Unregistering
pub mod Events
pub mod Subscribing
pub mod NewEvents
