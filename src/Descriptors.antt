-- ===== src/Descriptors.antt =====
-- miio/descriptors.py and miio/descriptorcollection.py, and what miio/device.py does with them.
pub mod Defs
pub mod FreeId
pub mod Collection
pub mod Objects
pub mod Adding
pub mod Seen
pub mod Sharing
pub mod Selection
pub mod Held
pub mod Initializing
