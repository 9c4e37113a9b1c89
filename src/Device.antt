-- ===== src/Device.antt =====
-- miio/device.py: what every integration builds on, over a transport that sends commands.
pub mod Transport
pub mod Sequence
pub mod Info
pub mod Properties
pub mod Slicing
pub mod Updates
pub mod Caching
