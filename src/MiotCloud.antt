-- ===== src/MiotCloud.antt =====
-- miio/miot_cloud.py: the releases of specifications, and the cache of files.
pub mod Releases
pub mod Newest
pub mod Cache
pub mod Caching
