-- ===== src/Utils.antt =====
-- miio/utils.py.
pub mod Colors
