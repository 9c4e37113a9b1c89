-- ===== src/Factory.antt =====
-- miio/devicefactory.py.
pub mod Registry
pub mod Sorting
pub mod Lookup
pub mod Create
