-- ===== src/Miot.antt =====
-- miio/miot_device.py and miio/miot_models.py.
pub mod Mapping
pub mod Device
pub mod Urn
pub mod UrnRoundTrip
pub mod Schema
pub mod Describe
pub mod Service
pub mod Generic
pub mod Values
