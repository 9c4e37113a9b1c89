-- ===== src/Status.antt =====
-- miio/devicestatus.py: the containers that a status is returned in, the containers embedded in them,
-- and the decorators that describe their properties.
pub mod Names
pub mod Store
pub mod Decorators
pub mod Output
pub mod Embedding
pub mod Reading
pub mod Joined
pub mod SameClass
pub mod Keys
pub mod Readable
pub mod Invariant
